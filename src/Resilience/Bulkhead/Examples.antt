-- ===== src/Resilience/Bulkhead/Examples.antt =====
-- The bulkhead over a counting semaphore, and the theorems at concrete inputs.
use magiclaw.Common.{ℕ, zero, suc, ◌+◌, ◌≤◌, ◌≡◌, refl, Option, none, some, arith}
use magiclaw.Resilience.Bulkhead.{Semaphore, new, count_up, take_permit}
use magiclaw.Resilience.Bulkhead.Threads.{
  System, Step, permit, enter, Reach, here, next, start, Reach-bounded,
}

abbrev take_one : ℕ → Option ℕ
take_one zero = none
take_one (suc n) = some n

pub take_one-none : (s : ℕ) → take_one s ≡ none → s ≡ 0
take_one-none zero e = refl
take_one-none (suc n) e = cc

pub take_one-some : (s t : ℕ) → take_one s ≡ some t → s ≡ t + 1
take_one-some zero t e = cc
take_one-some (suc n) t e = ground arith

pub add_one : (s : ℕ) → suc s ≡ s + 1
add_one s = omega arith

-- A semaphore as the count of its permits.
abbrev pub counting : Semaphore
counting = record {
  S = ℕ;
  new = λ n. n;
  try_acquire = take_one;
  release = suc;
  available = λ n. n;
  available-new = λ n. refl;
  try_acquire_none = take_one-none;
  try_acquire_some = take_one-some;
  available-release = add_one;
}

abbrev taken : System counting
taken = record {
  bulkhead = record { semaphore = 0; max_concurrent = 1; active_count = 0 };
  entering = 1;
  inside = 0;
  leaving = 0;
}

abbrev entered : System counting
entered = record {
  bulkhead = record { semaphore = 0; max_concurrent = 1; active_count = 1 };
  entering = 0;
  inside = 1;
  leaving = 0;
}

taken-Step : Step counting (start counting 1) taken
unfolding new take_permit
taken-Step = permit (start counting 1) _ refl

entered-Step : Step counting taken entered
unfolding count_up
entered-Step = enter taken 0 refl

entered-Reach : Reach counting (start counting 1) entered
entered-Reach = next (next here taken-Step) entered-Step

Reach-bounded_example : (entered.bulkhead.active_count ≡ entered.inside) × (1 ≤ 1)
Reach-bounded_example = Reach-bounded counting 1 entered (omega arith) entered-Reach
