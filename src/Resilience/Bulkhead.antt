-- ===== src/Resilience/Bulkhead.antt =====
-- src/core/resilience/bulkhead.rs. The semaphore is tokio's, an interface here; nothing in the
-- program closes it, so that `acquire` only waits, and `BulkheadError::Closed` does not come up.
pub mod Threads
pub mod Examples
use magiclaw.Common.{
  ℕ, ◌+◌, ◌-◌, ◌%◌, ◌^◌, ◌≡◌, ◌↔◌, refl, Option, none, some, Option-cases, inl, inr, arith,
}
use magiclaw.Common.Result.{Result, ok, err}

-- `tokio::sync::Semaphore`: `try_acquire` takes a permit if there is one, and dropping the permit
-- gives it back.
pub record Semaphore : Type 1 where
  pub S : Type 0
  pub new : ℕ → S
  pub try_acquire : S → Option S
  pub release : S → S
  pub available : S → ℕ
  pub available-new : (n : ℕ) → available (new n) ≡ n
  pub try_acquire_none : (s : S) → try_acquire s ≡ none → available s ≡ 0
  pub try_acquire_some : (s t : S) → try_acquire s ≡ some t → available s ≡ available t + 1
  pub available-release : (s : S) → available (release s) ≡ available s + 1

pub data BulkheadError : Type 0 where
  full shut : BulkheadError

module _ (sem : Semaphore) where
  pub record Bulkhead : Type 0 where
    pub semaphore : sem.S
    pub max_concurrent : ℕ
    pub active_count : ℕ

  unfoldable pub new : ℕ → Bulkhead
  new max_concurrent = record {
    semaphore = sem.new max_concurrent;
    max_concurrent = max_concurrent;
    active_count = 0;
  }

  -- `fetch_add(1)` and `fetch_sub(1)` of an `AtomicUsize`, which wrap.
  unfoldable pub count_up : Bulkhead → Bulkhead
  count_up b = record b { active_count = (b.active_count + 1) % 2 ^ 64 }

  unfoldable pub count_down : Bulkhead → Bulkhead
  count_down b = record b { active_count = (b.active_count + 2 ^ 64 - 1) % 2 ^ 64 }

  -- The first half of `acquire` and of `try_acquire`: the permit.
  unfoldable pub take_permit : Bulkhead → Option Bulkhead
  take_permit b = elim (sem.try_acquire b.semaphore) [
    | none ↦ none
    | some s ↦ some (record b { semaphore = s })
  ]

  unfoldable pub return_permit : Bulkhead → Bulkhead
  return_permit b = record b { semaphore = sem.release b.semaphore }

  -- `acquire`, once it is polled: `none` while no permit is free.
  unfoldable pub acquire : Bulkhead → Option Bulkhead
  acquire b = elim (take_permit b) [ none ↦ none | some b' ↦ some (count_up b') ]

  unfoldable pub try_acquire : Bulkhead → Result Bulkhead BulkheadError
  try_acquire b = elim (take_permit b) [ none ↦ err full | some b' ↦ ok (count_up b') ]

  -- `drop` of a guard: its own `drop`, then that of its field, the permit.
  unfoldable pub drop_guard : Bulkhead → Bulkhead
  drop_guard b = return_permit (count_down b)
