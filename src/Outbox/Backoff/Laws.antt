-- ===== src/Outbox/Backoff/Laws.antt =====
-- The delays between retries.

use magiclaw.Common.{
  ℕ, zero, suc, ◌+◌, ◌*◌, ◌-◌, ◌%◌, ◌^◌, ◌<◌, ◌≤◌, ◌≡◌, arith, leb, ltb, if◌then◌else◌, Bool-cases,
  inl, inr,
}
use Prim.Native.Nat.{min}
use magiclaw.Outbox.Backoff.{RetryConfig, u64_max, capped_delay, next_delay_ms}

-- `base.saturating_mul(power)`, where the power saturates too, and the cap.
abbrev saturated : ℕ → ℕ → ℕ → ℕ
saturated b p m = min (min (b * min p u64_max) u64_max) m

times_pos : (b p : ℕ) → p ≤ suc b * p
times_pos b p = grind arith

small : (b p m : ℕ) → m ≤ u64_max → p ≤ u64_max → saturated b p m ≡ min (b * p) m
small b p m h k = let e : min p u64_max ≡ p = omega (arith, k) in rw e (omega (arith, h))

large : (b p m : ℕ) → m ≤ u64_max → u64_max ≤ p → saturated (suc b) p m ≡ m
large b p m h k =
    let e : min p u64_max ≡ u64_max = omega (arith, k) in
    rw e (let t = times_pos b u64_max in omega (arith, h))

-- One step of the exponential with both saturations.
double : (b p m : ℕ) → m ≤ u64_max → saturated b (2 * p) m ≡ min (2 * saturated b p m) m
double zero p m h = omega arith
double (suc b) p m h = elim (Bool-cases (leb (2 * p) u64_max)) [
  | inl fits ↦
      rw
        (
          small (suc b) (2 * p) m h (ground (arith, fits)),
          small (suc b) p m h (ground (arith, fits)),
        )
        (let e : suc b * (2 * p) ≡ 2 * (suc b * p) = grind arith in rw e (omega arith))
  | inr over ↦ (elim (Bool-cases (leb u64_max p)) [
    | inl far ↦
        rw (large b (2 * p) m h (ground (arith, over)), large b p m h (ground (arith, far)))
          (omega arith)
    | inr near ↦
        rw (large b (2 * p) m h (ground (arith, over)), small (suc b) p m h (ground (arith, near)))
          (let t = times_pos b p in
            let k : u64_max < 2 * p = ground (arith, over) in omega (arith, t, k, h))
  ])
]

range_lem : (x r : ℕ) → 0 < r → x % r ≤ r - 1
range_lem x r h = omega (arith, h)

jitter_lem : (x n r m : ℕ) → min (if ltb 0 r then min (x + n % r) u64_max else x) m ≤ x + (r - 1)
jitter_lem x n r m = elim (Bool-cases (ltb 0 r)) [
  | inl some_range ↦
      (let t = range_lem n r (ground (arith, some_range)) in rw some_range (omega (arith, t)))
  | inr no_range ↦ rw no_range (omega arith)
]

next_power : (n : ℕ) → 2 ^ suc n ≡ 2 * 2 ^ n
next_power n = grind arith

-- For a maximum that is a 64-bit integer: the capped delay starts at the base and doubles with every
-- retry until it stands at the maximum, although the multiplications saturate; the delay is at least
-- the capped one, at most the maximum, and less than a jitter range above the capped one (equal to it
-- where the range is 0).
pub next_delay_ms_bounds :
    (c : RetryConfig) (n : ℕ)
    → c.max_backoff_ms ≤ u64_max
    → (capped_delay c 0 ≡ min c.base_backoff_ms c.max_backoff_ms)
      × (capped_delay c (suc n) ≡ min (2 * capped_delay c n) c.max_backoff_ms)
      × (capped_delay c n ≤ next_delay_ms c n)
      × (next_delay_ms c n ≤ c.max_backoff_ms)
      × (next_delay_ms c n ≤ capped_delay c n + (c.jitter_range (capped_delay c n) - 1))
unfolding next_delay_ms capped_delay
next_delay_ms_bounds c n h = (
  omega (arith, h),
  rw (next_power n) (double c.base_backoff_ms (2 ^ n) c.max_backoff_ms h),
  ground arith,
  ground arith,
  jitter_lem (capped_delay c n) (n * 7) (c.jitter_range (capped_delay c n)) c.max_backoff_ms,
)
