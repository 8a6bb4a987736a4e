-- ===== src/Resilience/Breaker/Recovery.antt =====
-- When a request is refused, and that refusals end.
use magiclaw.Common.{ℕ, ◌+◌, ◌≤◌, ◌<◌, ◌≡◌, ◌⊎◌, ◌↔◌, true, false, some, arith}
use magiclaw.Resilience.Breaker.{opened, half_open, CircuitBreaker, allow_request}
use magiclaw.Resilience.Breaker.Invariant.{OpenedBefore, Inv}

-- Why a request is refused.
abbrev pub Refused : ℕ → CircuitBreaker → Type 0
Refused now cb =
    ((cb.state ≡ opened) × ¬ OpenedBefore now cb.timeout cb.opened_at)
    ⊎ ((cb.state ≡ half_open) × (cb.half_open_max ≤ cb.failure_count))

Refused-sound : (now : ℕ) (cb : CircuitBreaker) → (allow_request now cb).1 ≡ false → Refused now cb
unfolding allow_request
Refused-sound now cb h = ground arith

Refused-complete :
    (now : ℕ) (cb : CircuitBreaker) → Inv now cb → Refused now cb → (allow_request now cb).1 ≡ false
unfolding allow_request
Refused-complete now cb v h = ground arith

-- In a state that satisfies the invariant a request is refused exactly when the breaker is open and its timeout has not passed, or when it
-- is half-open and has counted `half_open_max` failures.
pub allow_request-eq-false_iff :
    (now : ℕ) (cb : CircuitBreaker)
    → Inv now cb
    → ((allow_request now cb).1 ≡ false) ↔ Refused now cb
allow_request-eq-false_iff now cb v = (Refused-sound now cb, Refused-complete now cb v)

-- A half-open breaker whose probes have failed opens again at the next request, with the timeout
-- counted from then: the code's test that the timeout has passed never fails.
pub half_open_reverts :
    (now : ℕ) (cb : CircuitBreaker)
    → Inv now cb
    → cb.state ≡ half_open
    → cb.half_open_max ≤ cb.failure_count
    → allow_request now cb
      ≡ (record cb { state = opened; opened_at = some now; failure_count = 0 }, false)
unfolding allow_request
half_open_reverts now cb v s h = ground arith

-- No breaker stays shut for good: in any state that satisfies the invariant, of two requests with
-- a timeout before each of them one passes at least, if half-open probes are allowed at all.
pub allow_request_recovers :
    (now later : ℕ) (cb : CircuitBreaker)
    → Inv now cb
    → 0 < cb.half_open_max
    → now + cb.timeout ≤ later
    → ((allow_request later cb).1 ≡ true)
      ⊎ ((allow_request (later + cb.timeout) (allow_request later cb).0).1 ≡ true)
unfolding allow_request
allow_request_recovers now later cb v p h = ground arith
