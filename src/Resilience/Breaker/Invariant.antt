-- ===== src/Resilience/Breaker/Invariant.antt =====
-- What holds of a breaker between two calls, when the clock does not run backwards.
use magiclaw.Common.{
  ℕ, ◌+◌, ◌≤◌, ◌<◌, ◌^◌, ◌≡◌, ◌∙◌, refl, Option, none, some, List, [], ◌∷◌, arith,
}
use magiclaw.Resilience.Breaker.{
  CircuitState, closed, opened, half_open, BreakerConfig, CircuitBreaker, new, allow_request,
  record_success, record_failure, Event, request, success, failure, step, run,
}

-- The breaker was opened, `wait` before `now` at the latest.
abbrev pub OpenedBefore : ℕ → ℕ → Option ℕ → Type 0
OpenedBefore now wait none = ⊥
OpenedBefore now wait (some since) = since + wait ≤ now

abbrev pub StateInv : CircuitState → ℕ → CircuitBreaker → Type 0
StateInv closed now cb = cb.failure_count < cb.failure_threshold
StateInv opened now cb = OpenedBefore now 0 cb.opened_at
StateInv half_open now cb = OpenedBefore now cb.timeout cb.opened_at

-- A closed breaker is below its threshold; an open one knows since when; a half-open one has
-- waited its timeout out.
pub record Inv (now : ℕ) (cb : CircuitBreaker) : Type 0 where
  pub threshold_pos : 0 < cb.failure_threshold
  pub threshold_u32 : cb.failure_threshold < 2 ^ 32
  pub by_state : StateInv cb.state now cb

OpenedBefore-mono : (n m w : ℕ) (o : Option ℕ) → n ≤ m → OpenedBefore n w o → OpenedBefore m w o
OpenedBefore-mono n m w none h p = p
OpenedBefore-mono n m w (some t) h p = omega arith

pub StateInv-mono :
    (s : CircuitState) (n m : ℕ) (cb : CircuitBreaker) → n ≤ m → StateInv s n cb → StateInv s m cb
StateInv-mono closed n m cb h p = p
StateInv-mono opened n m cb h p = OpenedBefore-mono n m 0 cb.opened_at h p
StateInv-mono half_open n m cb h p = OpenedBefore-mono n m cb.timeout cb.opened_at h p

pub new-Inv :
    (c : BreakerConfig) (now : ℕ)
    → 0 < c.failure_threshold
    → c.failure_threshold < 2 ^ 32
    → Inv now (new c)
unfolding new
new-Inv c now h k = record { threshold_pos = h; threshold_u32 = k; by_state = h }

-- Time passes.
pub Inv-mono : (n m : ℕ) (cb : CircuitBreaker) → n ≤ m → Inv n cb → Inv m cb
Inv-mono n m cb h v = record {
  threshold_pos = v.threshold_pos;
  threshold_u32 = v.threshold_u32;
  by_state = StateInv-mono cb.state n m cb h v.by_state;
}

allow_request-Inv : (now : ℕ) (cb : CircuitBreaker) → Inv now cb → Inv now (allow_request now cb).0
unfolding allow_request
allow_request-Inv now cb v = ground arith

record_success-Inv : (now : ℕ) (cb : CircuitBreaker) → Inv now cb → Inv now (record_success cb)
unfolding record_success
record_success-Inv now cb v = ground arith

record_failure-Inv : (now : ℕ) (cb : CircuitBreaker) → Inv now cb → Inv now (record_failure now cb)
unfolding record_failure
record_failure-Inv now cb v = ground arith

pub step-Inv : (now : ℕ) (e : Event) (cb : CircuitBreaker) → Inv now cb → Inv now (step now e cb).0
unfolding step
step-Inv now request cb v = allow_request-Inv now cb v
step-Inv now success cb v = record_success-Inv now cb v
step-Inv now failure cb v = record_failure-Inv now cb v

-- The clock does not run backwards over a history that starts at `now`.
abbrev pub Monotone : ℕ → List (ℕ × Event) → Type 0
Monotone now [] = Unit
Monotone now ((t, e) ∷ es) = (now ≤ t) × Monotone t es

abbrev pub end_time : ℕ → List (ℕ × Event) → ℕ
end_time now [] = now
end_time now ((t, e) ∷ es) = end_time t es

-- After any history of requests, successes and failures whose times do not fall, the breaker
-- satisfies its invariant at the time of the last event, if it did at the start.
pub run-Inv :
    (now : ℕ) (es : List (ℕ × Event)) (cb : CircuitBreaker)
    → Monotone now es
    → Inv now cb
    → Inv (end_time now es) (run es cb)
unfolding run
run-Inv now [] cb h v = v
run-Inv now ((t, e) ∷ es) cb (h, hs) v =
    run-Inv t es (step t e cb).0 hs (step-Inv t e cb (Inv-mono now t cb h v))

step-config : (now : ℕ) (e : Event) (cb : CircuitBreaker) → (step now e cb).0.config ≡ cb.config
unfolding step allow_request record_success record_failure
step-config now request cb = ground arith
step-config now success cb = ground arith
step-config now failure cb = ground arith

-- No event changes the configuration.
pub run-config : (es : List (ℕ × Event)) (cb : CircuitBreaker) → (run es cb).config ≡ cb.config
unfolding run
run-config [] cb = refl
run-config ((t, e) ∷ es) cb = run-config es (step t e cb).0 ∙ step-config t e cb
