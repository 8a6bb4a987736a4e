-- ===== src/Resilience/Breaker/Trips.antt =====
-- When the breaker opens, and that it then lets nothing through for its timeout.
use magiclaw.Common.{
  ℕ, suc, ◌+◌, ◌-◌, ◌≤◌, ◌<◌, ◌^◌, ◌≡◌, refl, Bool, false, some, List, [], ◌∷◌, arith, length, All,
  get_elem?, ◌∙◌, ap, dec_lt,
}
use magiclaw.Resilience.Breaker.{
  closed, opened, BreakerConfig, CircuitBreaker, new, allow_request, record_success, record_failure,
  Event, request, success, failure, step, run,
}
use magiclaw.Resilience.Breaker.Invariant.{Monotone}

-- A failure at each of some times.
abbrev pub failures : List ℕ → List (ℕ × Event)
failures [] = []
failures (t ∷ ts) = (t, failure) ∷ failures ts

pub record_failure_closed :
    (now : ℕ) (cb : CircuitBreaker)
    → cb.failure_threshold < 2 ^ 32
    → cb.state ≡ closed
    → cb.failure_count + 1 < cb.failure_threshold
    → ((record_failure now cb).state ≡ closed)
      × ((record_failure now cb).failure_count ≡ cb.failure_count + 1)
      × ((record_failure now cb).config ≡ cb.config)
unfolding record_failure
record_failure_closed now cb u s h = ground arith

record_failure_trips :
    (now : ℕ) (cb : CircuitBreaker)
    → cb.failure_threshold < 2 ^ 32
    → cb.state ≡ closed
    → cb.failure_count + 1 ≡ cb.failure_threshold
    → ((record_failure now cb).state ≡ opened) × ((record_failure now cb).opened_at ≡ some now)
unfolding record_failure
record_failure_trips now cb u s h = ground arith

record_failure_opened :
    (now : ℕ) (cb : CircuitBreaker)
    → cb.state ≡ opened
    → ((record_failure now cb).state ≡ opened)
      × ((record_failure now cb).opened_at ≡ cb.opened_at)
      × ((record_failure now cb).config ≡ cb.config)
unfolding record_failure
record_failure_opened now cb s = ground arith

run-failures_opened :
    (ts : List ℕ) (cb : CircuitBreaker)
    → cb.state ≡ opened
    → ((run (failures ts) cb).state ≡ opened) × ((run (failures ts) cb).opened_at ≡ cb.opened_at)
unfolding run step
run-failures_opened [] cb s = (s, refl)
run-failures_opened (t ∷ ts) cb s =
    let (s', o, _) = record_failure_opened t cb s in
    let (s'', o') = run-failures_opened ts (record_failure t cb) s' in (s'', o' ∙ o)

-- What `length ts` failures in a row make of a closed breaker with `count` failures so far.
abbrev pub Tripped : ℕ → ℕ → List ℕ → CircuitBreaker → Type 0
Tripped count threshold ts cb =
    (count + length ts < threshold → (cb.state ≡ closed) × (cb.failure_count ≡ count + length ts))
    × (threshold ≤ count + length ts
        → (cb.state ≡ opened) × (cb.opened_at ≡ get_elem? ts (threshold - count - 1)))

run-failures_closed :
    (ts : List ℕ) (cb : CircuitBreaker) (count threshold : ℕ)
    → cb.failure_threshold ≡ threshold
    → cb.failure_count ≡ count
    → threshold < 2 ^ 32
    → cb.state ≡ closed
    → count < threshold
    → Tripped count threshold ts (run (failures ts) cb)
unfolding run step
run-failures_closed [] cb count threshold e f u s h =
    ((λ _. (s, omega arith)), λ k. absurd (omega arith))
run-failures_closed (t ∷ ts) cb count threshold e f u s h = elim (dec_lt (count + 1) threshold) [
  | yes more ↦
      let (s', f', c') = record_failure_closed t cb (omega arith) s (omega arith) in
      let ih =
        run-failures_closed ts (record_failure t cb) (count + 1) threshold
          (ap (λ c. c.failure_threshold) c' ∙ e) (omega arith) u s' more in
      let i : threshold - count - 1 ≡ suc (threshold - (count + 1) - 1) = omega arith in
      (
        (λ k. ((ih.0 (omega arith)).0, omega (arith, (ih.0 (omega arith)).1))),
        λ k. rw i (ih.1 (omega arith)),
      )
  | no last ↦
      let (s', o) = record_failure_trips t cb (omega arith) s (omega arith) in
      let (s'', o') = run-failures_opened ts (record_failure t cb) s' in
      let i : threshold - count - 1 ≡ 0 = omega arith in
      ((λ k. absurd (omega arith)), λ k. rw i (s'', o' ∙ o))
]

-- From a new breaker, failures in a row leave it closed while there are fewer than the threshold,
-- each counted; as soon as there are that many it is open, since the failure that reached the
-- threshold.
pub run-failures_trips :
    (c : BreakerConfig) (ts : List ℕ)
    → 0 < c.failure_threshold
    → c.failure_threshold < 2 ^ 32
    → Tripped 0 c.failure_threshold ts (run (failures ts) (new c))
unfolding new
run-failures_trips c ts p u =
    run-failures_closed ts (new c) 0 c.failure_threshold refl refl u refl p

-- The answers to the requests of a history; the other events answer `false`.
abbrev pub answers : List (ℕ × Event) → CircuitBreaker → List Bool
answers [] cb = []
answers ((t, e) ∷ es) cb = (step t e cb).1 ∷ answers es (step t e cb).0

abbrev pub AllBefore : ℕ → List (ℕ × Event) → Type 0
AllBefore end [] = Unit
AllBefore end ((t, e) ∷ es) = (t < end) × AllBefore end es

step_opened :
    (t since : ℕ) (e : Event) (cb : CircuitBreaker)
    → cb.state ≡ opened
    → cb.opened_at ≡ some since
    → t < since + cb.timeout
    → since ≤ t
    → ((step t e cb).0.state ≡ opened)
      × ((step t e cb).0.opened_at ≡ some since)
      × ((step t e cb).0.config ≡ cb.config)
      × ((step t e cb).1 ≡ false)
unfolding step allow_request record_failure record_success
step_opened t since request cb s o h k = ground arith
step_opened t since success cb s o h k = ground arith
step_opened t since failure cb s o h k = ground arith

-- An open breaker stays open and refuses every request of any history that ends before its timeout
-- has passed, whatever successes and failures of calls in flight come in meanwhile.
pub answers_opened :
    (es : List (ℕ × Event)) (now since : ℕ) (cb : CircuitBreaker)
    → cb.state ≡ opened
    → cb.opened_at ≡ some since
    → since ≤ now
    → Monotone now es
    → AllBefore (since + cb.timeout) es
    → ((run es cb).state ≡ opened) × All (λ a. a ≡ false) (answers es cb)
unfolding run
answers_opened [] now since cb s o k m b = (s, tt)
answers_opened ((t, e) ∷ es) now since cb s o k (m, ms) (b, bs) =
    let (s', o', c', a) = step_opened t since e cb s o b (omega arith) in
    let same : AllBefore (since + (step t e cb).0.timeout) es = rw c' bs in
    let (s'', as') = answers_opened es t since (step t e cb).0 s' o' (omega arith) ms same in
    (s'', (a, as'))
