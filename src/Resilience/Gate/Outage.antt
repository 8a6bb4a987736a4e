-- ===== src/Resilience/Gate/Outage.antt =====
-- An operation that keeps failing is run `failure_threshold` times, and then no more.
use magiclaw.Common.{
  ℕ, zero, suc, ◌+◌, ◌-◌, ◌^◌, ◌≤◌, ◌<◌, ◌≡◌, refl, ◌∙◌, ap, Bool, true, false, Option, none, some,
  List, [], ◌∷◌, ◌++◌, arith, length, get_elem?, Option-cases, inl, inr,
}
use magiclaw.Common.Result.{Result, ok, err}
use magiclaw.Common.Text.{Text}
use magiclaw.Resilience.Breaker.{
  CircuitBreaker, closed, opened, BreakerConfig, allow_request, record_failure, run, step,
}
use magiclaw.Resilience.Breaker
use magiclaw.Resilience.Breaker.Invariant.{run-config}
use magiclaw.Resilience.Breaker.Trips.{failures, run-failures_trips, record_failure_closed}
use magiclaw.Resilience.Bulkhead.{Semaphore}
use magiclaw.Resilience.Bulkhead
use magiclaw.Resilience.Gate.{ResilienceGate, Outcome, execute, new}
use magiclaw.Resilience.Gate.Laws.{IsIdle, execute_allowed, execute_opened, settle}

-- The state of the world after `n` runs of an operation.
abbrev pub runs : {W R : Type 0} → (W → W × R) → ℕ → W → W
runs op zero w = w
runs op (suc n) w = runs op n (op w).0

abbrev pub is_failing : {T E : Type 0} → Result T E → Bool
is_failing (ok v) = false
is_failing (err e) = true

-- All times lie between `since` and `end`.
abbrev pub Within : ℕ → ℕ → List ℕ → Type 0
Within since end [] = Unit
Within since end (t ∷ ts) = (since ≤ t) × (t < end) × Within since end ts

module _ (sem : Semaphore) {W T E : Type 0} (from_string : Text → E) (op : W → W × Result T E) where
  -- One call at each of some times.
  pub calls : List ℕ → ResilienceGate sem → W → Option (ResilienceGate sem × W)
  calls [] g w = some (g, w)
  calls (t ∷ ts) g w = elim (execute sem from_string op t t g w) [
    | none ↦ none
    | some o ↦ calls ts o.gate o.world
  ]

  calls_opened :
      (ts : List ℕ) (since : ℕ) (g : ResilienceGate sem) (w : W)
      → g.breaker.state ≡ opened
      → g.breaker.opened_at ≡ some since
      → Within since (since + g.breaker.timeout) ts
      → calls ts g w ≡ some (g, w)
  unfolding calls
  calls_opened [] since g w s o h = refl
  calls_opened (t ∷ ts) since g w s o (h, k, hs) =
      rw
        (
          execute_opened sem from_string op t t g w s (rw o (λ p. omega arith))
              (rw o (omega arith)),
          calls,
        )
        (calls_opened ts since g w s o hs)

  allow_request_closed :
      (t : ℕ) (cb : CircuitBreaker) → cb.state ≡ closed → allow_request t cb ≡ (cb, true)
  unfolding allow_request
  allow_request_closed t cb s = ground arith

  settle_failing :
      (t : ℕ) (r : Result T E) (cb : CircuitBreaker)
      → is_failing r ≡ true
      → settle t r cb ≡ record_failure t cb
  settle_failing t (ok v) cb f = cc
  settle_failing t (err e) cb f = refl

  module _ (max : ℕ) (p : 0 < max) (fails : (w : W) → is_failing (op w).1 ≡ true) where
    -- What a call of the failing operation makes of a closed gate.
    abbrev Failed : ℕ → ResilienceGate sem → W → Outcome sem W T E → Type 0
    Failed t g w o =
        (o.world ≡ (op w).0)
        × (o.gate.breaker ≡ record_failure t g.breaker)
        × IsIdle sem max o.gate.bulkhead

    call_closed :
        (t : ℕ) (g : ResilienceGate sem) (w : W)
        → g.breaker.state ≡ closed
        → IsIdle sem max g.bulkhead
        → (o : Outcome sem W T E) × (execute sem from_string op t t g w ≡ some o) × Failed t g w o
    call_closed t g w s v =
        let a = allow_request_closed t g.breaker s in
        let (o, e, hw, hr, hb, hi) =
          execute_allowed sem from_string op max t t g w p v (rw a refl) in
        (o, e, (hw, hb ∙ (rw a (settle_failing t (op w).1 g.breaker (fails w))), hi))

    calls_closed :
        (ts : List ℕ) (count threshold : ℕ) (g : ResilienceGate sem) (w : W)
        → g.breaker.failure_threshold ≡ threshold
        → g.breaker.failure_count ≡ count
        → threshold < 2 ^ 32
        → g.breaker.state ≡ closed
        → count + length ts ≤ threshold
        → IsIdle sem max g.bulkhead
        → (g' : ResilienceGate sem) × (w' : W) × (calls ts g w ≡ some (g', w'))
          × (w' ≡ runs op (length ts) w)
          × (g'.breaker ≡ run (failures ts) g.breaker)
    unfolding calls run step
    calls_closed [] count threshold g w e f u s h v = (g, w, refl, refl, refl)
    calls_closed (t ∷ []) count threshold g w e f u s h v =
        let (o, q, (hw, hb, hi)) = call_closed t g w s v in (o.gate, o.world, rw (q, calls), hw, hb)
    calls_closed (t ∷ t' ∷ ts) count threshold g w e f u s h v =
        let (o, q, (hw, hb, hi)) = call_closed t g w s v in
        let (s', f', c') = record_failure_closed t g.breaker (omega arith) s (omega arith) in
        let (g', w', q', r', b') =
          calls_closed (t' ∷ ts) (count + 1) threshold o.gate o.world (rw (hb, c') e)
            (rw (hb, f') (omega arith)) u (rw hb s') (omega arith) hi in
        (
          g',
          w',
          rw (q, calls) q',
          r' ∙ ap (runs op (length (t' ∷ ts))) hw,
          b' ∙ ap (run (failures (t' ∷ ts))) hb,
        )

    calls-append :
        (ts us : List ℕ) (g : ResilienceGate sem) (w : W) (g' : ResilienceGate sem) (w' : W)
        → calls ts g w ≡ some (g', w')
        → calls (ts ++ us) g w ≡ calls us g' w'
    unfolding calls
    calls-append [] us g w g' w' e = ground (arith)
    calls-append (t ∷ ts) us g w g' w' e =
        elim (Option-cases (execute sem from_string op t t g w)) [
          | inl q ↦ cc (rw (q, calls) at e)
          | inr (o, q) ↦
              rw (q, calls) (calls-append ts us o.gate o.world g' w' (rw (q, calls) at e))
        ]

    new-IsIdle : (c : BreakerConfig) → IsIdle sem max (new sem c max).bulkhead
    unfolding new Bulkhead.new
    new-IsIdle c = record { uncounted = refl; unused = sem.available-new max }

    -- From a new gate, an operation that fails whenever it runs is run once for each of the first
    -- `failure_threshold` calls; calls after these, until the timeout has passed since the last of
    -- them, leave the world as it is.
    pub calls_outage :
        (c : BreakerConfig) (ts us : List ℕ) (since : ℕ) (w : W)
        → 0 < c.failure_threshold
        → c.failure_threshold < 2 ^ 32
        → length ts ≡ c.failure_threshold
        → get_elem? ts (c.failure_threshold - 1) ≡ some since
        → Within since (since + c.timeout) us
        → (g : ResilienceGate sem) × (calls (ts ++ us) (new sem c max) w
            ≡ some (g, runs op c.failure_threshold w))
    unfolding new Breaker.new
    calls_outage c ts us since w pos u n last h =
        let v = new-IsIdle c in
        let (g, w', q, r, hb) =
          calls_closed ts 0 c.failure_threshold (new sem c max) w refl refl u refl (omega arith)
            v in
        let (s, o) = (run-failures_trips c ts pos u).1 (omega arith) in
        let conf = run-config (failures ts) (Breaker.new c) in
        let i : c.failure_threshold - 0 - 1 ≡ c.failure_threshold - 1 = omega arith in
        let open_since : g.breaker.opened_at ≡ some since =
          ap (λ b. b.opened_at) hb ∙ o ∙ (rw i last) in
        let same : g.breaker.timeout ≡ c.timeout =
          ap (λ b. b.timeout) hb ∙ ap (λ k. k.timeout) conf in
        let stopped =
          calls_opened us since g w' (ap (λ b. b.state) hb ∙ s) open_since (rw same h) in
        (
          g,
          calls-append ts us (new sem c max) w g w' q
              ∙ stopped
              ∙ ap (λ x. some (g, x)) (r ∙ ap (λ k. runs op k w) n),
        )
