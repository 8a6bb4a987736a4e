-- ===== src/Resilience/Gate/Laws.antt =====
-- Calls under the gate, one after another.
use magiclaw.Common.{ℕ, ◌+◌, ◌%◌, ◌^◌, ◌<◌, ◌≡◌, refl, true, some, arith, inl, inr, Option-cases}
use magiclaw.Common.Result.{Result, ok, err}
use magiclaw.Common.Text.{Text, text}
use magiclaw.Resilience.Breaker.{
  CircuitBreaker, opened, allow_request, record_success, record_failure,
}
use magiclaw.Resilience.Breaker.Invariant.{OpenedBefore}
use magiclaw.Resilience.Bulkhead.{
  Semaphore, Bulkhead, acquire, take_permit, count_up, drop_guard, return_permit, count_down,
}
use magiclaw.Resilience.Gate.{ResilienceGate, Outcome, execute, finish}

-- What the breaker makes of an operation's result.
abbrev pub settle : {T E : Type 0} → ℕ → Result T E → CircuitBreaker → CircuitBreaker
settle later (ok value) cb = record_success cb
settle later (err e) cb = record_failure later cb

module _ (sem : Semaphore) where
  -- No call is in flight.
  pub record IsIdle (max : ℕ) (b : Bulkhead sem) : Type 0 where
    pub uncounted : b.active_count ≡ 0
    pub unused : sem.available b.semaphore ≡ max

  acquire-IsIdle :
      (max : ℕ) (b : Bulkhead sem)
      → 0 < max
      → IsIdle max b
      → (b' : Bulkhead sem) × (acquire sem b ≡ some b') × IsIdle max (drop_guard sem b')
  unfolding acquire take_permit count_up drop_guard return_permit count_down
  acquire-IsIdle max b p v = elim (Option-cases (sem.try_acquire b.semaphore)) [
    | inl e ↦ absurd (omega (arith, v.unused, sem.try_acquire_none b.semaphore e))
    | inr (s, e) ↦ (
      record b { semaphore = s; active_count = (b.active_count + 1) % 2 ^ 64 },
      rw (e, acquire, take_permit),
      ground (arith, sem.try_acquire_some b.semaphore s e, sem.available-release s),
    )
  ]

  module _ {W T E : Type 0} (from_string : Text → E) where
    -- While the breaker is open and its timeout has not passed, a call returns the breaker's error
    -- at once; the operation does not run, and the gate does not change.
    pub execute_opened :
        (op : W → W × Result T E) (now later : ℕ) (g : ResilienceGate sem) (w : W)
        → g.breaker.state ≡ opened
        → ¬ OpenedBefore now g.breaker.timeout g.breaker.opened_at
        → OpenedBefore now 0 g.breaker.opened_at
        → execute sem from_string op now later g w
          ≡ some (record {
            gate = g;
            world = w;
            result = err (from_string (text "circuit breaker open"));
          })
    unfolding execute allow_request
    execute_opened op now later g w s n b = ground arith

    finish_lem :
        (max later : ℕ) (g : ResilienceGate sem) (w : W) (r : Result T E)
        → IsIdle max (drop_guard sem g.bulkhead)
        → let o = finish sem later g (w, r) in
          (o.world ≡ w)
          × (o.result ≡ r)
          × (o.gate.breaker ≡ settle later r g.breaker)
          × IsIdle max o.gate.bulkhead
    unfolding finish
    finish_lem max later g w (ok value) v = (refl, refl, refl, v)
    finish_lem max later g w (err e) v = (refl, refl, refl, v)

    -- Where no call is in flight and the breaker lets the request through, a call does not wait: it
    -- runs the operation once, returns its result, has the breaker record it, and gives its permit
    -- back.
    pub execute_allowed :
        (op : W → W × Result T E) (max now later : ℕ) (g : ResilienceGate sem) (w : W)
        → 0 < max
        → IsIdle max g.bulkhead
        → (allow_request now g.breaker).1 ≡ true
        → (o : Outcome sem W T E) × (execute sem from_string op now later g w ≡ some o)
          × (o.world ≡ (op w).0)
          × (o.result ≡ (op w).1)
          × (o.gate.breaker ≡ settle later (op w).1 (allow_request now g.breaker).0)
          × IsIdle max o.gate.bulkhead
    unfolding execute
    execute_allowed op max now later g w p v a =
        let (b, e, v') = acquire-IsIdle max g.bulkhead p v in
        let g' : ResilienceGate sem = record {
          breaker = (allow_request now g.breaker).0;
          bulkhead = b;
        } in
        let (hw, hr, hb, hi) = finish_lem max later g' (op w).0 (op w).1 v' in
        (finish sem later g' (op w), rw (a, e, execute), hw, hr, hb, hi)
