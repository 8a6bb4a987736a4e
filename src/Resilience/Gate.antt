-- ===== src/Resilience/Gate.antt =====
-- src/core/resilience/gate.rs and src/application/resilient_sender.rs. `execute` is one call from
-- start to end, with the clock read at its start and when the operation has returned; the state of
-- the world that the operation changes is passed through it.
pub mod Laws
pub mod Outage
mod Examples
use magiclaw.Common.{ℕ, ◌≡◌, Bool, true, false, Option, none, some, if◌then◌else◌}
use magiclaw.Common.Result.{Result, ok, err}
use magiclaw.Common.Text.{Text, text}
use magiclaw.Resilience.Breaker.{
  CircuitBreaker, BreakerConfig, default_config, allow_request, record_success, record_failure,
  CircuitState, opened, is_state,
}
use magiclaw.Resilience.Breaker
use magiclaw.Resilience.Bulkhead.{Semaphore, Bulkhead, acquire, drop_guard}
use magiclaw.Resilience.Bulkhead

module _ (sem : Semaphore) where
  pub record ResilienceGate : Type 0 where
    pub breaker : CircuitBreaker
    pub bulkhead : Bulkhead sem

  unfoldable pub new : BreakerConfig → ℕ → ResilienceGate
  new breaker_config max_concurrent = record {
    breaker = Breaker.new breaker_config;
    bulkhead = Bulkhead.new sem max_concurrent;
  }

  unfoldable pub ai_default : ResilienceGate
  unfolding new
  ai_default = new default_config 5

  unfoldable pub send_default : ResilienceGate
  unfolding new
  send_default = new default_config 50

  unfoldable pub is_open : ResilienceGate → Bool
  is_open g = is_state g.breaker.state opened

  -- The gate and the world after a call, and what it returns.
  pub record Outcome (W T E : Type 0) : Type 0 where
    pub gate : ResilienceGate
    pub world : W
    pub result : Result T E

  -- `match op.await`, and the drop of the guard at the end.
  unfoldable pub finish : {W T E : Type 0} → ℕ → ResilienceGate → W × Result T E → Outcome W T E
  finish later g (w, ok value) = record {
    gate = record { breaker = record_success g.breaker; bulkhead = drop_guard sem g.bulkhead };
    world = w;
    result = ok value;
  }
  finish later g (w, err e) = record {
    gate = record {
      breaker = record_failure later g.breaker;
      bulkhead = drop_guard sem g.bulkhead;
    };
    world = w;
    result = err e;
  }

  -- `none` while the call waits for a permit.
  unfoldable pub execute :
      {W T E : Type 0} (from_string : Text → E) (op : W → W × Result T E) (now later : ℕ)
      → ResilienceGate
      → W
      → Option (Outcome W T E)
  unfolding finish
  execute from_string op now later g w =
      let (cb, allowed) = allow_request now g.breaker in
      if allowed
      then (elim (acquire sem g.bulkhead) [
        | none ↦ none
        | some b ↦ some (finish later (record { breaker = cb; bulkhead = b }) (op w))
      ])
      else some (record {
        gate = record { breaker = cb; bulkhead = g.bulkhead };
        world = w;
        result = err (from_string (text "circuit breaker open"));
      })

  -- `ResilientOutboxSender::send`: the inner sender's call under the gate.
  unfoldable pub resilient_send :
      {W Entry : Type 0} (send : Entry → W → W × Result (Unit {0}) Text) (entry : Entry)
      (now later : ℕ)
      → ResilienceGate
      → W
      → Option (Outcome W (Unit {0}) Text)
  unfolding execute
  resilient_send send entry = execute (λ s. s) (send entry)
