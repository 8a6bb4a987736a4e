-- ===== src/Resilience/Breaker/Examples.antt =====
-- Runs of the breaker, and the theorems at concrete inputs.
use magiclaw.Common.{ℕ, ◌≡◌, ◌⊎◌, refl, true, some, List, [], ◌∷◌, arith}
use magiclaw.Resilience.Breaker.{
  opened, half_open, BreakerConfig, CircuitBreaker, new, allow_request, record_failure, Event,
  request, failure, step, run,
}
use magiclaw.Resilience.Breaker.Invariant.{Inv}
use magiclaw.Resilience.Breaker.Recovery.{allow_request_recovers}
use magiclaw.Resilience.Breaker.Trips.{failures, Tripped, run-failures_trips}

abbrev config : BreakerConfig
config = record { failure_threshold = 2; timeout = 100; half_open_max = 1 }

abbrev history : List (ℕ × Event)
history = (5, failure) ∷ (7, failure) ∷ (50, request) ∷ (107, request) ∷ (120, failure) ∷ []

-- Open since 7, half-open at 107, and a failed probe at 120.
abbrev probing : CircuitBreaker
probing = record {
  state = half_open;
  failure_count = 1;
  last_failure_time = 0;
  opened_at = some 7;
  config = config;
}

abbrev tripped : CircuitBreaker
tripped = record probing { state = opened; failure_count = 2 }

history_lem : run history (new config) ≡ probing
unfolding run step new record_failure allow_request
history_lem = refl

probing-Inv : Inv 120 probing
probing-Inv = record {
  threshold_pos = omega arith;
  threshold_u32 = omega arith;
  by_state = omega arith;
}

allow_request_recovers_example :
    ((allow_request 220 probing).1 ≡ true)
    ⊎ ((allow_request 320 (allow_request 220 probing).0).1 ≡ true)
allow_request_recovers_example =
    allow_request_recovers 120 220 probing probing-Inv (omega arith) (omega arith)

run-failures_trips_example : Tripped 0 2 (5 ∷ 7 ∷ []) (run (failures (5 ∷ 7 ∷ [])) (new config))
run-failures_trips_example = run-failures_trips config (5 ∷ 7 ∷ []) (omega arith) (omega arith)
