-- ===== src/Resilience/Gate/Examples.antt =====
-- The gate over a counting semaphore, and the theorems at concrete inputs.
use magiclaw.Common.{ℕ, suc, ◌≡◌, refl, true, some, none, [], ◌∷◌, ◌++◌, arith}
use magiclaw.Common.Result.{Result, err}
use magiclaw.Common.Text.{Text, text}
use magiclaw.Resilience.Breaker.{closed, opened, BreakerConfig, allow_request}
use magiclaw.Resilience.Bulkhead.Examples.{counting}
use magiclaw.Resilience.Gate.{ResilienceGate, new}
use magiclaw.Resilience.Gate.Outage.{calls, calls_outage, is_failing}

abbrev config : BreakerConfig
config = record { failure_threshold = 2; timeout = 60; half_open_max = 1 }

-- A send that counts its runs and fails.
abbrev down : ℕ → ℕ × Result (Unit {0}) Text
down n = (suc n, err (text "channel down"))

abbrev as_is : Text → Text
as_is s = s

abbrev broken : ResilienceGate counting
broken = record {
  breaker = record {
    state = opened;
    failure_count = 2;
    last_failure_time = 0;
    opened_at = some 10;
    config = config;
  };
  bulkhead = record { semaphore = 5; max_concurrent = 5; active_count = 0 };
}

abbrev fresh : ResilienceGate counting
fresh = record {
  breaker = record {
    state = closed;
    failure_count = 0;
    last_failure_time = 0;
    opened_at = none;
    config = config;
  };
  bulkhead = record { semaphore = 5; max_concurrent = 5; active_count = 0 };
}

fresh_allowed : (allow_request 7 fresh.breaker).1 ≡ true
unfolding allow_request
fresh_allowed = refl

down_fails : (n : ℕ) → is_failing (down n).1 ≡ true
down_fails n = refl

-- Two runs for five calls.
calls_outage_example :
    (g : ResilienceGate counting) × (calls counting as_is down
        ((5 ∷ 10 ∷ []) ++ (11 ∷ 12 ∷ 69 ∷ []))
        (new counting config 5)
        0
      ≡ some (g, 2))
calls_outage_example =
    calls_outage counting as_is down 5 (omega arith) down_fails config (5 ∷ 10 ∷ [])
      (11 ∷ 12 ∷ 69 ∷ []) 10 0 (omega arith) (omega arith) refl refl (omega arith)
