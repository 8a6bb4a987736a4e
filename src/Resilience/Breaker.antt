-- ===== src/Resilience/Breaker.antt =====
-- src/core/resilience/circuit_breaker.rs. A call reads the clock at one instant, its argument `now`,
-- in nanoseconds; `Instant::elapsed` is the difference to it and stops at 0. Each method runs whole.
pub mod Invariant
pub mod Recovery
pub mod Trips
mod Examples
use magiclaw.Common.{
  ℕ, ◌+◌, ◌-◌, ◌/◌, ◌%◌, ◌^◌, ◌≡◌, Bool, true, false, ◌&&◌, ◌||◌, Option, none, some, List, [], ◌∷◌,
  ltb, leb, if◌then◌else◌, PartialEq,
}

-- `opened` is the source's `Open`.
pub data CircuitState : Type 0 where
  closed opened half_open : CircuitState

-- `PartialEq` of the state.
abbrev pub is_state : CircuitState → CircuitState → Bool
is_state closed closed = true
is_state opened opened = true
is_state half_open half_open = true
is_state _ _ = false

pub record BreakerConfig : Type 0 where
  pub failure_threshold : ℕ
  pub timeout : ℕ
  pub half_open_max : ℕ

pub record CircuitBreaker : Type 0 where
  pub state : CircuitState
  pub failure_count : ℕ
  pub last_failure_time : ℕ
  pub opened_at : Option ℕ
  pub config : BreakerConfig
  pub open config use *

unfoldable pub new : BreakerConfig → CircuitBreaker
new config = record {
  state = closed;
  failure_count = 0;
  last_failure_time = 0;
  opened_at = none;
  config = config;
}

-- `BreakerConfig::default`: 20 failures, 300 s, 3 probes.
abbrev pub default_config : BreakerConfig
default_config = record { failure_threshold = 20; timeout = 300000000000; half_open_max = 3 }

abbrev elapsed : ℕ → ℕ → ℕ
elapsed now since = now - since

-- `opened.elapsed() >= timeout`, false where `opened_at` is `None`.
abbrev pub timed_out : ℕ → ℕ → Option ℕ → Bool
timed_out now timeout none = false
timed_out now timeout (some since) = leb timeout (elapsed now since)

allow_half_open : ℕ → CircuitBreaker → CircuitBreaker × Bool
allow_half_open now cb =
    if leb cb.half_open_max cb.failure_count
    then (
      (if timed_out now cb.timeout cb.opened_at
          then record cb { state = opened; opened_at = some now; failure_count = 0 }
          else cb),
      false,
    )
    else (cb, true)

allow_opened : ℕ → CircuitBreaker → CircuitBreaker × Bool
allow_opened now cb =
    if timed_out now cb.timeout cb.opened_at
    then (record cb { state = half_open; failure_count = 0 }, true)
    else (cb, false)

-- Whether a request may pass, and the breaker after it.
unfoldable pub allow_request : ℕ → CircuitBreaker → CircuitBreaker × Bool
unfolding allow_opened allow_half_open
allow_request now cb = elim cb.state [
  | closed ↦ (cb, true)
  | opened ↦ allow_opened now cb
  | half_open ↦ allow_half_open now cb
]

unfoldable pub record_success : CircuitBreaker → CircuitBreaker
record_success cb =
    if is_state cb.state half_open
    then record cb { failure_count = 0; state = closed }
    else record cb { failure_count = 0 }

-- The counter is an `AtomicU32`, whose `fetch_add` wraps. The time stored is that of an instant to
-- itself, in milliseconds.
unfoldable pub record_failure : ℕ → CircuitBreaker → CircuitBreaker
record_failure now cb =
    let count = (cb.failure_count + 1) % 2 ^ 32 in
    let counted = record cb {
      failure_count = count;
      last_failure_time = elapsed now now / 1000000 % 2 ^ 64;
    } in
    if leb cb.failure_threshold count && is_state cb.state closed
    then record counted { state = opened; opened_at = some now }
    else counted

-- What the gate's callers do to a breaker.
pub data Event : Type 0 where
  request success failure : Event

-- The breaker after an event, and whether a request was let through.
unfoldable pub step : ℕ → Event → CircuitBreaker → CircuitBreaker × Bool
step now request cb = allow_request now cb
step now success cb = (record_success cb, false)
step now failure cb = (record_failure now cb, false)

-- A history of timed events, oldest first.
unfoldable pub run : List (ℕ × Event) → CircuitBreaker → CircuitBreaker
run [] cb = cb
run ((now, e) ∷ es) cb = run es (step now e cb).0
