-- ===== src/Outbox/Backoff/Examples.antt =====
-- The default configuration at the third retry.
use magiclaw.Common.{◌+◌, ◌*◌, ◌-◌, ◌≤◌, ◌≡◌, arith}
use Prim.Native.Nat.{min}
use magiclaw.Outbox.Backoff.{default_retry, capped_delay, next_delay_ms}
use magiclaw.Outbox.Backoff.Laws.{next_delay_ms_bounds}

next_delay_ms_bounds_example :
    (capped_delay default_retry 0 ≡ min 1000 60000)
    × (capped_delay default_retry 4 ≡ min (2 * capped_delay default_retry 3) 60000)
    × (capped_delay default_retry 3 ≤ next_delay_ms default_retry 3)
    × (next_delay_ms default_retry 3 ≤ 60000)
    × (next_delay_ms default_retry 3
        ≤ capped_delay default_retry 3
          + (default_retry.jitter_range (capped_delay default_retry 3) - 1))
next_delay_ms_bounds_example = next_delay_ms_bounds default_retry 3 (omega arith)
