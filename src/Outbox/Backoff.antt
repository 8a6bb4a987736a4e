-- ===== src/Outbox/Backoff.antt =====
-- src/infrastructure/storage/outbox.rs, `RetryConfig`. `jitter_range` stands for
-- `(capped as f64 * jitter) as u64`, which is floating-point arithmetic.
pub mod Laws
mod Examples
use magiclaw.Common.{ℕ, suc, ◌+◌, ◌*◌, ◌/◌, ◌%◌, ◌^◌, if◌then◌else◌, ltb}
use Prim.Native.Nat.{min}

abbrev pub u64_max : ℕ
u64_max = 18446744073709551615

pub record RetryConfig : Type 0 where
  pub max_retries : ℕ
  pub base_backoff_ms : ℕ
  pub max_backoff_ms : ℕ
  pub jitter_range : ℕ → ℕ

-- `RetryConfig::default`, with a jitter of 0.1.
abbrev pub default_retry : RetryConfig
default_retry = record {
  max_retries = 5;
  base_backoff_ms = 1000;
  max_backoff_ms = 60000;
  jitter_range = λ capped. capped / 10;
}

-- `base.saturating_mul(2.saturating_pow(n))` capped.
unfoldable pub capped_delay : RetryConfig → ℕ → ℕ
capped_delay c retry_count =
    min (min (c.base_backoff_ms * min (2 ^ retry_count) u64_max) u64_max) c.max_backoff_ms

unfoldable pub next_delay_ms : RetryConfig → ℕ → ℕ
next_delay_ms c retry_count =
    let capped = capped_delay c retry_count in
    let range = c.jitter_range capped in
    let with_jitter =
      if ltb 0 range then min (capped + retry_count * 7 % range) u64_max else capped in
    min with_jitter c.max_backoff_ms
