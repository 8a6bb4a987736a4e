-- ===== src/Pipeline/RateLimit.antt =====
-- src/core/pipeline/rate_limit.rs. The map of the windows is a list of its entries, one for a key;
-- the clock is an argument, in nanoseconds. The lock is never poisoned, since nothing that holds it
-- panics.
mod Spacing
mod Examples
use magiclaw.Common.{
  ℕ, ◌-◌, ◌/◌, ◌%◌, ◌^◌, Bool, true, false, Option, none, some, List, [], ◌∷◌, ◌++◌, if◌then◌else◌,
  ◌==◌, list_eq, nat_eq, ltb, is_empty,
}
use magiclaw.Common.Text.{Text, text}
use magiclaw.Domain.Message.{RouteKey}
use magiclaw.Pipeline.Chain.{PipelineContext}

abbrev pub Windows : Type 0
Windows = List (Text × ℕ)

unfoldable pub get : Text → Windows → Option ℕ
get key [] = none
get key ((k, t) ∷ windows) = if k == key then some t else get key windows

-- `HashMap::insert`.
unfoldable pub insert : Text → ℕ → Windows → Windows
insert key now [] = (key, now) ∷ []
insert key now ((k, t) ∷ windows) =
    let rest = insert key now windows in if k == key then (k, now) ∷ windows else (k, t) ∷ rest

-- The conversation, or the peer where a platform names none.
abbrev pub scope : RouteKey → Text
scope k = if is_empty k.conversation_id then k.peer_id else k.conversation_id

unfoldable pub window_key : RouteKey → Text
window_key k = k.channel.as_str ++ text ":" ++ scope k

-- `last.elapsed().as_millis() as u64`.
abbrev pub elapsed_ms : ℕ → ℕ → ℕ
elapsed_ms now last = (now - last) / 1000000 % 2 ^ 64

abbrev pub is_limited : ℕ → ℕ → Option ℕ → Bool
is_limited min_interval_ms now none = false
is_limited min_interval_ms now (some last) = ltb (elapsed_ms now last) min_interval_ms

unfoldable pub process :
    (min_interval_ms now : ℕ) → PipelineContext → Windows → PipelineContext × Windows
unfolding get insert window_key
process min_interval_ms now ctx windows =
    let key = window_key ctx.message.route_key in
    (
      (if is_limited min_interval_ms now (get key windows)
          then record ctx { short_circuit = true }
          else ctx),
      insert key now windows,
    )
