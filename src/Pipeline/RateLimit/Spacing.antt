-- ===== src/Pipeline/RateLimit/Spacing.antt =====
-- Which messages src/core/pipeline/rate_limit.rs lets through.
use magiclaw.Common.{
  ℕ, ◌≡◌, ◌≢◌, ◌<◌, ◌≤◌, refl, subst, ◌∙◌, true, some, List, [], ◌∷◌, arith, list_eq, nat_eq, All,
}
use magiclaw.Common.Text.{Text}
use magiclaw.Pipeline.Chain.{PipelineContext}
use magiclaw.Pipeline.RateLimit.{Windows, get, insert, window_key, elapsed_ms, process}

get-insert :
    (key : Text) (now : ℕ) (windows : Windows) → get key (insert key now windows) ≡ some now
unfolding get insert
get-insert key now [] = ground (arith, (list_eq {A = ℕ}).eq_iff key key)
get-insert key now ((k, t) ∷ windows) = ground (arith, get-insert key now windows)

get-insert_other :
    (key other : Text) (now : ℕ) (windows : Windows)
    → other ≢ key
    → get other (insert key now windows) ≡ get other windows
unfolding get insert
get-insert_other key other now [] ne = ground (arith, ne, (list_eq {A = ℕ}).eq_iff key other)
get-insert_other key other now ((k, t) ∷ windows) ne = ground (
  arith,
  ne,
  (list_eq {A = ℕ}).eq_iff k key,
  (list_eq {A = ℕ}).eq_iff k other,
  get-insert_other key other now windows ne,
)

-- The windows after messages, with the times at which they come.
unfoldable pub serve : ℕ → List (PipelineContext × ℕ) → Windows → Windows
unfolding process
serve interval [] windows = windows
serve interval ((ctx, now) ∷ rest) windows =
    serve interval rest (process interval now ctx windows).1

abbrev pub Elsewhere : Text → PipelineContext × ℕ → Type 0
Elsewhere key (ctx, now) = key ≢ window_key ctx.message.route_key

get-serve :
    (interval : ℕ) (key : Text) (others : List (PipelineContext × ℕ)) (windows : Windows)
    → All (Elsewhere key) others
    → get key (serve interval others windows) ≡ get key windows
unfolding serve process
get-serve interval key [] windows h = refl
get-serve interval key ((ctx, now) ∷ rest) windows h =
    get-serve interval key rest (process interval now ctx windows).1 h.1
    ∙ get-insert_other (window_key ctx.message.route_key) key now windows h.0

-- Of two messages of one conversation that come closer than the interval, with any messages of
-- other conversations between them, the second is short-circuited, whether or not the first was; if
-- the time between them is as long as the interval, it goes on as it came.
pub process-spaced :
    (interval now later : ℕ) (ctx ctx' : PipelineContext) (others : List (PipelineContext × ℕ))
    (windows : Windows)
    → window_key ctx.message.route_key ≡ window_key ctx'.message.route_key
    → All (Elsewhere (window_key ctx'.message.route_key)) others
    → (elapsed_ms later now < interval
        → (process interval later ctx'
            (serve interval others (process interval now ctx windows).1)).0
          ≡ record ctx' { short_circuit = true })
      × (interval ≤ elapsed_ms later now
          → (process interval later ctx'
              (serve interval others (process interval now ctx windows).1)).0
            ≡ ctx')
unfolding process
process-spaced interval now later ctx ctx' others windows same apart =
    let key = window_key ctx'.message.route_key in
    let first = (process interval now ctx windows).1 in
    let seen : get key (serve interval others first) ≡ some now =
      get-serve interval key others first apart
      ∙ subst (λ k. get k first ≡ some now) same
          (get-insert (window_key ctx.message.route_key) now windows) in
    (λ close. ground (arith, seen, close), λ far. ground (arith, seen, far))
