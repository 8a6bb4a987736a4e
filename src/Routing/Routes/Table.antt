-- ===== src/Routing/Routes/Table.antt =====
-- The operations on the table of routes of src/adapters/conversation_store.rs.
use magiclaw.Common.{
  ℕ, ◌≡◌, ◌≢◌, refl, sym, subst, some, List, [], ◌∷◌, All, arith, if_intro, ◌==◌, inl, inr,
  if◌then◌else◌, Bool-cases, ltb, ◌-◌,
}
use magiclaw.Domain.Message.{RouteKey, route_key_eq}
use magiclaw.Routing.Routes.{ConversationHandle, get, insert, refresh, retain}

abbrev pub Fresh : RouteKey → List ConversationHandle → Type 0
Fresh key routes = All (λ h. h.key ≢ key) routes

abbrev pub Distinct : List ConversationHandle → Type 0
Distinct [] = Unit
Distinct (h ∷ routes) = Fresh h.key routes × Distinct routes

abbrev touch : RouteKey → ℕ → ConversationHandle → ConversationHandle
touch key now h = if h.key == key then record h { last_active = now } else h

module _ (P : ConversationHandle → Type 0) where
  pub All-insert :
      (h : ConversationHandle) (routes : List ConversationHandle)
      → P h
      → All P routes
      → All P (insert h routes)
  unfolding insert
  All-insert h [] p k = (p, tt)
  All-insert h (g ∷ routes) p k =
      let rest = All-insert h routes p k.1 in
      if_intro (List ConversationHandle) (All P) (g.key == h.key) _ _ (λ same. (p, k.1))
        (λ other. (k.0, rest))

  pub All-retain :
      (now timeout : ℕ) (routes : List ConversationHandle)
      → All P routes
      → All P (retain now timeout routes).0
  unfolding retain
  All-retain now timeout [] k = tt
  All-retain now timeout (h ∷ routes) k =
      let rest = All-retain now timeout routes k.1 in
      if_intro (List ConversationHandle × List RouteKey) (λ r. All P r.0)
        (ltb timeout (now - h.last_active)) _ _ (λ late. rest) (λ early. (k.0, rest))

  pub All-refresh :
      ((h : ConversationHandle) (now : ℕ) → P h → P (record h { last_active = now }))
      → (key : RouteKey) (now : ℕ) (routes : List ConversationHandle) → All P routes
      → All P (refresh key now routes)
  unfolding refresh
  All-refresh keep key now [] k = tt
  All-refresh keep key now (h ∷ routes) k = (
    if_intro ConversationHandle P (h.key == key) _ _ (λ same. keep h now k.0) (λ other. k.0),
    All-refresh keep key now routes k.1,
  )

  pub All-get :
      (key : RouteKey) (i : ℕ) (routes : List ConversationHandle)
      → All P routes
      → get key routes ≡ some i
      → (h : ConversationHandle) × (h.key ≡ key) × (h.worker ≡ i) × P h
  unfolding get
  All-get key i [] k e = absurd (cc)
  All-get key i (h ∷ routes) k e = elim (Bool-cases (h.key == key)) [
    | inl same ↦ (h, (route_key_eq.eq_iff h.key key).0 same, ground (arith, same), k.0)
    | inr other ↦ All-get key i routes k.1 (ground (arith, other))
  ]

pub Distinct-insert :
    (h : ConversationHandle) (routes : List ConversationHandle)
    → Distinct routes
    → Distinct (insert h routes)
unfolding insert
Distinct-insert h [] k = (tt, tt)
Distinct-insert h (g ∷ routes) k =
    let rest = Distinct-insert h routes k.1 in
    if_intro (List ConversationHandle) Distinct (g.key == h.key) _ _
      (λ same.
        (subst (λ key. Fresh key routes) ((route_key_eq.eq_iff g.key h.key).0 same) k.0, k.1))
      (λ other. (
        All-insert (λ f. f.key ≢ g.key) h routes
            (λ e. absurd (cc ((route_key_eq.eq_iff g.key h.key).1 (sym e), other))) k.0,
        rest,
      ))

pub Distinct-retain :
    (now timeout : ℕ) (routes : List ConversationHandle)
    → Distinct routes
    → Distinct (retain now timeout routes).0
unfolding retain
Distinct-retain now timeout [] k = tt
Distinct-retain now timeout (h ∷ routes) k =
    let rest = Distinct-retain now timeout routes k.1 in
    if_intro (List ConversationHandle × List RouteKey) (λ r. Distinct r.0)
      (ltb timeout (now - h.last_active)) _ _ (λ late. rest)
      (λ early. (All-retain (λ f. f.key ≢ h.key) now timeout routes k.0, rest))

touch-key : (key : RouteKey) (now : ℕ) (h : ConversationHandle) → (touch key now h).key ≡ h.key
touch-key key now h =
    if_intro ConversationHandle (λ f. f.key ≡ h.key) (h.key == key) _ _ (λ same. refl)
      (λ other. refl)

pub Distinct-refresh :
    (key : RouteKey) (now : ℕ) (routes : List ConversationHandle)
    → Distinct routes
    → Distinct (refresh key now routes)
unfolding refresh
Distinct-refresh key now [] k = tt
Distinct-refresh key now (h ∷ routes) k = (
  subst (λ r. Fresh r (refresh key now routes)) (sym (touch-key key now h))
      (All-refresh (λ f. f.key ≢ h.key) (λ f n p. p) key now routes k.0),
  Distinct-refresh key now routes k.1,
)
