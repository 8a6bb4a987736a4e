-- ===== src/Routing/Routes/Branches.antt =====
-- What the operations of src/adapters/conversation_store.rs compute to on each branch.
use magiclaw.Common.{
  refl, ◌∙◌, ◌⊎◌, inl, inr, true, false, List, [], ◌∷◌, any, ◌==◌, nat_eq, Option-cases, Bool-cases,
  ℕ, ◌≡◌, none, some, arith, length, get_elem?,
}
use magiclaw.Common.Int.{ℤ}
use magiclaw.Domain.Message.{Message, RouteKey}
use magiclaw.Routing.Channel.{Mpsc, Laws, Sent, disconnected, got, nothing, recv_cases}
use magiclaw.Routing.Routes.{
  ConversationStore, Worker, get, update_at, open_route, get_or_create_tx, try_send, on_sent,
  enqueue, receive, on_received, set_channel, exit, on_closed, ended,
}

module _ {C : Type 0} (mpsc : Mpsc C Message) where
  pub try_send-missing :
      (i : ℕ) (msg : Message) (s : ConversationStore C)
      → get_elem? s.workers i ≡ none
      → try_send mpsc i msg s ≡ (disconnected, s)
  unfolding try_send
  try_send-missing i msg s e = ground (arith, e)

  pub try_send-found :
      (i : ℕ) (msg : Message) (s : ConversationStore C) (w : Worker C) (r : Sent) (c : C)
      → get_elem? s.workers i ≡ some w
      → mpsc.try_send msg w.channel ≡ (r, c)
      → try_send mpsc i msg s
        ≡ (r, record s { workers = update_at i (set_channel mpsc c) s.workers })
  unfolding try_send
  try_send-found i msg s w r c e f = ground (arith, e, f)

  pub receive-missing :
      (i now : ℕ) (t : ℤ) (s : ConversationStore C)
      → get_elem? s.workers i ≡ none
      → receive mpsc i now t s ≡ s
  unfolding receive
  receive-missing i now t s e = ground (arith, e)

  pub receive-found :
      (i now : ℕ) (t : ℤ) (s : ConversationStore C) (w : Worker C)
      → get_elem? s.workers i ≡ some w
      → receive mpsc i now t s ≡ on_received mpsc i now t (mpsc.recv w.channel) s
  unfolding receive
  receive-found i now t s w e = ground (arith, e)

  pub enqueue-missing :
      (key : RouteKey) (msg : Message) (now : ℕ) (s : ConversationStore C)
      → get key s.routes ≡ none
      → enqueue mpsc key msg now s
        ≡ on_sent mpsc key msg now
            (try_send mpsc (length s.workers) msg (open_route mpsc key now s))
  unfolding enqueue get_or_create_tx
  enqueue-missing key msg now s e = ground (arith, e)

  pub enqueue-found :
      (key : RouteKey) (msg : Message) (now i : ℕ) (s : ConversationStore C)
      → get key s.routes ≡ some i
      → enqueue mpsc key msg now s ≡ on_sent mpsc key msg now (try_send mpsc i msg s)
  unfolding enqueue get_or_create_tx
  enqueue-found key msg now i s e = ground (arith, e)

  -- A worker that ends has no route, nothing is left of its turn and nothing waits for it.
  abbrev pub Ends : ℕ → ConversationStore C → Worker C → Type 0
  Ends i s w =
      (get_elem? s.workers i ≡ some w)
      × (any (λ h. h.worker == i) s.routes ≡ false)
      × (w.in_turn ≡ [])
      × (mpsc.buffered w.channel ≡ [])

  exit-missing :
      (i : ℕ) (s : ConversationStore C) → get_elem? s.workers i ≡ none → exit mpsc i s ≡ s
  unfolding exit
  exit-missing i s e = ground (arith, e)

  module _ (i : ℕ) (s : ConversationStore C) (w : Worker C)
      (found : get_elem? s.workers i ≡ some w) where
    exit-served : any (λ h. h.worker == i) s.routes ≡ true → exit mpsc i s ≡ s
    unfolding exit
    exit-served k = ground (arith, found, k)

    exit-found :
        any (λ h. h.worker == i) s.routes ≡ false
        → exit mpsc i s ≡ on_closed mpsc i w.in_turn (mpsc.recv w.channel) s
    unfolding exit
    exit-found k = ground (arith, found, k)

  -- A worker ends, or nothing happens.
  pub exit_cases :
      Laws mpsc
      → (i : ℕ) (s : ConversationStore C)
      → (exit mpsc i s ≡ s)
        ⊎ ((w : Worker C) × Ends i s w
            × (exit mpsc i s ≡ record s { workers = update_at i (ended mpsc) s.workers }))
  exit_cases laws i s = elim (Option-cases (get_elem? s.workers i)) [
    | inl missing ↦ inl (exit-missing i s missing)
    | inr (w, found) ↦ (elim (Bool-cases (any (λ h. h.worker == i) s.routes)) [
      | inl k ↦ inl (exit-served i s w found k)
      | inr k ↦ closed w found k w.in_turn refl
    ])
  ]
    where
      closed :
          (w : Worker C)
          → get_elem? s.workers i ≡ some w
          → any (λ h. h.worker == i) s.routes ≡ false
          → (ms : List Message) → w.in_turn ≡ ms
          → (exit mpsc i s ≡ s)
            ⊎ ((v : Worker C) × Ends i s v
                × (exit mpsc i s ≡ record s { workers = update_at i (ended mpsc) s.workers }))
      closed w found k [] idle = elim (recv_cases mpsc laws w.channel) [
        | got m c e before same ↦ inl (exit-found i s w found k ∙ rw (idle, e) refl)
        | nothing e empty ↦
            inr (w, (found, k, idle, empty), exit-found i s w found k ∙ rw (idle, e) refl)
      ]
      closed w found k (m ∷ ms) busy = inl (exit-found i s w found k ∙ rw busy refl)
