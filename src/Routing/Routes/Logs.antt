-- ===== src/Routing/Routes/Logs.antt =====
-- The queues of src/adapters/conversation_store.rs as logs: for each worker its key, and the messages
-- that it has received or that wait for it, in their order.
use magiclaw.Common.{
  ℕ, zero, suc, ◌≡◌, refl, sym, ap, ◌∙◌, subst, none, some, List, [], ◌∷◌, ◌++◌, map, arith, length,
  get_elem?, ◌⊎◌, inl, inr,
}
use mathlib.Core.List.{append_assoc, append-nil, Perm, perm_middle}
use mathlib.Core.List.Perm
use magiclaw.Common.Int.{ℤ}
use magiclaw.Domain.Btree
use magiclaw.Domain.Btree.{values}
use magiclaw.Domain.Reorder.{flush_all, insert}
use magiclaw.Domain.Reorder.Invariant.{Inv as WindowInv}
use magiclaw.Domain.Reorder.Delivery.{insert-perm_values}
use magiclaw.Domain.Conversation.{worker_turn, drain, ingest, touch}
use magiclaw.Domain.Message.{Message, RouteKey, sort_key}
use magiclaw.Routing.Channel.{Mpsc, Laws}
use magiclaw.Routing.Routes.{
  ConversationStore, Worker, update_at, ended, took, flushed_worker, passed_on,
}

abbrev pub Log : Type 0
Log = RouteKey × List Message

-- One log of the key is longer by the message, or a new log of the key holds just the message.
abbrev pub Appended : RouteKey → Message → List Log → List Log → Type 0
Appended key m [] ls = ls ≡ (key, m ∷ []) ∷ []
Appended key m (l ∷ logs) [] = zero ≡ suc zero
Appended key m (l ∷ logs) (k ∷ ls) =
    ((l.0 ≡ key) × (k ≡ (key, l.1 ++ m ∷ [])) × (ls ≡ logs)) ⊎ ((k ≡ l) × Appended key m logs ls)

pub update_at-length :
    {A : Type 0} (f : A → A) (xs : List A) (x : A)
    → update_at (length xs) f (xs ++ x ∷ []) ≡ xs ++ f x ∷ []
unfolding update_at
update_at-length f [] x = refl
update_at-length f (y ∷ xs) x = ap (λ ys. y ∷ ys) (update_at-length f xs x)

module _ {C : Type 0} (mpsc : Mpsc C Message) where
  abbrev pub log : Worker C → Log
  log w = (w.key, w.received ++ mpsc.buffered w.channel)

  abbrev pub logs : ConversationStore C → List Log
  logs s = map log s.workers

  pub logs-update_at :
      (i : ℕ) (f : Worker C → Worker C) (ws : List (Worker C)) (w : Worker C)
      → get_elem? ws i ≡ some w
      → log (f w) ≡ log w
      → map log (update_at i f ws) ≡ map log ws
  unfolding update_at
  logs-update_at i f [] w e h = refl
  logs-update_at zero f (v ∷ ws) w e h = ground (arith, e, h)
  logs-update_at (suc i) f (v ∷ ws) w e h = ap (λ ls. log v ∷ ls) (logs-update_at i f ws w e h)

  pub Appended-update_at :
      (key : RouteKey) (m : Message) (i : ℕ) (f : Worker C → Worker C) (ws : List (Worker C))
      (w : Worker C)
      → get_elem? ws i ≡ some w
      → w.key ≡ key
      → log (f w) ≡ (key, (log w).1 ++ m ∷ [])
      → Appended key m (map log ws) (map log (update_at i f ws))
  unfolding update_at
  Appended-update_at key m i f [] w e k h = absurd (cc)
  Appended-update_at key m zero f (v ∷ ws) w e k h = inl (cc, cc, refl)
  Appended-update_at key m (suc i) f (v ∷ ws) w e k h =
      inr (refl, Appended-update_at key m i f ws w e k h)

  pub Appended-end :
      (key : RouteKey) (m : Message) (ws : List (Worker C)) (w : Worker C)
      → log w ≡ (key, m ∷ [])
      → Appended key m (map log ws) (map log (ws ++ w ∷ []))
  Appended-end key m [] w h = cc
  Appended-end key m (v ∷ ws) w h = inr (refl, Appended-end key m ws w h)

  -- What worker i had received and what had gone through the pipeline stays; the rest of its turn,
  -- its window and its queue are empty; and every other worker is as it was.
  abbrev pub Ended : ℕ → List (Worker C) → List (Worker C) → Type 0
  Ended i [] vs = vs ≡ []
  Ended i (w ∷ ws) [] = zero ≡ suc zero
  Ended zero (w ∷ ws) (v ∷ vs) =
      (v.key ≡ w.key)
      × (v.received ≡ w.received)
      × (v.handed_on ≡ w.handed_on)
      × (v.in_turn ≡ [])
      × (v.conversation.reorder_window.buffer ≡ [])
      × (mpsc.buffered v.channel ≡ [])
      × (vs ≡ ws)
  Ended (suc i) (w ∷ ws) (v ∷ vs) = (v ≡ w) × Ended i ws vs

  pub Ended-update_at :
      (laws : Laws mpsc) (i : ℕ) (ws : List (Worker C)) → Ended i ws (update_at i (ended mpsc) ws)
  unfolding update_at drain flush_all
  Ended-update_at laws i [] = refl
  Ended-update_at laws zero (w ∷ ws) =
      (refl, refl, refl, refl, refl, laws.buffered_close w.channel, refl)
  Ended-update_at laws (suc i) (w ∷ ws) = (refl, Ended-update_at laws i ws)

  -- The messages that have gone through the pipeline, those of the turn, and those in the window.
  abbrev pub account : Worker C → List Message
  account w = w.handed_on ++ (w.in_turn ++ values w.conversation.reorder_window.buffer)

  -- An update that keeps what is made of each worker.
  pub map-update_at :
      {A : Type 0} (g : Worker C → A) (i : ℕ) (f : Worker C → Worker C) (ws : List (Worker C))
      → ((w : Worker C) → g (f w) ≡ g w)
      → map g (update_at i f ws) ≡ map g ws
  unfolding update_at
  map-update_at g i f [] h = refl
  map-update_at g zero f (w ∷ ws) h = ap (λ x. x ∷ map g ws) (h w)
  map-update_at g (suc i) f (w ∷ ws) h = ap (λ xs. g w ∷ xs) (map-update_at g i f ws h)

  pub account-flushed_worker : (w : Worker C) → account (flushed_worker w) ≡ account w
  unfolding worker_turn drain flush_all
  account-flushed_worker w =
      let b = values w.conversation.reorder_window.buffer in
      ap (λ ms. w.handed_on ++ ms) (append-nil (w.in_turn ++ b))

  pub account-passed_on :
      (ms : List Message) (w : Worker C) → w.in_turn ≡ ms → account (passed_on ms w) ≡ account w
  account-passed_on [] w e = refl
  account-passed_on (m ∷ ms) w e =
      let b = values w.conversation.reorder_window.buffer in
      append_assoc w.handed_on (m ∷ []) (ms ++ b) ∙ ap (λ turn. w.handed_on ++ (turn ++ b)) (sym e)

  pub log-passed_on : (ms : List Message) (w : Worker C) → log (passed_on ms w) ≡ log w
  log-passed_on [] w = refl
  log-passed_on (m ∷ ms) w = refl

  -- What worker w is to become by taking m: it has one more message received, and the messages that
  -- it accounts for are m and those before, less one that its window held under the same sort key.
  abbrev pub Taken : Message → Worker C → Worker C → Type 0
  Taken m w v =
      (v.received ≡ w.received ++ m ∷ [])
      × Perm (account v) (
          m
          ∷ (w.handed_on
              ++ (w.in_turn
                  ++ values (Btree.remove (sort_key m) w.conversation.reorder_window.buffer))))

  -- Worker i takes the message that has waited longest, if one waits; no other worker changes.
  abbrev pub Took : ℕ → List (Worker C) → List (Worker C) → Type 0
  Took i [] vs = vs ≡ []
  Took i (w ∷ ws) [] = zero ≡ suc zero
  Took zero (w ∷ ws) (v ∷ vs) =
      (((v ≡ w) × (mpsc.buffered w.channel ≡ []))
        ⊎ ((m : Message) × (mpsc.buffered w.channel ≡ m ∷ mpsc.buffered v.channel) × Taken m w v))
      × (vs ≡ ws)
  Took (suc i) (w ∷ ws) (v ∷ vs) = (v ≡ w) × Took i ws vs

  pub Took-missing : (i : ℕ) (ws : List (Worker C)) → get_elem? ws i ≡ none → Took i ws ws
  Took-missing i [] e = refl
  Took-missing zero (w ∷ ws) e = absurd (cc e)
  Took-missing (suc i) (w ∷ ws) e = (refl, Took-missing i ws e)

  pub Took-nothing :
      (i : ℕ) (ws : List (Worker C)) (w : Worker C)
      → get_elem? ws i ≡ some w
      → mpsc.buffered w.channel ≡ []
      → Took i ws ws
  Took-nothing i [] w e h = refl
  Took-nothing zero (v ∷ ws) w e h =
      let same : v ≡ w = cc e in (inl (refl, ap (λ u. mpsc.buffered u.channel) same ∙ h), refl)
  Took-nothing (suc i) (v ∷ ws) w e h = (refl, Took-nothing i ws w e h)

  pub Took-update_at :
      (m : Message) (i : ℕ) (f : Worker C → Worker C) (ws : List (Worker C)) (w : Worker C)
      → get_elem? ws i ≡ some w
      → mpsc.buffered w.channel ≡ m ∷ mpsc.buffered (f w).channel
      → Taken m w (f w)
      → Took i ws (update_at i f ws)
  unfolding update_at
  Took-update_at m i f [] w e h t = refl
  Took-update_at m zero f (v ∷ ws) w e h t =
      let same : w ≡ v = cc e in
      (
        inr (
          m,
          subst (λ u. mpsc.buffered u.channel ≡ m ∷ mpsc.buffered (f u).channel) same h,
          subst (λ u. Taken m u (f u)) same t,
        ),
        refl,
      )
  Took-update_at m (suc i) f (v ∷ ws) w e h t = (refl, Took-update_at m i f ws w e h t)

  pub Taken-took :
      (m : Message) (now : ℕ) (t : ℤ) (c : C) (w : Worker C)
      → WindowInv w.conversation.reorder_window
      → Taken m w (took mpsc now t m c w)
  unfolding worker_turn ingest touch
  Taken-took m now t c w v =
      let window = w.conversation.reorder_window in
      let (kept, ready) = insert m t window in
      let rest = values (Btree.remove (sort_key m) window.buffer) in
      (
        refl,
        rw (append_assoc w.in_turn ready (values kept.buffer)) (
            Perm.trans
              (Perm.append_left w.handed_on (
                Perm.trans (Perm.append_left w.in_turn (insert-perm_values m t window v))
                  (perm_middle w.in_turn rest)))
              (perm_middle w.handed_on (w.in_turn ++ rest))),
      )
