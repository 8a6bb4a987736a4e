-- ===== src/Routing/Inbound/Once.antt =====
-- The task `inbound_router` of src/infrastructure/runtime.rs routes a message id at most once.
use magiclaw.Common.{◌≡◌, ◌≢◌, refl, ◌⊎◌, inl, inr, true, false, List, [], ◌∷◌}
use magiclaw.Common.Result.{Result, ok, err}
use magiclaw.Common.Text.{Text}
use magiclaw.Domain.Message.{Message}
use magiclaw.Inbox.Processor.{InboxWorld, InboxResult, done, duplicate, contains, process_inbound}
use magiclaw.Inbox.Processor.Once.{Outcome, Outcome-done, process_inbound-once}
use magiclaw.Inbox.Processor.Kept.{contains-process_inbound}
use magiclaw.Routing.Channel.{Mpsc}
use magiclaw.Routing.Dispatch.{Cache}
use magiclaw.Routing.Inbound.{Arrival, Router, route_stored, inbound, inbound_router}

module _ {C K : Type 0} (mpsc : Mpsc C Message) (cache : Cache K) where
  abbrev pub Seen : Text → Router C K → Type 0
  Seen id r = contains id r.inbox.rows ≡ true

  route_stored-inbox :
      (a : Arrival) (r : Router C K) (q : Result InboxResult Text × InboxWorld)
      → (route_stored mpsc cache a r q).inbox ≡ q.1
  unfolding route_stored
  route_stored-inbox a r (ok duplicate, w) = refl
  route_stored-inbox a r (ok done, w) = refl
  route_stored-inbox a r (err e, w) = refl

  inbound-inbox :
      (a : Arrival) (r : Router C K)
      → (inbound mpsc cache a r).inbox ≡ (process_inbound a.stored_at a.message a.payload r.inbox).1
  unfolding inbound
  inbound-inbox a r = route_stored-inbox a r _

  Seen-inbound :
      (id : Text) (a : Arrival) (r : Router C K) → Seen id r → Seen id (inbound mpsc cache a r)
  Seen-inbound id a r h =
      rw (inbound-inbox a r) (contains-process_inbound id a.stored_at a.message a.payload r.inbox h)

  Seen-inbound_router :
      (id : Text) (arrivals : List Arrival) (r : Router C K)
      → Seen id r
      → Seen id (inbound_router mpsc cache arrivals r)
  unfolding inbound_router
  Seen-inbound_router id [] r h = h
  Seen-inbound_router id (a ∷ arrivals) r h =
      Seen-inbound_router id arrivals (inbound mpsc cache a r) (Seen-inbound id a r h)

  -- An arrival changes no route, or its id had no row and has one after it.
  Stored : Arrival → Router C K → Router C K → Type 0
  Stored a r r' =
      ((r'.store ≡ r.store) × (r'.dedup ≡ r.dedup))
      ⊎ ((contains a.message.id r.inbox.rows ≡ false) × Seen a.message.id r')

  route_stored-Stored :
      (a : Arrival) (r : Router C K) (q : Result InboxResult Text × InboxWorld)
      → Outcome a.message.id r.inbox q
      → Stored a r (route_stored mpsc cache a r q)
  unfolding route_stored Stored
  route_stored-Stored a r (ok duplicate, w) h = inl (refl, refl)
  route_stored-Stored a r (err e, w) h = inl (refl, refl)
  route_stored-Stored a r (ok done, w) h = inr (Outcome-done a.message.id r.inbox w h)

  inbound-Stored : (a : Arrival) (r : Router C K) → Stored a r (inbound mpsc cache a r)
  unfolding inbound
  inbound-Stored a r =
      route_stored-Stored a r _ (process_inbound-once a.stored_at a.message a.payload r.inbox)

  -- Where an arrival changed the table of routes or the deduplication cache, every later arrival
  -- with the same message id changes neither, whichever messages arrive in between, wherever the
  -- inbox fails, and whatever the cache holds.
  pub inbound_router-once :
      (a : Arrival) (arrivals : List Arrival) (b : Arrival) (r : Router C K)
      → b.message.id ≡ a.message.id
      → (inbound mpsc cache a r).dedup ≢ r.dedup ⊎ (inbound mpsc cache a r).store ≢ r.store
      → let t = inbound_router mpsc cache arrivals (inbound mpsc cache a r) in
        ((inbound mpsc cache b t).store ≡ t.store) × ((inbound mpsc cache b t).dedup ≡ t.dedup)
  unfolding Stored
  inbound_router-once a arrivals b r same changed =
      let s = inbound mpsc cache a r in
      let t = inbound_router mpsc cache arrivals s in
      elim (inbound-Stored a r) [
        | inl (store_kept, dedup_kept) ↦
            absurd (elim changed [ inl d ↦ d dedup_kept | inr d ↦ d store_kept ])
        | inr (fresh, seen) ↦ elim (inbound-Stored b t) [
          | inl kept ↦ kept
          | inr (new, after) ↦
              absurd (cc (new, same, Seen-inbound_router a.message.id arrivals s seen))
        ]
      ]
