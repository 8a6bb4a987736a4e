-- ===== src/Routing/Channel.antt =====
-- tokio's bounded `mpsc` channel, as src/adapters/conversation_store.rs uses it: an interface with
-- what its documentation states.
use magiclaw.Common.{
  ℕ, ◌≡◌, refl, ◌<◌, ◌≤◌, Bool, true, false, Option, none, some, List, [], ◌∷◌, ◌++◌, length,
  Bool-cases, arith, inl, inr, dec_lt,
}

-- The outcome of `try_send`; `disconnected` is tokio's `Closed`.
pub data Sent : Type 0 where
  accepted full disconnected : Sent

pub record Mpsc (C M : Type 0) : Type 0 where
  pub channel : ℕ → C
  pub try_send : M → C → Sent × C
  pub recv : C → Option M × C
  -- The receiver is dropped.
  pub close : C → C
  pub buffered : C → List M
  pub capacity : C → ℕ
  pub is_open : C → Bool

module _ {C M : Type 0} (mpsc : Mpsc C M) where
  open mpsc use {channel, try_send, recv, close, buffered, capacity, is_open}

  -- A channel that `try_send` or `recv` leaves has the capacity and is open as before.
  abbrev pub Same : C → C → Type 0
  Same c c' = (capacity c' ≡ capacity c) × (is_open c' ≡ is_open c)

  pub record Laws : Type 0 where
    pub buffered_new : (n : ℕ) → buffered (channel n) ≡ []
    pub capacity_new : (n : ℕ) → capacity (channel n) ≡ n
    pub open_new : (n : ℕ) → is_open (channel n) ≡ true
    pub send_closed : (m : M) (c : C) → is_open c ≡ false → try_send m c ≡ (disconnected, c)
    pub send_full :
        (m : M) (c : C)
        → is_open c ≡ true
        → capacity c ≤ length (buffered c)
        → try_send m c ≡ (full, c)
    pub send_accepted :
        (m : M) (c : C)
        → is_open c ≡ true
        → length (buffered c) < capacity c
        → ((try_send m c).0 ≡ accepted)
          × (buffered (try_send m c).1 ≡ buffered c ++ m ∷ [])
          × Same c (try_send m c).1
    pub recv_empty : (c : C) → buffered c ≡ [] → recv c ≡ (none, c)
    pub recv_first :
        (c : C) (m : M) (ms : List M)
        → buffered c ≡ m ∷ ms
        → ((recv c).0 ≡ some m) × (buffered (recv c).1 ≡ ms) × Same c (recv c).1
    pub buffered_close : (c : C) → buffered (close c) ≡ []
    pub capacity_close : (c : C) → capacity (close c) ≡ capacity c

  -- What `try_send` does on a channel, and what `recv` does.
  pub data Sending (m : M) (c : C) : Type 0 where
    sent :
        (c' : C)
        → try_send m c ≡ (accepted, c')
        → buffered c' ≡ buffered c ++ m ∷ []
        → capacity c' ≡ capacity c
        → length (buffered c) < capacity c
        → Sending m c
    not_sent : try_send m c ≡ (full, c) → capacity c ≤ length (buffered c) → Sending m c
    no_receiver : try_send m c ≡ (disconnected, c) → is_open c ≡ false → Sending m c

  pub try_send_cases : Laws → (m : M) (c : C) → Sending m c
  try_send_cases laws m c = elim (Bool-cases (is_open c)) [
    | inr shut ↦ no_receiver (laws.send_closed m c shut) shut
    | inl there ↦ elim (dec_lt (length (buffered c)) (capacity c)) [
      | yes room ↦
          (let (got, after, same) = laws.send_accepted m c there room in
            sent (try_send m c).1 (cc (got)) after same.0 room)
      | no p ↦ not_sent (laws.send_full m c there (omega (arith, p))) (omega (arith, p))
    ]
  ]

  pub data Receiving (c : C) : Type 0 where
    got :
        (m : M) (c' : C)
        → recv c ≡ (some m, c')
        → buffered c ≡ m ∷ buffered c'
        → capacity c' ≡ capacity c
        → Receiving c
    nothing : recv c ≡ (none, c) → buffered c ≡ [] → Receiving c

  pub recv_cases : Laws → (c : C) → Receiving c
  recv_cases laws c = go (buffered c) refl
    where
      go : (ms : List M) → buffered c ≡ ms → Receiving c
      go [] e = nothing (laws.recv_empty c e) e
      go (m ∷ ms) e =
          let (first, rest, same) = laws.recv_first c m ms e in
          got m (recv c).1 (cc first) (cc (e, rest)) same.0
