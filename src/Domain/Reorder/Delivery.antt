-- ===== src/Domain/Reorder/Delivery.antt =====
-- What becomes of each message that arrives.
use magiclaw.Common.{
  ◌≡◌, ◌≢◌, refl, ap, subst, subst₂, List, [], ◌∷◌, ◌++◌, map, arith, All, ◌⊎◌, inl, inr, ◌==◌,
  Bool-cases,
}
use mathlib.Core.List.{Perm, perm_append_comm, map-append, append_assoc}
use mathlib.Core.List.Perm
use magiclaw.Common.Int.{ℤ, int_eq}
use magiclaw.Domain.Message.{Message, sort_key}
use magiclaw.Domain.Btree
use magiclaw.Domain.Btree.{
  values, range_to, range_above, HasKey, range_perm, insert-perm-remove, insert-perm,
}
use magiclaw.Domain.Reorder.{ReorderWindow, cutoff, insert}
use magiclaw.Domain.Reorder.Invariant.{Inv, insert_lem, arrived}

-- One arrival neither loses nor repeats a message, except that a buffered message of the same sort
-- key is dropped: what is released and what stays are together, as often, the new message and the
-- buffered ones of other keys.
pub insert-perm_values :
    (m : Message) (t : ℤ) (w : ReorderWindow)
    → Inv w
    → let (w', ready) = insert m t w in
      Perm (ready ++ values w'.buffer) (m ∷ values (Btree.remove (sort_key m) w.buffer))
insert-perm_values m t w v =
    let w' = arrived m t w in
    let split = Perm.map (λ (e : ℤ × Message). e.1) (range_perm (cutoff w') w'.buffer) in
    let joined =
      Perm.map (λ (e : ℤ × Message). e.1)
        (insert-perm-remove (sort_key m) m w.buffer v.ascending) in
    rw (insert_lem m t w v) (
      Perm.trans
        (rw
          (← map-append (λ (e : ℤ × Message). e.1) (range_to (cutoff w') w'.buffer)
            (range_above (cutoff w') w'.buffer))
          (Perm.symm split))
        joined)

remove_fresh : (k : ℤ) (b : List (ℤ × Message)) → ¬ HasKey k b → Btree.remove k b ≡ b
unfolding Btree.remove
remove_fresh k [] h = refl
remove_fresh k ((j, m) ∷ b) h = elim (Bool-cases (k == j)) [
  | inl e ↦ absurd (h (inl ((int_eq.eq_iff k j).0 e)))
  | inr e ↦ rw (e, Btree.remove) (ap (λ r. (j, m) ∷ r) (remove_fresh k b (λ x. h (inr x))))
]

-- Each key arrives once, and none is buffered already.
abbrev pub Distinct : List (Message × ℤ) → List (ℤ × Message) → Type 0
Distinct [] b = Unit
Distinct ((m, t) ∷ ms) b =
    ¬ HasKey (sort_key m) b × All (λ x. sort_key x.0 ≢ sort_key m) ms × Distinct ms b

HasKey-range_above : (k c : ℤ) (b : List (ℤ × Message)) → HasKey k (range_above c b) → HasKey k b
unfolding range_above
HasKey-range_above k c [] h = h
HasKey-range_above k c ((j, m) ∷ b) h = ground (arith, HasKey-range_above k c b)

HasKey-insert :
    (k j : ℤ) (m : Message) (b : List (ℤ × Message))
    → HasKey k (Btree.insert j m b)
    → (k ≡ j) ⊎ HasKey k b
unfolding Btree.insert
HasKey-insert k j m [] h = h
HasKey-insert k j m ((i, n) ∷ b) h = ground (arith, HasKey-insert k j m b)

HasKey-kept :
    (k : ℤ) (m : Message) (t : ℤ) (w : ReorderWindow)
    → Inv w
    → HasKey k (insert m t w).0.buffer
    → (k ≡ sort_key m) ⊎ HasKey k w.buffer
HasKey-kept k m t w v h =
    let w' = arrived m t w in
    HasKey-insert k (sort_key m) m w.buffer (
      HasKey-range_above k (cutoff w') w'.buffer
        (subst (λ r. HasKey k r.0.buffer) (insert_lem m t w v) h))

pub Distinct-insert :
    (ms : List (Message × ℤ)) (m : Message) (t : ℤ) (w : ReorderWindow)
    → Inv w
    → All (λ x. sort_key x.0 ≢ sort_key m) ms
    → Distinct ms w.buffer
    → Distinct ms (insert m t w).0.buffer
Distinct-insert [] m t w v a d = tt
Distinct-insert ((n, s) ∷ ms) m t w v (a, as') (h, hs, d) = (
  λ x. (elim (HasKey-kept (sort_key n) m t w v x) [ inl e ↦ a e | inr e ↦ h e ]),
  hs,
  Distinct-insert ms m t w v as' d,
)

abbrev pub messages : List (Message × ℤ) → List Message
messages ms = map (λ x. x.0) ms

pub perm_front : (a b c : List Message) → Perm (a ++ (b ++ c)) (b ++ (a ++ c))
perm_front a b c =
    subst₂ Perm (append_assoc a b c) (append_assoc b a c)
      (Perm.append_right c (perm_append_comm a b))

pub insert-perm_fresh :
    (m : Message) (t : ℤ) (w : ReorderWindow)
    → Inv w
    → ¬ HasKey (sort_key m) w.buffer
    → let (w', ready) = insert m t w in Perm (ready ++ values w'.buffer) (m ∷ values w.buffer)
insert-perm_fresh m t w v h =
    rw (remove_fresh (sort_key m) w.buffer h) at (insert-perm_values m t w v)
