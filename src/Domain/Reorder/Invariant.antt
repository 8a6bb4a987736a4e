-- ===== src/Domain/Reorder/Invariant.antt =====
-- What holds of a reorder window between two calls, and what one arrival does to it.
use magiclaw.Common.{ℕ, ◌≡◌, refl, sym, ap, ◌∙◌, List, [], ◌∷◌, arith, inl, inr, Bool-cases}
use magiclaw.Common.Int.{
  ℤ, int_eq, max_ℤ, ◌≤ℤ◌, leb_ℤ, le-max_left, saturating_sub_mono, u64_as_i64,
}
use magiclaw.Domain.Message.{Message, sort_key}
use magiclaw.Domain.Btree
use magiclaw.Domain.Btree.{
  values, range_to, range_above, Ascending, Above, range_to-eq-nil, insert-Ascending,
  range_above-Ascending, range_above-Above,
}
use magiclaw.Domain.Reorder.{ReorderWindow, new, cutoff, insert, remove_all}

-- Each message stands under its own sort key.
abbrev pub Keyed : List (ℤ × Message) → Type 0
Keyed [] = Unit
Keyed ((k, m) ∷ b) = (k ≡ sort_key m) × Keyed b

-- The buffer rises strictly, by the messages' own keys, and holds nothing that is due.
pub record Inv (w : ReorderWindow) : Type 0 where
  pub ascending : Ascending w.buffer
  pub keyed : Keyed w.buffer
  pub held : Above (cutoff w) w.buffer

pub new-Inv : (window_ms : ℕ) → Inv (new window_ms)
unfolding new
new-Inv window_ms = record { ascending = tt; keyed = tt; held = tt }

pub insert-Keyed :
    (m : Message) (b : List (ℤ × Message)) → Keyed b → Keyed (Btree.insert (sort_key m) m b)
unfolding Btree.insert
insert-Keyed m [] h = (refl, tt)
insert-Keyed m ((k, v) ∷ b) (p, ps) = ground (arith, insert-Keyed m b ps)

range_above-Keyed : (c : ℤ) (b : List (ℤ × Message)) → Keyed b → Keyed (range_above c b)
unfolding range_above
range_above-Keyed c [] h = tt
range_above-Keyed c ((k, v) ∷ b) (p, ps) = ground (arith, range_above-Keyed c b ps)

remove_self :
    (k : ℤ) (m : Message) (b : List (ℤ × Message))
    → k ≡ sort_key m
    → Btree.remove (sort_key m) ((k, m) ∷ b) ≡ b
unfolding Btree.remove
remove_self k m b e = rw ((int_eq.eq_iff (sort_key m) k).1 (sym e))

-- Removing what is due, message by message, leaves what is not due.
remove_all-range :
    (c : ℤ) (b : List (ℤ × Message))
    → Ascending b
    → Keyed b
    → remove_all (values (range_to c b)) b ≡ range_above c b
unfolding remove_all range_to range_above
remove_all-range c [] h k = refl
remove_all-range c ((j, m) ∷ b) (p, ps) (q, qs) = elim (Bool-cases (leb_ℤ j c)) [
  | inl e ↦
      rw e
        (ap (remove_all (values (range_to c b))) (remove_self j m b q) ∙ remove_all-range c b ps qs)
  | inr e ↦ rw e (let (due, rest) = range_to-eq-nil c j b (ground arith) p in rw (due, rest))
]

-- The window after an arrival, before what is due is taken out.
abbrev pub arrived : Message → ℤ → ReorderWindow → ReorderWindow
arrived m t w = record w {
  buffer = Btree.insert (sort_key m) m w.buffer;
  latest_arrival_ms = max_ℤ w.latest_arrival_ms t;
}

-- An arrival releases what is due, in order, and keeps the rest.
pub insert_lem :
    (m : Message) (t : ℤ) (w : ReorderWindow)
    → Inv w
    → let w' = arrived m t w in
      insert m t w ≡ (
        record w' { buffer = range_above (cutoff w') w'.buffer },
        values (range_to (cutoff w') w'.buffer),
      )
unfolding insert
insert_lem m t w v =
    let w' = arrived m t w in
    ap (λ b. (record w' { buffer = b }, values (range_to (cutoff w') w'.buffer)))
      (remove_all-range (cutoff w') w'.buffer (insert-Ascending (sort_key m) m w.buffer v.ascending)
        (insert-Keyed m w.buffer v.keyed))

-- Every arrival keeps the invariant.
pub insert-Inv : (m : Message) (t : ℤ) (w : ReorderWindow) → Inv w → Inv (insert m t w).0
unfolding cutoff
insert-Inv m t w v =
    let w' = arrived m t w in
    rw (insert_lem m t w v) (record {
      ascending =
          range_above-Ascending (cutoff w') w'.buffer
            (insert-Ascending (sort_key m) m w.buffer v.ascending);
      keyed = range_above-Keyed (cutoff w') w'.buffer (insert-Keyed m w.buffer v.keyed);
      held = range_above-Above (cutoff w') w'.buffer;
    })

-- The cutoff never falls.
pub cutoff-insert : (m : Message) (t : ℤ) (w : ReorderWindow) → cutoff w ≤ℤ cutoff (insert m t w).0
unfolding cutoff insert
cutoff-insert m t w =
    saturating_sub_mono w.latest_arrival_ms (max_ℤ w.latest_arrival_ms t) (u64_as_i64 w.window_ms)
      (le-max_left w.latest_arrival_ms t)
