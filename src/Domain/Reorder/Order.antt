-- ===== src/Domain/Reorder/Order.antt =====
-- The order in which messages are released.
use magiclaw.Common.{subst, List, [], ◌∷◌, ◌++◌, arith}
use magiclaw.Common.Int.{ℤ, ◌<ℤ◌, ◌≤ℤ◌, max_ℤ, le-max_left, le-max_right}
use magiclaw.Domain.Message.{Message, sort_key}
use magiclaw.Domain.Btree.{
  values, range_to, Above, AtMost, Ascending, range_to-AtMost, range_to-Ascending, insert-Ascending,
  insert-Above, range_to-Above, range_above, range_above-Above, range_above-Above_any,
}
use magiclaw.Domain.Reorder.{ReorderWindow, cutoff, insert}
use magiclaw.Domain.Reorder.Invariant.{Inv, Keyed, insert-Keyed, insert_lem, arrived}

-- All sort keys are above `a`, and rise strictly.
abbrev pub RisingFrom : ℤ → List Message → Type 0
RisingFrom a [] = Unit
RisingFrom a (m ∷ ms) = (a <ℤ sort_key m) × RisingFrom (sort_key m) ms

-- The keys lie above `a`, rise strictly, and end at `b` at most.
abbrev pub RisingBetween : ℤ → ℤ → List Message → Type 0
RisingBetween a b [] = a ≤ℤ b
RisingBetween a b (m ∷ ms) = (a <ℤ sort_key m) × RisingBetween (sort_key m) b ms

RisingFrom-mono : (a b : ℤ) (ms : List Message) → a ≤ℤ b → RisingFrom b ms → RisingFrom a ms
RisingFrom-mono a b [] h r = tt
RisingFrom-mono a b (m ∷ ms) h (p, ps) = (omega arith, ps)

pub Rising-append :
    (a b : ℤ) (ms ns : List Message)
    → RisingBetween a b ms
    → RisingFrom b ns
    → RisingFrom a (ms ++ ns)
Rising-append a b [] ns h k = RisingFrom-mono a b ns h k
Rising-append a b (m ∷ ms) ns (p, ps) k = (p, Rising-append (sort_key m) b ms ns ps k)

values-RisingBetween :
    (a c : ℤ) (b : List (ℤ × Message))
    → a ≤ℤ c
    → Above a b
    → AtMost c b
    → Ascending b
    → Keyed b
    → RisingBetween a c (values b)
values-RisingBetween a c [] l h t r k = l
values-RisingBetween a c ((j, m) ∷ b) l (p, _) (o, os) (q, qs) (e, es) =
    (rw (← e) p, values-RisingBetween (sort_key m) c b (rw (← e) o) (rw (← e) q) os qs es)

range_to-Keyed : (c : ℤ) (b : List (ℤ × Message)) → Keyed b → Keyed (range_to c b)
unfolding range_to
range_to-Keyed c [] h = tt
range_to-Keyed c ((k, v) ∷ b) (p, ps) = ground (arith, range_to-Keyed c b ps)

AtMost-mono : (a b : ℤ) (m : List (ℤ × Message)) → a ≤ℤ b → AtMost a m → AtMost b m
AtMost-mono a b [] h p = tt
AtMost-mono a b ((j, m) ∷ ms) h (p, ps) = (omega arith, AtMost-mono a b ms h ps)

Above-max : (a b : ℤ) (m : List (ℤ × Message)) → Above a m → Above b m → Above (max_ℤ a b) m
unfolding max_ℤ
Above-max a b [] h k = tt
Above-max a b ((j, m) ∷ ms) (p, ps) (q, qs) = (ground arith, Above-max a b ms ps qs)

-- The largest key of a window, or the mark where it is empty.
unfoldable pub highest : ℤ → List (ℤ × Message) → ℤ
highest mark [] = mark
highest mark ((k, m) ∷ b) = highest k b

pub values-highest :
    (a : ℤ) (b : List (ℤ × Message))
    → Above a b
    → Ascending b
    → Keyed b
    → RisingBetween a (highest a b) (values b)
unfolding highest
values-highest a [] h r k = omega arith
values-highest a ((j, m) ∷ b) (p, _) (q, qs) (e, es) = (
  rw (← e) p,
  subst (λ k. RisingBetween k (highest j b) (values b)) e (values-highest j b q qs es),
)

-- A message above the mark releases messages between the mark and the new one, which the cutoff may
-- have raised, and leaves none at the new mark or under it.
pub insert-marked :
    (m : Message) (t mark : ℤ) (w : ReorderWindow)
    → Inv w
    → Above mark w.buffer
    → mark <ℤ sort_key m
    → let (w', ready) = insert m t w in
      RisingBetween mark (max_ℤ mark (cutoff w')) ready × Above (max_ℤ mark (cutoff w')) w'.buffer
unfolding cutoff
insert-marked m t mark w v above h =
    let w' = arrived m t w in
    let b = w'.buffer in
    let c = cutoff w' in
    let rises = insert-Ascending (sort_key m) m w.buffer v.ascending in
    let higher = insert-Above mark (sort_key m) m w.buffer h above in
    rw (insert_lem m t w v) (
      values-RisingBetween mark (max_ℤ mark c) (range_to c b) (le-max_left mark c)
          (range_to-Above mark c b higher)
          (AtMost-mono c (max_ℤ mark c) (range_to c b) (le-max_right mark c) (range_to-AtMost c b))
          (range_to-Ascending c b rises) (range_to-Keyed c b (insert-Keyed m w.buffer v.keyed)),
      Above-max mark c (range_above c b) (range_above-Above_any mark c b higher)
          (range_above-Above c b),
    )
