-- ===== src/Push/Run/Pending.antt =====
-- The pending items of a job of src/application/push.rs, as a run takes them off.
use magiclaw.Common.{
  ℕ, ◌+◌, ◌≡◌, ◌≢◌, refl, sym, Bool, true, false, ◌||◌, Option, List, [], ◌∷◌, All, All-weaken,
  arith, if_intro, ◌==◌, ==_refl, ==_cases, list_eq, nat_eq, any, length, inl, inr,
}
use magiclaw.Common.Text.{Text, text}
use magiclaw.Push.{PushItem}
use magiclaw.Push.Jobs.{update_item, is_pending, select_pending, insert_item, sort_items}

abbrev has_item : Text → List PushItem → Bool
has_item id items = any (λ i. i.item_id == id) items

-- Every pending item of the job is among the items.
abbrev pub Covered : Text → List PushItem → List PushItem → Type 0
Covered job items rows =
    All (λ r. is_pending job r ≡ true → any (λ i. i.item_id == r.item_id) items ≡ true) rows

abbrev mark : Text → Option Text → PushItem → PushItem
mark status error i = record i { status = status; error = error }

Covered-select : (job : Text) (rows : List PushItem) → Covered job (select_pending job rows) rows
unfolding select_pending
Covered-select job [] = tt
Covered-select job (r ∷ rows) = (
  (λ e. ground (arith, e, ==_refl r.item_id)),
  All-weaken (λ q. is_pending job q ≡ true → has_item q.item_id (select_pending job rows) ≡ true) _
      rows (λ q h e. ground (arith, h e)) (Covered-select job rows),
)

has_item-insert :
    (id : Text) (i : PushItem) (items : List PushItem)
    → has_item id (insert_item i items) ≡ (i.item_id == id || has_item id items)
unfolding insert_item
has_item-insert id i [] = refl
has_item-insert id i (j ∷ items) = ground (arith, has_item-insert id i items)

has_item-sort :
    (id : Text) (items : List PushItem) → has_item id (sort_items items) ≡ has_item id items
unfolding sort_items
has_item-sort id [] = refl
has_item-sort id (i ∷ items) =
    ground (arith, has_item-insert id i (sort_items items), has_item-sort id items)

pub Covered-fetched :
    (job : Text) (rows : List PushItem) → Covered job (sort_items (select_pending job rows)) rows
Covered-fetched job rows =
    All-weaken (λ q. is_pending job q ≡ true → has_item q.item_id (select_pending job rows) ≡ true)
      _ rows (λ q h e. rw (has_item-sort q.item_id (select_pending job rows)) (h e))
      (Covered-select job rows)

length-insert_item :
    (i : PushItem) (items : List PushItem) → length (insert_item i items) ≡ length items + 1
unfolding insert_item
length-insert_item i [] = refl
length-insert_item i (j ∷ items) = ground (arith, length-insert_item i items)

pub length-sort_items : (items : List PushItem) → length (sort_items items) ≡ length items
unfolding sort_items
length-sort_items [] = refl
length-sort_items (i ∷ items) =
    omega (arith, length-insert_item i (sort_items items), length-sort_items items)

-- An item that is marked is no longer needed.
pub Covered-marked :
    (job : Text) (item : PushItem) (items rows : List PushItem) (status : Text)
    (error : Option Text)
    → status ≢ text "pending"
    → Covered job (item ∷ items) rows
    → Covered job items
        (update_item item.item_id (λ i. record i { status = status; error = error }) rows)
unfolding update_item
Covered-marked job item items [] status error ne h = tt
Covered-marked job item items (r ∷ rows) status error ne h = (
  if_intro PushItem (λ q. is_pending job q ≡ true → has_item q.item_id items ≡ true)
      (r.item_id == item.item_id) (mark status error r) r
      (λ same e.
        absurd (ne (((list_eq {A = ℕ}).eq_iff status (text "pending")).0 (ground (arith, e)))))
      (λ other e. elim (==_cases item.item_id r.item_id) [
        | inl same ↦
            absurd (cc (((list_eq {A = ℕ}).eq_iff r.item_id item.item_id).1 (sym same), other))
        | inr (apart, f) ↦ ground (arith, f, h.0 e)
      ]),
  Covered-marked job item items rows status error ne h.1,
)

pub none_pending :
    (job : Text) (rows : List PushItem)
    → Covered job [] rows
    → All (λ r. is_pending job r ≡ false) rows
none_pending job [] h = tt
none_pending job (r ∷ rows) h = (ground (arith, h.0), none_pending job rows h.1)
