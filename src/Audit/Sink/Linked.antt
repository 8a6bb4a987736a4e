-- ===== src/Audit/Sink/Linked.antt =====
-- The rows that `record` of src/adapters/sqlite_audit.rs writes, linked by their hashes.
use magiclaw.Common.{
  ◌⊎◌, true, false, ℕ, ◌≡◌, refl, sym, ap, subst, ◌∙◌, Bool, Option, none, some, List, [], ◌∷◌,
  ◌++◌, arith, option_eq, list_eq, nat_eq, inl, inr, Bool-cases,
}
use magiclaw.Common.Int.{ℤ}
use magiclaw.Common.Result.{Result, ok, err}
use magiclaw.Common.Text.{Text}
use magiclaw.Audit.Chain.{
  ChainRow, ChainError, head_mismatch, or_empty, compute_entry_hash, row_hash, verify_from, verify,
}
use magiclaw.Audit.Sink.{
  AuditRow, chain_head, load_row, load, read_head, new_row, record_entry, verify_chain,
}

-- What an agent or a worker has recorded.
pub record Entry : Type 0 where
  pub route_key : Option Text
  pub action : Text
  pub result : Text
  pub id : ℤ
  pub now : ℤ
  pub head_read : Bool
  pub written : Bool

-- The write is refused, or the head before it was read.
abbrev pub HeadRead : Entry → Type 0
HeadRead x = (x.written ≡ false) ⊎ (x.head_read ≡ true)

-- The hash that a stored row's content gives.
abbrev content_hash : (List ℕ → List ℕ) → AuditRow → Text
content_hash sha256 r =
    compute_entry_hash sha256 (or_empty r.prev_hash) (or_empty r.route_key) r.action r.result
      r.created_at

module _ (sha256 : List ℕ → List ℕ) where
  -- Each row holds the hash before it and its own, from `head` on to `last`.
  abbrev pub Linked : Option Text → List AuditRow → Option Text → Type 0
  Linked head [] last = head ≡ last
  Linked head (r ∷ rows) last =
      (r.prev_hash ≡ head)
      × (r.entry_hash ≡ some (content_hash sha256 r))
      × Linked r.entry_hash rows last

  chain_head_lem :
      (head : Option Text) (r : AuditRow) (rows : List AuditRow) (last : Option Text)
      → Linked head (r ∷ rows) last
      → chain_head (r ∷ rows) ≡ last
  unfolding chain_head
  chain_head_lem head r [] last (p, q, e) = e
  chain_head_lem head r (s ∷ rows) last (p, q, h) = chain_head_lem r.entry_hash s rows last h

  chain_head-Linked :
      (rows : List AuditRow) (last : Option Text) → Linked none rows last → chain_head rows ≡ last
  unfolding chain_head
  chain_head-Linked [] last h = h
  chain_head-Linked (r ∷ rows) last h = chain_head_lem none r rows last h

  Linked-append :
      (head : Option Text) (rows : List AuditRow) (last : Option Text) (r : AuditRow)
      → Linked head rows last
      → r.prev_hash ≡ last
      → r.entry_hash ≡ some (content_hash sha256 r)
      → Linked head (rows ++ r ∷ []) r.entry_hash
  Linked-append head [] last r h p q = (p ∙ sym h, q, refl)
  Linked-append head (s ∷ rows) last r (h, k, l) p q =
      (h, k, Linked-append s.entry_hash rows last r l p q)

  unfoldable pub add : Entry → List AuditRow → List AuditRow
  unfolding record_entry
  add x log = record_entry sha256 x.route_key x.action x.result x.id x.now x.head_read x.written log

  abbrev pub row_of : Entry → Option Text → AuditRow
  unfolding new_row
  row_of x head = new_row sha256 x.route_key x.action x.result x.id x.now head

  add-written :
      (x : Entry) (log : List AuditRow)
      → x.written ≡ true
      → x.head_read ≡ true
      → add x log ≡ log ++ row_of x (chain_head log) ∷ []
  unfolding add record_entry read_head row_of
  add-written x log w r = rw (w, r) refl

  pub add-some :
      (x : Entry) (log : List AuditRow)
      → x.written ≡ true
      → add x log ≡ log ++ row_of x (read_head x.head_read log) ∷ []
  unfolding add record_entry row_of
  add-some x log w = rw w refl

  pub add-unread :
      (x : Entry) (log : List AuditRow)
      → x.written ≡ true
      → x.head_read ≡ false
      → add x log ≡ log ++ row_of x none ∷ []
  unfolding add record_entry read_head row_of
  add-unread x log w r = rw (w, r) refl

  pub add-refused : (x : Entry) (log : List AuditRow) → x.written ≡ false → add x log ≡ log
  unfolding add record_entry
  add-refused x log w = rw w refl

  abbrev pub Whole : List AuditRow → Type 0
  Whole log = Linked none log (chain_head log)

  Whole-row :
      (x : Entry) (log : List AuditRow) → Whole log → Whole (log ++ row_of x (chain_head log) ∷ [])
  unfolding row_of
  Whole-row x log h =
      let r = row_of x (chain_head log) in
      let l = Linked-append none log (chain_head log) r h refl refl in
      rw (chain_head-Linked (log ++ r ∷ []) r.entry_hash l) l

  -- One more record, written or not, leaves a linked log.
  pub add-Whole : (x : Entry) (log : List AuditRow) → HeadRead x → Whole log → Whole (add x log)
  add-Whole x log read h = elim (Bool-cases x.written) [
    | inr w ↦ rw (add-refused x log w) h
    | inl w ↦ (elim read [
      | inl refused ↦ absurd (cc (w, refused))
      | inr r ↦ rw (add-written x log w r) (Whole-row x log h)
    ])
  ]

  pub loaded : AuditRow → ChainRow
  loaded r = record {
    id = r.id;
    prev_hash = r.prev_hash;
    entry_hash = content_hash sha256 r;
    route_key = r.route_key;
    action = r.action;
    result = r.result;
    created_at = r.created_at;
  }

  load_row_lem :
      (e : Text) (r : AuditRow)
      → r.entry_hash ≡ some (content_hash sha256 r)
      → load_row e r ≡ ok (loaded r)
  unfolding load_row loaded
  load_row_lem e r q = rw (q, load_row)

  row_hash-loaded : (r : AuditRow) → row_hash sha256 (loaded r) ≡ (loaded r).entry_hash
  unfolding row_hash loaded
  row_hash-loaded r = refl

  verify_from_cons :
      (head : Option Text) (r : ChainRow) (rows : List ChainRow)
      (t : Result (Option Text) ChainError)
      → r.prev_hash ≡ head
      → row_hash sha256 r ≡ r.entry_hash
      → verify_from sha256 (some (row_hash sha256 r)) rows ≡ t
      → verify_from sha256 head (r ∷ rows) ≡ t
  unfolding verify_from
  verify_from_cons head r rows t p q h = ground (
    arith,
    (option_eq {A = Text}).eq_iff r.prev_hash head,
    (list_eq {A = ℕ}).eq_iff (row_hash sha256 r) r.entry_hash,
  )

  -- A linked part of the log is read through to its last hash.
  pub load-Linked :
      (e : Text) (head : Option Text) (log post : List AuditRow) (last : Option Text)
      (post_rows : List ChainRow)
      → Linked head log last
      → load e post ≡ ok post_rows
      → (rows : List ChainRow) × (load e (log ++ post) ≡ ok rows)
        × (verify_from sha256 head rows ≡ verify_from sha256 last post_rows)
  unfolding load verify_from loaded
  load-Linked e head [] post last post_rows h l =
      (post_rows, l, ap (λ k. verify_from sha256 k post_rows) h)
  load-Linked e head (r ∷ log) post last post_rows (p, q, h) l =
      let (rows, k, v) = load-Linked e r.entry_hash log post last post_rows h l in
      (
        loaded r ∷ rows,
        rw (load_row_lem e r q, k),
        verify_from_cons head (loaded r) rows (verify_from sha256 last post_rows) p
            (row_hash-loaded r)
            (rw (row_hash-loaded r)
              (subst (λ h. verify_from sha256 h rows ≡ verify_from sha256 last post_rows) q v)),
      )

  load-cons :
      (e : Text) (r : AuditRow) (c : ChainRow) (more : List AuditRow) (rows : List ChainRow)
      → load_row e r ≡ ok c
      → load e more ≡ ok rows
      → load e (r ∷ more) ≡ ok (c ∷ rows)
  unfolding load
  load-cons e r c more rows k l = rw (k, l) refl

  pub load-row_of :
      (e : Text) (x : Entry) (head : Option Text) (more : List AuditRow) (rows : List ChainRow)
      → load e more ≡ ok rows
      → load e (row_of x head ∷ more) ≡ ok (loaded (row_of x head) ∷ rows)
  unfolding row_of
  load-row_of e x head more rows l =
      load-cons e (row_of x head) _ more rows (load_row_lem e (row_of x head) refl) l

  pub verify_chain_lem :
      (e : Text) (log : List AuditRow) (rows : List ChainRow)
      → load e log ≡ ok rows
      → verify_chain sha256 e log ≡ verify_from sha256 none rows
  unfolding verify_chain verify
  verify_chain_lem e log rows l = rw (l, verify_chain) refl

  pub verify_from_broken :
      (x : Entry) (head : Text) (rows : List ChainRow)
      → verify_from sha256 (some head) (loaded (row_of x none) ∷ rows)
        ≡ err (head_mismatch x.id (some head) none)
  unfolding verify_from loaded row_of
  verify_from_broken x head rows = ground arith

  pub empty-Whole : Whole []
  unfolding chain_head
  empty-Whole = refl
