-- ===== src/Audit/Sink/Growth.antt =====
-- The log that `record` writes is one that `verify_chain` accepts, unless the head could not be read.
use magiclaw.Common.{
  true, false, All, ℕ, ◌≡◌, refl, sym, ap, subst, ◌∙◌, Option, none, some, List, [], ◌∷◌, ◌++◌,
  arith, option_eq, list_eq, nat_eq, inl, inr, Bool-cases,
}
use mathlib.Core.List.{append_assoc, append-nil}
use magiclaw.Common.Int.{ℤ, pos}
use magiclaw.Common.Result.{ok, err}
use magiclaw.Common.Text.{Text}
use magiclaw.Audit.Chain.{ChainRow, head_mismatch, verify_from}
use magiclaw.Audit.Sink.{AuditRow, chain_head, load_row, load, read_head, verify_chain, write_audit}
use magiclaw.Audit.Sink.Linked.{
  Entry, HeadRead, add, row_of, add-some, add-unread, add-refused, Whole, add-Whole, loaded,
  load-row_of, verify_chain_lem, verify_from_broken, load-Linked, empty-Whole,
}

module _ (sha256 : List ℕ → List ℕ) where
  unfoldable pub log_of : List Entry → List AuditRow → List AuditRow
  unfolding add
  log_of [] log = log
  log_of (x ∷ xs) log = log_of xs (add sha256 x log)

  log_of-Whole :
      (xs : List Entry) (log : List AuditRow)
      → All HeadRead xs
      → Whole sha256 log
      → Whole sha256 (log_of xs log)
  unfolding log_of
  log_of-Whole [] log read h = h
  log_of-Whole (x ∷ xs) log (r, read) h =
      log_of-Whole xs (add sha256 x log) read (add-Whole sha256 x log r h)

  -- If the head of the chain was read for each record whose write the database took, `verify_chain`
  -- accepts the log, and its answer is the hash of the last row that was written.
  pub verify_chain-log_of :
      (null_error : Text) (xs : List Entry)
      → All HeadRead xs
      → verify_chain sha256 null_error (log_of xs []) ≡ ok (chain_head (log_of xs []))
  unfolding verify_from load
  verify_chain-log_of null_error xs read =
      let (rows, l, v) =
        load-Linked sha256 null_error none (log_of xs []) [] _ []
          (log_of-Whole xs [] read (empty-Whole sha256)) refl in
      (subst (λ log. verify_chain sha256 null_error log ≡ ok (chain_head (log_of xs [])))
        (append-nil (log_of xs [])) (verify_chain_lem sha256 null_error _ rows l ∙ v))

  -- What is recorded comes behind the rows that are there, and can be read.
  log_of-append :
      (e : Text) (xs : List Entry) (log : List AuditRow)
      → (more : List AuditRow) × (log_of xs log ≡ log ++ more)
        × ((rows : List ChainRow) × (load e more ≡ ok rows))
  unfolding log_of load
  log_of-append e [] log = ([], sym (append-nil log), ([], refl))
  log_of-append e (x ∷ xs) log = elim (Bool-cases x.written) [
    | inr w ↦ rw (add-refused sha256 x log w) (log_of-append e xs log)
    | inl w ↦
        (let r = row_of sha256 x (read_head x.head_read log) in
          let (more, e₁, (rows, l)) = log_of-append e xs (log ++ r ∷ []) in
          rw (add-some sha256 x log w) (
            r ∷ more,
            e₁ ∙ append_assoc log (r ∷ []) more,
            (
              loaded sha256 r ∷ rows,
              load-row_of sha256 e x (read_head x.head_read log) more rows l,
            ),
          ))
  ]

  -- A record that is written although the head could not be read, on a chain that is not empty,
  -- breaks the chain at its row, whatever is recorded afterwards.
  pub verify_chain-unread :
      (null_error : Text) (xs ys : List Entry) (x : Entry) (head : Text)
      → All HeadRead xs
      → chain_head (log_of xs []) ≡ some head
      → x.written ≡ true
      → x.head_read ≡ false
      → verify_chain sha256 null_error (log_of ys (add sha256 x (log_of xs [])))
        ≡ err (head_mismatch x.id (some head) none)
  verify_chain-unread null_error xs ys x head read at w unread =
      let log = log_of xs [] in
      let r = row_of sha256 x none in
      let (more, e₁, (rows, l)) = log_of-append null_error ys (log ++ r ∷ []) in
      let (all_rows, k, v) =
        load-Linked sha256 null_error none log (r ∷ more) (chain_head log) (loaded sha256 r ∷ rows)
          (log_of-Whole xs [] read (empty-Whole sha256))
          (load-row_of sha256 null_error x none more rows l) in
      let told =
        verify_chain_lem sha256 null_error (log ++ r ∷ more) all_rows k
        ∙ v
        ∙ ap (λ h. verify_from sha256 h (loaded sha256 r ∷ rows)) at
        ∙ verify_from_broken sha256 x head rows in
      ap (λ a. verify_chain sha256 null_error (log_of ys a)) (add-unread sha256 x log w unread)
      ∙ ap (verify_chain sha256 null_error) (e₁ ∙ append_assoc log (r ∷ []) more)
      ∙ told

  load_null :
      (e : Text) (pre post : List AuditRow) (r : AuditRow)
      → r.entry_hash ≡ none
      → load e (pre ++ r ∷ post) ≡ err e
  unfolding load load_row
  load_null e [] post r h = rw (h, load_row)
  load_null e (s ∷ pre) post r h = ground (arith, load_null e pre post r h)

  verify_chain_null :
      (null_error : Text) (pre post : List AuditRow) (r : AuditRow)
      → r.entry_hash ≡ none
      → verify_chain sha256 null_error (pre ++ r ∷ post)
        ≡ err (head_mismatch (pos 0) none (some null_error))
  unfolding verify_chain
  verify_chain_null null_error pre post r h = rw (load_null null_error pre post r h, verify_chain)

  -- Once `write_audit` has added its row, `verify_chain` fails: whatever the log was before, and
  -- whichever rows come after.
  pub verify_chain-write_audit :
      (null_error : Text) (route_key : Option Text) (action result : Text) (id now : ℤ)
      (log post : List AuditRow)
      → verify_chain sha256 null_error (write_audit route_key action result id now log ++ post)
        ≡ err (head_mismatch (pos 0) none (some null_error))
  unfolding write_audit
  verify_chain-write_audit null_error route_key action result id now log post =
      let row : AuditRow = record {
        id = id;
        route_key = route_key;
        action = action;
        result = result;
        created_at = now;
        prev_hash = none;
        entry_hash = none;
      } in
      rw (append_assoc log (row ∷ []) post) (verify_chain_null null_error log post row refl)
