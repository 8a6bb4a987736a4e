-- ===== src/Pipeline/Reply/Laws.antt =====
-- What the two terminal steps of src/core/pipeline make of a context.
use magiclaw.Common.{
  ℕ, ◌≡◌, refl, sym, ◌∙◌, Bool, true, some, List, [], ◌∷◌, ◌++◌, arith, any, list_eq, nat_eq,
  Option-cases, inl, inr,
}
use magiclaw.Common.Int.{ℤ}
use magiclaw.Common.Result.{Result, ok, err}
use magiclaw.Common.Text.{Text, strip_prefix-append}
use magiclaw.Domain.Message.{Message, outbound}
use magiclaw.Outbox.Entry
use magiclaw.Outbox.Entry.{OutboxEntry}
use magiclaw.Outbox.Table.{insert, has_id}
use magiclaw.Pipeline.Chain.{PipelineContext}
use magiclaw.Pipeline.Reply.{Json, add_responder_prefix, prefix, reply_entry, submit}

-- A text that has its responder's prefix gets no second one.
pub add_responder_prefix_idempotent :
    (response name : Text)
    → add_responder_prefix (add_responder_prefix response name) name
      ≡ add_responder_prefix response name
unfolding add_responder_prefix
add_responder_prefix_idempotent response name =
    ground (arith, strip_prefix-append (prefix name) response)

any-append_entry :
    (e : OutboxEntry) (rows : List OutboxEntry) → any (has_id e.id) (rows ++ e ∷ []) ≡ true
any-append_entry e [] = ground (arith, (list_eq {A = ℕ}).eq_iff e.id e.id)
any-append_entry e (d ∷ rows) = ground (arith, any-append_entry e rows)

-- The second of two insertions under one id does nothing.
insert_again :
    (d e : OutboxEntry) (rows : List OutboxEntry)
    → d.id ≡ e.id
    → insert d (insert e rows) ≡ insert e rows
unfolding insert
insert_again d e rows same = rw same (ground (arith, any-append_entry e rows))

reply_entry-id :
    (json : Json) (now : ℤ) (m : Message) (e : OutboxEntry)
    → reply_entry json now m ≡ some e
    → e.id ≡ m.id
unfolding Entry.new
reply_entry-id json now m e h =
    go (json.route_key_json m.route_key) (json.content_json m.content) refl refl
  where
    go :
        (k p : Result Text Text)
        → json.route_key_json m.route_key ≡ k
        → json.content_json m.content ≡ p
        → e.id ≡ m.id
    go (err x) p a b = ground (arith, h, a, b)
    go (ok k) (err x) a b = ground (arith, h, a, b)
    go (ok k) (ok p) a b = ground (arith, h, a, b)

submit_over :
    (json : Json) (now : ℤ) (written : Bool) (ctx : PipelineContext)
    (rows stored : List OutboxEntry)
    → ((d : OutboxEntry) → reply_entry json now ctx.message ≡ some d → insert d stored ≡ stored)
    → rows ≡ stored
    → submit json now written ctx rows ≡ rows
unfolding submit
submit_over json now written ctx rows stored h same =
    elim (Option-cases (reply_entry json now ctx.message)) [
      | inl lost ↦ ground (arith, lost)
      | inr (d, made) ↦ ground (arith, made, h d made, same)
    ]

-- Where a reply has been stored, later replies under the same message's id leave the outbox as it
-- is, whatever they say: a message is answered at most once.
pub submit_once :
    (json : Json) (now later : ℤ) (written : Bool) (ctx ctx' : PipelineContext) (e : OutboxEntry)
    (rows : List OutboxEntry)
    → ctx.message.direction ≡ outbound
    → reply_entry json now ctx.message ≡ some e
    → ctx'.message.id ≡ ctx.message.id
    → submit json later written ctx' (submit json now true ctx rows) ≡ submit json now true ctx rows
unfolding submit Entry.new
submit_once json now later written ctx ctx' e rows out replied same =
    submit_over json later written ctx' (submit json now true ctx rows) (insert e rows)
      (λ d at. insert_again d e rows (
        reply_entry-id json later ctx'.message d at
        ∙ same
        ∙ sym (reply_entry-id json now ctx.message e replied)))
      (ground (arith, out, replied))
