-- ===== src/Bindings/Examples.antt =====
-- Tests: a binding that is imported twice, a line with quotes, and two targets of one id.
use magiclaw.Common.{
  ℕ, ◌≡◌, ◌≢◌, refl, true, false, none, some, [], ◌∷◌, arith, All, all, not, ◌==◌, nat_eq,
}
use magiclaw.Common.Int.{pos}
use magiclaw.Common.Result.{ok}
use magiclaw.Common.Text.{Text, text, trim, trim_start, trim_end, Lacks}
use magiclaw.Database.{World, execute}
use magiclaw.Database.Upsert.{upsert, upsert_keyed}
use magiclaw.Bindings.{
  DeliveryTarget, BindingImportRecord, Tables, target_id, target, validate, put_project, put_target,
  put_binding, ensure_project, upsert_delivery_target, upsert_binding, apply_binding_record,
}
use magiclaw.Bindings.Csv.{parse_csv_line}
use magiclaw.Bindings.Csv.Roundtrip.{Field, write_line, parse_csv_line-write_line}
use magiclaw.Bindings.Ids.{bar, Plain, SameEndpoint, target_id-injective}
use magiclaw.Bindings.Idempotent.{apply_binding_record-idempotent}
use magiclaw.Bindings.Import.{import_bindings_csv, import_bindings_jsonl}
use magiclaw.Bindings.Import.Counts.{Reports, written, imports-Reports}

abbrev pub conflict : Text
conflict = text "UNIQUE constraint failed"

abbrev pub row : BindingImportRecord
row = record {
  project_key = text " p1";
  channel = text "wechat";
  peer_id = text "u1";
  conversation_id = text "c1";
  conversation_type = text "direct";
  bind_source = text "";
  project_name = none;
  account_scope = none;
}

abbrev pub empty : World Tables
empty = record { state = record { projects = []; targets = []; bindings = [] }; faults = [] }

applied_once :
    apply_binding_record conflict (pos 1) row empty
    ≡ (ok tt, (apply_binding_record conflict (pos 1) row empty).1)
unfolding apply_binding_record ensure_project upsert_delivery_target upsert_binding put_project
    put_target put_binding upsert upsert_keyed execute validate target target_id trim trim_start
    trim_end
applied_once = refl

no_faults : (apply_binding_record conflict (pos 1) row empty).1.faults ≡ []
unfolding apply_binding_record ensure_project upsert_delivery_target upsert_binding put_project
    put_target put_binding upsert upsert_keyed execute validate target target_id trim trim_start
    trim_end
no_faults = refl

apply_binding_record-idempotent_example :
    apply_binding_record conflict (pos 1) row (apply_binding_record conflict (pos 1) row empty).1
    ≡ (ok tt, (apply_binding_record conflict (pos 1) row empty).1)
apply_binding_record-idempotent_example =
    apply_binding_record-idempotent conflict (pos 1) row empty
      (apply_binding_record conflict (pos 1) row empty).1 applied_once no_faults

abbrev said : Field
said = record { quoted = true; value = text "say \"hi\", twice" }

abbrev plain : Field
plain = record { quoted = false; value = text " p1 " }

plain-Writable : All (λ c. (c ≢ 34) × (c ≢ 44)) plain.value
plain-Writable = (
  ((λ e. ground arith), (λ e. ground arith)),
  (
    ((λ e. ground arith), (λ e. ground arith)),
    (((λ e. ground arith), (λ e. ground arith)), (((λ e. ground arith), (λ e. ground arith)), tt)),
  ),
)

parse_csv_line-write_line_example :
    parse_csv_line (write_line (plain ∷ said ∷ [])) ≡ trim (text " p1 ") ∷ trim said.value ∷ []
parse_csv_line-write_line_example =
    parse_csv_line-write_line plain (said ∷ []) (plain-Writable, (tt, tt))

lacks : (d : ℕ) (s : Text) → all (λ c. not (c == d)) s ≡ true → Lacks d s
lacks d [] h = tt
lacks d (c ∷ s) h = (λ e. ground (arith, h, e), lacks d s (ground (arith, h)))

abbrev pub endpoint : DeliveryTarget
endpoint = record {
  channel = text "wechat";
  peer_id = text "u1";
  conversation_id = text "c1";
  conversation_type = text "direct";
  account_scope = none;
}

endpoint-Plain : Plain endpoint
endpoint-Plain = record {
  channel = lacks bar (text "wechat") refl;
  peer_id = lacks bar (text "u1") refl;
  conversation_id = lacks bar (text "c1") refl;
  conversation_type = lacks bar (text "direct") refl;
}

same_id : target_id endpoint ≡ target_id (record endpoint { account_scope = some [] })
unfolding target_id
same_id = refl

target_id-injective_example : SameEndpoint endpoint (record endpoint { account_scope = some [] })
target_id-injective_example =
    target_id-injective endpoint (record endpoint { account_scope = some [] }) endpoint-Plain
      (record {
        channel = lacks bar (text "wechat") refl;
        peer_id = lacks bar (text "u1") refl;
        conversation_id = lacks bar (text "c1") refl;
        conversation_type = lacks bar (text "direct") refl;
      })
      same_id

-- Two other endpoints have one id.
abbrev pub shifted : DeliveryTarget
shifted = record endpoint { peer_id = text "u1|a"; conversation_id = text "b" }

abbrev pub barred : DeliveryTarget
barred = record endpoint { conversation_id = text "a|b" }

one_id : target_id shifted ≡ target_id barred
unfolding target_id
one_id = refl

imports-Reports_example :
    Reports conflict
      (λ n. [])
      (written (text "p1,wechat,u1,c1,direct" ∷ text "" ∷ text "p1,wechat" ∷ []))
      (import_bindings_csv conflict
        (λ n. [])
        (pos 1)
        (text "project_key" ∷ text "p1,wechat,u1,c1,direct" ∷ text "" ∷ text "p1,wechat" ∷ [])
        empty)
    × Reports conflict
        (λ n. [])
        (written (text "p1,wechat,u1,c1,direct" ∷ text "" ∷ text "p1,wechat" ∷ []))
        (import_bindings_jsonl conflict
          (λ n. [])
          (λ l. ok row)
          (pos 1)
          (text "p1,wechat,u1,c1,direct" ∷ text "" ∷ text "p1,wechat" ∷ [])
          empty)
imports-Reports_example =
    imports-Reports conflict (λ n. []) (λ l. ok row) (pos 1) (text "project_key")
      (text "p1,wechat,u1,c1,direct" ∷ text "" ∷ text "p1,wechat" ∷ []) empty
