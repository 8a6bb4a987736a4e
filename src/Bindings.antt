-- ===== src/Bindings.antt =====
-- src/application/binding.rs: the projects, the delivery targets and the bindings between them, as
-- tables of the schema in src/infrastructure/db.rs, and the import of a record. The columns
-- that nothing in this file reads (`bound_at`, `unbound_at`, `source_system`, ...) are left out.
pub mod Csv
pub mod Ids
pub mod Apply
pub mod Idempotent
pub mod Import
pub mod Examples
use magiclaw.Common.{
  ℕ, ◌≡◌, Bool, true, false, ◌&&◌, Option, none, some, List, [], ◌∷◌, ◌++◌, map, if◌then◌else◌,
  ◌==◌, list_eq, nat_eq, is_empty, any, length,
}
use magiclaw.Common.Int.{ℤ}
use magiclaw.Common.Result.{Result, ok, err}
use magiclaw.Common.Text.{Text, text, trim}
use magiclaw.Database.{World, Db, pure, fail, ◌>>=◌, with_prefix, execute, query}
use magiclaw.Database.Upsert.{upsert, upsert_keyed}

pub record DeliveryTarget : Type 0 where
  pub channel : Text
  pub peer_id : Text
  pub conversation_id : Text
  pub conversation_type : Text
  pub account_scope : Option Text

-- `unwrap_or("")`.
abbrev pub scope_value : Option Text → Text
scope_value none = []
scope_value (some s) = s

unfoldable pub target_id : DeliveryTarget → Text
target_id t =
    t.channel
    ++ text "|"
    ++ t.peer_id
    ++ text "|"
    ++ t.conversation_id
    ++ text "|"
    ++ t.conversation_type
    ++ text "|"
    ++ scope_value t.account_scope

abbrev pub is_blank : Text → Bool
is_blank s = is_empty (trim s)

unfoldable pub validate : DeliveryTarget → Result Unit Text
validate t =
    if is_blank t.channel
    then err (text "channel is empty")
    else if is_blank t.peer_id
    then err (text "peer_id is empty")
    else if is_blank t.conversation_id
    then err (text "conversation_id is empty")
    else if is_blank t.conversation_type
    then err (text "conversation_type is empty")
    else ok tt

pub record BindingImportRecord : Type 0 where
  pub project_key : Text
  pub channel : Text
  pub peer_id : Text
  pub conversation_id : Text
  pub conversation_type : Text
  pub bind_source : Text
  pub project_name : Option Text
  pub account_scope : Option Text

unfoldable pub target : BindingImportRecord → DeliveryTarget
target r = record {
  channel = trim r.channel;
  peer_id = trim r.peer_id;
  conversation_id = trim r.conversation_id;
  conversation_type = trim r.conversation_type;
  account_scope = r.account_scope;
}

-- The rows of `projects`, `delivery_targets` and `project_bindings`.
pub record Project : Type 0 where
  pub project_key : Text
  pub project_name : Text
  pub created_at : ℤ
  pub updated_at : ℤ

pub record TargetRow : Type 0 where
  pub target_id : Text
  pub channel : Text
  pub peer_id : Text
  pub conversation_id : Text
  pub conversation_type : Text
  pub account_scope : Text
  pub status : Text
  pub created_at : ℤ
  pub updated_at : ℤ

pub record Binding : Type 0 where
  pub id : Text
  pub project_key : Text
  pub target_id : Text
  pub bind_source : Text
  pub status : Text
  pub created_at : ℤ
  pub updated_at : ℤ

pub record Tables : Type 0 where
  pub projects : List Project
  pub targets : List TargetRow
  pub bindings : List Binding

abbrev pub active : Text
active = text "active"

-- The name that the caller gives, unless it is blank.
abbrev pub explicit_name : Option Text → Option Text
explicit_name none = none
explicit_name (some n) = if is_blank n then none else some (trim n)

abbrev pub name_or : Text → Option Text → Text
name_or fallback none = fallback
name_or fallback (some n) = n

abbrev pub new_project : ℤ → Text → Option Text → Project
new_project ts key name = record {
  project_key = key;
  project_name = name_or key (explicit_name name);
  created_at = ts;
  updated_at = ts;
}

abbrev pub rename : ℤ → Option Text → Project → Project
rename ts name p = record p {
  project_name = name_or p.project_name (explicit_name name);
  updated_at = ts;
}

-- The statement of `ensure_project`.
unfoldable pub put_project : ℤ → (key : Text) → Option Text → Tables → Result Tables Text
unfolding upsert
put_project ts key name t = ok (record t {
  projects =
      upsert (λ p. p.project_key == key) (rename ts name) (new_project ts key name) t.projects;
})

unfoldable pub ensure_project : ℤ → Text → Option Text → Db Tables Unit
unfolding put_project
ensure_project ts project_key name =
    let key = trim project_key in
    if is_empty key
    then fail (text "project_key is empty")
    else with_prefix (text "ensure_project failed: ") (execute (put_project ts key name))

abbrev pub new_target : ℤ → DeliveryTarget → TargetRow
new_target ts d = record {
  target_id = target_id d;
  channel = d.channel;
  peer_id = d.peer_id;
  conversation_id = d.conversation_id;
  conversation_type = d.conversation_type;
  account_scope = scope_value d.account_scope;
  status = active;
  created_at = ts;
  updated_at = ts;
}

-- `UNIQUE (channel, peer_id, conversation_id, conversation_type, account_scope)`.
abbrev pub same_endpoint : DeliveryTarget → TargetRow → Bool
same_endpoint d r =
    r.channel == d.channel
    && r.peer_id == d.peer_id
    && r.conversation_id == d.conversation_id
    && r.conversation_type == d.conversation_type
    && r.account_scope == scope_value d.account_scope

abbrev pub activate : ℤ → TargetRow → TargetRow
activate ts r = record r { status = active; updated_at = ts }

abbrev pub new_binding : ℤ → (project_key target_id bind_source : Text) → Binding
new_binding ts project_key id bind_source = record {
  id = project_key ++ text "|" ++ id;
  project_key = project_key;
  target_id = id;
  bind_source = bind_source;
  status = active;
  created_at = ts;
  updated_at = ts;
}

abbrev pub same_binding : (project_key target_id : Text) → Binding → Bool
same_binding project_key id b = b.project_key == project_key && b.target_id == id

abbrev pub rebind : ℤ → (bind_source : Text) → Binding → Binding
rebind ts bind_source b = record b { bind_source = bind_source; status = active; updated_at = ts }

abbrev pub with_targets : Tables → Result (List TargetRow) Text → Result Tables Text
with_targets t (ok rows) = ok (record t { targets = rows })
with_targets t (err e) = err e

abbrev pub with_bindings : Tables → Result (List Binding) Text → Result Tables Text
with_bindings t (ok rows) = ok (record t { bindings = rows })
with_bindings t (err e) = err e

abbrev pub source_of : BindingImportRecord → Text
source_of r = if is_blank r.bind_source then text "import" else trim r.bind_source

-- `conflict` is SQLite's message for a violated primary key.
module _ (conflict : Text) where
  -- The statement of `upsert_delivery_target`.
  unfoldable pub put_target : ℤ → DeliveryTarget → Tables → Result Tables Text
  unfolding upsert_keyed
  put_target ts d t = with_targets t (
      upsert_keyed conflict (λ r. r.target_id == target_id d) (same_endpoint d) (activate ts)
        (new_target ts d) t.targets)

  unfoldable pub upsert_delivery_target : ℤ → DeliveryTarget → Db Tables Text
  unfolding put_target
  upsert_delivery_target ts d = elim (validate d) [
    | err e ↦ fail e
    | ok u ↦ (do
      _ ← with_prefix (text "upsert_delivery_target failed: ") (execute (put_target ts d))
      pure (target_id d))
  ]

  -- The statement of `upsert_binding`.
  unfoldable pub put_binding :
      ℤ → (project_key target_id bind_source : Text) → Tables → Result Tables Text
  unfolding upsert_keyed
  put_binding ts project_key id bind_source t =
      let new = new_binding ts project_key id bind_source in
      with_bindings t (
        upsert_keyed conflict (λ b. b.id == new.id) (same_binding project_key id)
          (rebind ts bind_source) new t.bindings)

  unfoldable pub upsert_binding : ℤ → (project_key target_id bind_source : Text) → Db Tables Unit
  unfolding put_binding
  upsert_binding ts project_key id bind_source =
      with_prefix (text "upsert_binding failed: ")
        (execute (put_binding ts (trim project_key) id (trim bind_source)))

  unfoldable pub apply_binding_record : ℤ → BindingImportRecord → Db Tables Unit
  unfolding ensure_project upsert_delivery_target upsert_binding target
  apply_binding_record ts r =
      if is_blank r.project_key then fail (text "project_key is empty") else do
        _ ← ensure_project ts r.project_key r.project_name
        id ← upsert_delivery_target ts (target r)
        upsert_binding ts (trim r.project_key) id (source_of r)
