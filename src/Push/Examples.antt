-- ===== src/Push/Examples.antt =====
-- Tests: a job over a store with a bound target, and an item for a target that is not bound.
use magiclaw.Common.{◌≡◌, refl, none, some, [], ◌∷◌, ◌++◌, list_eq, nat_eq}
use magiclaw.Common.Int.{pos}
use magiclaw.Common.Result.{ok}
use magiclaw.Common.Text.{text}
use magiclaw.Database.{World, query}
use magiclaw.Bindings.{Tables, target_id, apply_binding_record, new_target, new_binding}
use magiclaw.Bindings.Examples.{conflict, row, shifted, barred}
use magiclaw.Push.{PushItem, Store, Env, bound_ids, partition_allowed, active_target_ids}
use magiclaw.Push.Ids.{apply_binding_record-IdsMatch}
use magiclaw.Push.Jobs.{RunSummary, resolve_requested, resolve_item_targets}
use magiclaw.Push.Run.{run_push_job}
use magiclaw.Push.Run.Accounts.{Accounts}
use magiclaw.Push.Run.Completes.{run_push_job-completes}
use magiclaw.Push.Targets.{IdsMatch, Resolved, resolve_item_targets-Resolved}

abbrev env : Env
env = record {
  route_json = λ r. r.peer_id ++ text "/" ++ r.conversation_id;
  content_json = λ c. text "content";
  targets_json = λ l. text "targets";
  targets_of_json = λ s. ok (shifted ∷ []);
  uuid = λ n. n ∷ [];
  next_id = λ l. pos 1;
  conflict = conflict;
  number = λ n. n ∷ [];
}

-- The project p1 is bound to `barred`.
abbrev tables : Tables
tables = record {
  projects = [];
  targets = new_target (pos 1) barred ∷ [];
  bindings = new_binding (pos 1) (text "p1") (target_id barred) (text "import") ∷ [];
}

abbrev item : PushItem
item = record {
  item_id = text "i1";
  job_id = text "j1";
  project_key = text "p1";
  message_text = text "hi";
  mode = text "targeted";
  target_targets_json = some (text "targets");
  status = text "pending";
  error = none;
  created_at = pos 1;
}

abbrev world : World Store
world = record {
  state = record {
    tables = tables;
    outbox = [];
    jobs = [];
    items =
        item
        ∷ record item { item_id = text "i2"; mode = text "broadcast"; project_key = text "p2" }
        ∷ [];
    audit_log = [];
    issued = 0;
  };
  faults = [];
}

tables-IdsMatch : IdsMatch tables.targets
unfolding IdsMatch target_id
tables-IdsMatch = (refl, tt)

-- The item asks for `shifted`, to which the project is not bound, and gets it.
mistaken : resolve_item_targets env item world ≡ (ok (shifted ∷ []), world)
unfolding resolve_item_targets resolve_requested active_target_ids bound_ids partition_allowed
    target_id query
mistaken = refl

resolve_item_targets-Resolved_example :
    Resolved env item world.state (shifted ∷ []) × (world.state ≡ world.state)
resolve_item_targets-Resolved_example =
    resolve_item_targets-Resolved env item world world (shifted ∷ []) tables-IdsMatch mistaken

run_push_job-completes_example :
    (s : RunSummary) × (v : World Store) × (run_push_job env (pos 2) (text "j1") world ≡ (ok s, v))
    × Accounts (text "j1") s world.state v.state
run_push_job-completes_example = run_push_job-completes env (pos 2) (text "j1") world refl

apply_binding_record-IdsMatch_example :
    IdsMatch
      (apply_binding_record conflict
        (pos 1)
        row
        (record { state = tables; faults = some (text "full") ∷ [] })).1.state.targets
apply_binding_record-IdsMatch_example =
    apply_binding_record-IdsMatch conflict (pos 1) row
      (record { state = tables; faults = some (text "full") ∷ [] }) tables-IdsMatch
