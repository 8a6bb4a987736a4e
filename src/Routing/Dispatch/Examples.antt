-- ===== src/Routing/Dispatch/Examples.antt =====
-- Tests: a cache that is the list of its keys.
use magiclaw.Common.{
  ◌≡◌, refl, true, false, List, [], ◌∷◌, any, ◌==◌, list_eq, nat_eq, if◌then◌else◌, arith,
}
use magiclaw.Common.Text.{Text, text}
use magiclaw.Pipeline.Reply.Examples.{question}
use magiclaw.Routing.Dispatch.{
  Cache, duplicate, route_message, route_all, check_and_set, deduplicate,
}
use magiclaw.Routing.Dispatch.Once.{CacheLaws}
use magiclaw.Routing.Routes.Examples.{queues, empty}
use magiclaw.Routing.Routes.{
  enqueue, get, insert, update_at, get_or_create_tx, try_send, open_route,
}

abbrev pub Keys : Type 0
Keys = List Text

abbrev pub keys : Cache Keys
keys = record {
  contains_key = λ key ks. any (λ k. k == key) ks;
  get_with = λ key ks. if any (λ k. k == key) ks then (false, ks) else (true, key ∷ ks);
}

pub keys-CacheLaws : CacheLaws keys
keys-CacheLaws = record { runs_on_miss = λ key k. ground arith }

-- Another message for the full queue, again once it was dropped.
again :
    (route_message queues keys
      (record question.message { id = text "m2" })
      2
      (route_all queues keys
        ((question.message, 0) ∷ (record question.message { id = text "m2" }, 1) ∷ [])
        ([], empty)).0
      (route_all queues keys
        ((question.message, 0) ∷ (record question.message { id = text "m2" }, 1) ∷ [])
        ([], empty)).1).0
    ≡ duplicate
unfolding route_message route_all check_and_set enqueue get insert update_at get_or_create_tx
    try_send open_route
again = refl

seen : (deduplicate queues keys (text "wechat") (text "m1") []).0 ≡ true
unfolding deduplicate check_and_set
seen = refl
