-- ===== src/Resilience/Bulkhead/Threads.antt =====
-- Any number of tasks that share one bulkhead, interleaved between a permit and its count.
use magiclaw.Common.{ℕ, suc, ◌+◌, ◌^◌, ◌≤◌, ◌<◌, ◌≡◌, refl, some, arith, inl, inr, Option-cases}
use magiclaw.Resilience.Bulkhead.{
  Semaphore, Bulkhead, new, count_up, count_down, take_permit, return_permit,
}

module _ (sem : Semaphore) where
  -- The tasks that hold a permit, by where they stand: before `fetch_add`, with a guard, and in
  -- `drop` after `fetch_sub`.
  pub record System : Type 0 where
    pub bulkhead : Bulkhead sem
    pub entering : ℕ
    pub inside : ℕ
    pub leaving : ℕ

  pub data Step : System → System → Type 0 where
    permit :
        (s : System) (b : Bulkhead sem)
        → take_permit sem s.bulkhead ≡ some b
        → Step s (record s { bulkhead = b; entering = s.entering + 1 })
    enter :
        (s : System) (n : ℕ)
        → s.entering ≡ suc n
        → Step s
            (record s { bulkhead = count_up sem s.bulkhead; entering = n; inside = s.inside + 1 })
    leave :
        (s : System) (n : ℕ)
        → s.inside ≡ suc n
        → Step s
            (record s { bulkhead = count_down sem s.bulkhead; inside = n; leaving = s.leaving + 1 })
    release :
        (s : System) (n : ℕ)
        → s.leaving ≡ suc n
        → Step s (record s { bulkhead = return_permit sem s.bulkhead; leaving = n })

  pub data Reach (s : System) : System → Type 0 where
    here : Reach s s
    next : {t u : System} → Reach s t → Step t u → Reach s u

  abbrev pub start : ℕ → System
  start n = record { bulkhead = new sem n; entering = 0; inside = 0; leaving = 0 }

  pub record Inv (max : ℕ) (s : System) : Type 0 where
    pub counted : s.bulkhead.active_count ≡ s.inside
    pub permits : sem.available s.bulkhead.semaphore + s.entering + s.inside + s.leaving ≡ max

  start-Inv : (max : ℕ) → Inv max (start max)
  unfolding new
  start-Inv max = record { counted = refl; permits = omega (arith, sem.available-new max) }

  Step-Inv : {max : ℕ} {s t : System} → max < 2 ^ 64 → Step s t → Inv max s → Inv max t
  unfolding count_up count_down take_permit return_permit
  Step-Inv u (permit s b e) v = elim (Option-cases (sem.try_acquire s.bulkhead.semaphore)) [
    | inl none_free ↦ ground arith
    | inr (p, taken) ↦ ground (arith, sem.try_acquire_some s.bulkhead.semaphore p taken)
  ]
  Step-Inv u (enter s n e) v = ground arith
  Step-Inv u (leave s n e) v = ground arith
  Step-Inv u (release s n e) v = ground (arith, sem.available-release s.bulkhead.semaphore)

  Reach-Inv : {max : ℕ} {s t : System} → max < 2 ^ 64 → Inv max s → Reach s t → Inv max t
  Reach-Inv u v here = v
  Reach-Inv u v (next r st) = Step-Inv u st (Reach-Inv u v r)

  -- However the tasks interleave, `active_count` is the number of guards that are held, without
  -- wrapping, and that is never more than `max_concurrent`; nor are more permits out than that.
  pub Reach-bounded :
      (max : ℕ) (s : System)
      → max < 2 ^ 64
      → Reach (start max) s
      → (s.bulkhead.active_count ≡ s.inside) × (s.entering + s.inside + s.leaving ≤ max)
  Reach-bounded max s u r =
      let v = Reach-Inv u (start-Inv max) r in (v.counted, omega (arith, v.permits))
