-- ===== src/Pipeline/Chain/Terminal.antt =====
-- What a short-circuit leaves of the chain of src/core/pipeline/middleware.rs.
use magiclaw.Common.{
  ◌≡◌, refl, true, List, [], ◌∷◌, arith, if◌then◌else◌, All, inl, inr, Bool-cases,
}
use magiclaw.Common.Result.{Result, ok, err}
use magiclaw.Pipeline.Chain.{PipelineContext, PipelineError, Middleware, and_then, run}

module _ {W : Type 0} where
  -- Every terminal step is processed, one after another until one fails, and no other step is.
  unfoldable pub run_terminals :
      List (Middleware W) → PipelineContext → W → Result PipelineContext PipelineError × W
  run_terminals [] ctx w = (ok ctx, w)
  run_terminals (step ∷ steps) ctx w =
      let rest = run_terminals steps in
      if step.is_terminal then and_then rest (step.process ctx w) else rest ctx w

  -- A terminal step that does not take a short-circuit back.
  abbrev pub KeepsShort : Middleware W → Type 0
  KeepsShort step =
      (ctx ctx' : PipelineContext) (w w' : W)
      → step.is_terminal ≡ true
      → ctx.short_circuit ≡ true
      → step.process ctx w ≡ (ok ctx', w')
      → ctx'.short_circuit ≡ true

  and_then-agree :
      (f g : PipelineContext → W → Result PipelineContext PipelineError × W)
      (m : Result PipelineContext PipelineError × W)
      → ((ctx : PipelineContext) (w : W) → m ≡ (ok ctx, w) → f ctx w ≡ g ctx w)
      → and_then f m ≡ and_then g m
  and_then-agree f g (ok ctx, w) h = h ctx w refl
  and_then-agree f g (err e, w) h = refl

  -- Once the context is short-circuited, every terminal step is still processed, in the order of the
  -- chain, each on the context and the state that the one before it leaves and until one fails, and
  -- no other step is, if no terminal step takes the short-circuit back.
  pub run-short_circuit :
      (steps : List (Middleware W)) (ctx : PipelineContext) (w : W)
      → All KeepsShort steps
      → ctx.short_circuit ≡ true
      → run steps ctx w ≡ run_terminals steps ctx w
  unfolding run run_terminals
  run-short_circuit [] ctx w keep short = refl
  run-short_circuit (step ∷ steps) ctx w keep short = elim (Bool-cases step.is_terminal) [
    | inl terminal ↦
        (let same =
            and_then-agree (run steps) (run_terminals steps) (step.process ctx w) (λ ctx' w' h.
              run-short_circuit steps ctx' w' keep.1 (keep.0 ctx ctx' w w' terminal short h)) in
          ground (arith, terminal, short, same))
    | inr skipped ↦ ground (arith, skipped, short, run-short_circuit steps ctx w keep.1 short)
  ]
