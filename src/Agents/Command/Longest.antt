-- ===== src/Agents/Command/Longest.antt =====
-- Which alias of src/core/pipeline/agent_command.rs a message is taken for.
use magiclaw.Common.{
  zero, suc, ◌≤◌, ◌≡◌, ◌≢◌, refl, subst, ◌⊎◌, inl, inr, none, some, List, [], ◌∷◌, All, All-weaken,
  arith, if_intro, leb, Option-cases, Bool-cases,
}
use magiclaw.Common.Text.{Text, trim}
use magiclaw.Agents.Command.{
  AgentCommand, query, not_command, Candidate, alias_len, candidates, insert_longest, sort_longest,
  match_candidate, first_match, is_query, parse,
}

abbrev pub In : Candidate → List Candidate → Type 0
In c [] = zero ≡ suc zero
In c (d ∷ ds) = (c ≡ d) ⊎ In c ds

-- A list that falls in the length of the alias.
abbrev Falling : List Candidate → Type 0
Falling [] = Unit
Falling (c ∷ cs) = All (λ d. alias_len d ≤ alias_len c) cs × Falling cs

All-insert_longest :
    (P : Candidate → Type 0) (c : Candidate) (cs : List Candidate)
    → P c
    → All P cs
    → All P (insert_longest c cs)
unfolding insert_longest
All-insert_longest P c [] p h = (p, tt)
All-insert_longest P c (d ∷ ds) p h =
    let rest = All-insert_longest P c ds p h.1 in
    if_intro (List Candidate) (All P) (leb (alias_len d) (alias_len c)) _ _ (λ e. (p, h))
      (λ e. (h.0, rest))

All-insert_inverse :
    (P : Candidate → Type 0) (c : Candidate) (cs : List Candidate)
    → All P (insert_longest c cs)
    → P c × All P cs
unfolding insert_longest
All-insert_inverse P c [] h = (h.0, tt)
All-insert_inverse P c (d ∷ ds) h =
    if_intro (List Candidate) (λ r. All P r → P c × All P (d ∷ ds))
      (leb (alias_len d) (alias_len c)) _ _ (λ e k. (k.0, k.1))
      (λ e k. let (p, rest) = All-insert_inverse P c ds k.1 in (p, (k.0, rest))) h

Falling-insert : (c : Candidate) (cs : List Candidate) → Falling cs → Falling (insert_longest c cs)
unfolding insert_longest
Falling-insert c [] h = (tt, tt)
Falling-insert c (d ∷ ds) h =
    let rest = Falling-insert c ds h.1 in
    if_intro (List Candidate) Falling (leb (alias_len d) (alias_len c)) _ _
      (λ e. (
        (
          ground (arith, e),
          All-weaken (λ f. alias_len f ≤ alias_len d) _ ds (λ f k. ground (arith, e, k)) h.0,
        ),
        h,
      ))
      (λ e.
        (All-insert_longest (λ f. alias_len f ≤ alias_len d) c ds (ground (arith, e)) h.0, rest))

Falling-sort : (cs : List Candidate) → Falling (sort_longest cs)
unfolding sort_longest
Falling-sort [] = tt
Falling-sort (c ∷ cs) = Falling-insert c (sort_longest cs) (Falling-sort cs)

All-sort_inverse :
    (P : Candidate → Type 0) (cs : List Candidate) → All P (sort_longest cs) → All P cs
unfolding sort_longest
All-sort_inverse P [] h = tt
All-sort_inverse P (c ∷ cs) h =
    let (p, rest) = All-insert_inverse P c (sort_longest cs) h in (p, All-sort_inverse P cs rest)

-- A candidate that is among the sorted ones is among the others, and the other way round.
In-insert : (c d : Candidate) (ds : List Candidate) → In c (insert_longest d ds) → (c ≡ d) ⊎ In c ds
unfolding insert_longest
In-insert c d [] h = h
In-insert c d (e ∷ es) h =
    if_intro (List Candidate) (λ r. In c r → (c ≡ d) ⊎ In c (e ∷ es))
      (leb (alias_len e) (alias_len d)) _ _ (λ q k. k)
      (λ q k. elim k [
        | inl same ↦ inr (inl same)
        | inr later ↦ elim (In-insert c d es later) [
          | inl same ↦ inl same
          | inr there ↦ inr (inr there)
        ]
      ])
      h

In-sort : (c : Candidate) (cs : List Candidate) → In c (sort_longest cs) → In c cs
unfolding sort_longest
In-sort c [] h = h
In-sort c (d ∷ ds) h = elim (In-insert c d (sort_longest ds) h) [
  | inl same ↦ inl same
  | inr later ↦ inr (In-sort c ds later)
]

-- A candidate decides the command, and no longer one matches the message.
abbrev pub Chosen : Text → List Candidate → AgentCommand → Type 0
unfolding match_candidate alias_len
Chosen trimmed cs command =
    (c : Candidate) × In c cs
    × (match_candidate trimmed c ≡ some command)
    × All (λ d. (match_candidate trimmed d ≡ none) ⊎ (alias_len d ≤ alias_len c)) cs

first_match-Chosen :
    (trimmed : Text) (cs : List Candidate) (command : AgentCommand)
    → Falling cs
    → first_match trimmed cs ≡ some command
    → Chosen trimmed cs command
unfolding first_match Chosen
first_match-Chosen trimmed [] command f h = absurd (cc h)
first_match-Chosen trimmed (c ∷ cs) command f h = elim (Option-cases (match_candidate trimmed c)) [
  | inr (m, found) ↦ (
    c,
    inl refl,
    ground (arith, found, h),
    (inr (omega arith), All-weaken (λ d. alias_len d ≤ alias_len c) _ cs (λ d k. inr k) f.0),
  )
  | inl missing ↦
      (let (d, there, found, rest) =
          first_match-Chosen trimmed cs command f.1 (ground (arith, missing, h)) in
        (d, inr there, found, (inl missing, rest)))
]

Chosen-sort :
    (trimmed : Text) (cs : List Candidate) (command : AgentCommand)
    → Chosen trimmed (sort_longest cs) command
    → Chosen trimmed cs command
unfolding Chosen
Chosen-sort trimmed cs command (c, there, found, rest) =
    (c, In-sort c cs there, found, All-sort_inverse _ cs rest)

-- A message that is a command and not a query is decided by an alias of the agent, in whatever order
-- the map is iterated, and no alias that has more bytes matches the message.
pub parse-longest :
    (to_lowercase : Text → Text) (aliases : List (Text × List Text)) (message : Text)
    → parse to_lowercase aliases message ≢ query
    → parse to_lowercase aliases message ≢ not_command
    → Chosen (trim message) (candidates aliases) (parse to_lowercase aliases message)
unfolding parse
parse-longest to_lowercase aliases message no_query command =
    elim (Bool-cases (is_query to_lowercase (trim message))) [
      | inl asked ↦ absurd (no_query (ground (arith, asked)))
      | inr other ↦
          elim (Option-cases (first_match (trim message) (sort_longest (candidates aliases)))) [
            | inl missing ↦ absurd (command (ground (arith, other, missing)))
            | inr (m, found) ↦
                (let same : m ≡ parse to_lowercase aliases message = ground (arith, other, found) in
                  subst (Chosen (trim message) (candidates aliases)) same (
                    Chosen-sort (trim message) (candidates aliases) m (
                      first_match-Chosen (trim message) (sort_longest (candidates aliases)) m
                        (Falling-sort (candidates aliases)) found)))
          ]
    ]
