-- ===== src/Replay/Run/Sorting.antt =====
-- adapters/evidence/replay.py: the calls of a run in the order of their
-- sequence.
use agent_trust_runtime.Base.{
  ◌≤◌, String, ◌≡◌, ◌⊎◌, inl, inr, Bool-cases, ◌==◌, leb, some, List, [], ◌∷◌, arith,
}
use agent_trust_runtime.Base.Dict.{lookup, values, Entries}
use agent_trust_runtime.Sessions.{SessionToolCall}
use agent_trust_runtime.Replay.Run.{insert_call, sort_calls}

abbrev pub AllCalls : (SessionToolCall → Type 0) → List SessionToolCall → Type 0
AllCalls P [] = Unit
AllCalls P (c ∷ cs) = P c × AllCalls P cs

abbrev pub AmongCalls : SessionToolCall → List SessionToolCall → Type 0
AmongCalls c [] = ⊥
AmongCalls c (x ∷ xs) = (x ≡ c) ⊎ AmongCalls c xs

-- The calls come in the order of their sequence.
abbrev pub Ordered : List SessionToolCall → Type 0
Ordered [] = Unit
Ordered (c ∷ cs) = AllCalls (λ d. c.sequence ≤ d.sequence) cs × Ordered cs

insert_call-AllCalls :
    (P : SessionToolCall → Type 0) (c : SessionToolCall) (cs : List SessionToolCall)
    → P c
    → AllCalls P cs
    → AllCalls P (insert_call c cs)
unfolding insert_call
insert_call-AllCalls P c [] p h = (p, tt)
insert_call-AllCalls P c (d ∷ ds) p h =
    let rest = insert_call-AllCalls P c ds p h.1 in
    elim (Bool-cases (leb c.sequence d.sequence)) [ inl e ↦ rw e (p, h) | inr e ↦ rw e (h.0, rest) ]

pub sort_calls-AllCalls :
    (P : SessionToolCall → Type 0) (cs : List SessionToolCall)
    → AllCalls P cs
    → AllCalls P (sort_calls cs)
unfolding sort_calls
sort_calls-AllCalls P [] h = h
sort_calls-AllCalls P (c ∷ cs) h =
    insert_call-AllCalls P c (sort_calls cs) h.0 (sort_calls-AllCalls P cs h.1)

AllCalls-map :
    (P Q : SessionToolCall → Type 0) (cs : List SessionToolCall)
    → ((c : SessionToolCall) → P c → Q c)
    → AllCalls P cs
    → AllCalls Q cs
AllCalls-map P Q [] f h = tt
AllCalls-map P Q (c ∷ cs) f h = (f c h.0, AllCalls-map P Q cs f h.1)

insert_call-Ordered :
    (c : SessionToolCall) (cs : List SessionToolCall) → Ordered cs → Ordered (insert_call c cs)
unfolding insert_call
insert_call-Ordered c [] h = (tt, tt)
insert_call-Ordered c (d ∷ ds) h =
    let rest = insert_call-Ordered c ds h.1 in
    elim (Bool-cases (leb c.sequence d.sequence)) [
      | inl e ↦
          let below : c.sequence ≤ d.sequence = ground (arith, e) in
          rw e (
            (
              below,
              AllCalls-map (λ x. d.sequence ≤ x.sequence) (λ x. c.sequence ≤ x.sequence) ds
                  (λ x l. omega (arith, below, l)) h.0,
            ),
            h,
          )
      | inr e ↦
          let above : d.sequence ≤ c.sequence = ground (arith, e) in
          rw e (insert_call-AllCalls (λ x. d.sequence ≤ x.sequence) c ds above h.0, rest)
    ]

pub sort_calls-Ordered : (cs : List SessionToolCall) → Ordered (sort_calls cs)
unfolding sort_calls
sort_calls-Ordered [] = tt
sort_calls-Ordered (c ∷ cs) = insert_call-Ordered c (sort_calls cs) (sort_calls-Ordered cs)

insert_call-AmongCalls :
    (x c : SessionToolCall) (cs : List SessionToolCall)
    → (c ≡ x) ⊎ AmongCalls x cs
    → AmongCalls x (insert_call c cs)
unfolding insert_call
insert_call-AmongCalls x c [] h = h
insert_call-AmongCalls x c (d ∷ ds) h =
    let rest = insert_call-AmongCalls x c ds in
    elim (Bool-cases (leb c.sequence d.sequence)) [
      | inl e ↦ rw e h
      | inr e ↦ rw e (elim h [
        | inl p ↦ inr (rest (inl p))
        | inr (inl p) ↦ inl p
        | inr (inr p) ↦ inr (rest (inr p))
      ])
    ]

pub sort_calls-AmongCalls :
    (x : SessionToolCall) (cs : List SessionToolCall)
    → AmongCalls x cs
    → AmongCalls x (sort_calls cs)
unfolding sort_calls
sort_calls-AmongCalls x [] h = h
sort_calls-AmongCalls x (c ∷ cs) h =
    insert_call-AmongCalls x c (sort_calls cs)
      (elim h [ inl p ↦ inl p | inr p ↦ inr (sort_calls-AmongCalls x cs p) ])

pub lookup-AmongCalls :
    (id : String) (c : SessionToolCall) (calls : List (String × SessionToolCall))
    → lookup id calls ≡ some c
    → AmongCalls c (values calls)
unfolding lookup
lookup-AmongCalls id c [] h = cc
lookup-AmongCalls id c ((j, d) ∷ calls) h =
    let rest = lookup-AmongCalls id c calls in
    elim (Bool-cases (j == id)) [
      | inl e ↦ inl (ground (arith, e))
      | inr e ↦ inr (rest (ground (arith, e)))
    ]

pub Entries-AllCalls :
    (P : SessionToolCall → Type 0) (calls : List (String × SessionToolCall))
    → Entries (λ id c. P c) calls
    → AllCalls P (values calls)
Entries-AllCalls P [] h = tt
Entries-AllCalls P ((id, c) ∷ calls) h = (h.0, Entries-AllCalls P calls h.1)
