-- ===== src/Identity/Queries.antt =====
-- `Org.chain_up` and `Org.all_descendants` of modules/identity/org.py. Both loops take fuel.
use agent_company_factory.Prelude.{
  ◌==◌, if◌then◌else◌, exists, ℕ, zero, suc, Option, none, some, List, [], ◌∷◌,
}
use agent_company_factory.Prelude.Keyed.{lookup}
use agent_company_factory.Prelude.Action.{Result, ok, err}
use agent_company_factory.Identity.Model.{
  OrgError, cycle_detected, key_error, diverges, Agent, agent_id, direct_reports,
}

abbrev pub prepend : ℕ → Result OrgError (List ℕ) → Result OrgError (List ℕ)
prepend c (ok l) = ok (c ∷ l)
prepend c (err e) = err e

-- The loop of `chain_up`; a manager that was seen before is a cycle.
unfoldable pub chain_from : ℕ → List ℕ → Option ℕ → List Agent → Result OrgError (List ℕ)
chain_from zero seen cur t = err diverges
chain_from (suc f) seen none t = ok []
chain_from (suc f) seen (some c) t =
    if exists (λ k. k == c) seen then err cycle_detected else (elim (lookup agent_id c t) [
      | none ↦ err key_error
      | some a ↦ prepend c (chain_from f (c ∷ seen) a.reports_to t)
    ])

-- `Org.chain_up`
unfoldable pub chain_up : ℕ → ℕ → List Agent → Result OrgError (List ℕ)
unfolding chain_from
chain_up fuel k t = elim (lookup agent_id k t) [
  | none ↦ err key_error
  | some a ↦ chain_from fuel (k ∷ []) a.reports_to t
]

abbrev pub reversed_onto : List ℕ → List ℕ → List ℕ
reversed_onto [] l = l
reversed_onto (c ∷ cs) l = reversed_onto cs (c ∷ l)

-- The loop of `all_descendants`; the end of the list `frontier` is the head of the stack here.
unfoldable pub descend : ℕ → List ℕ → List Agent → Result OrgError (List ℕ)
descend f [] t = ok []
descend zero (c ∷ stack) t = err diverges
descend (suc f) (c ∷ stack) t = prepend c (descend f (reversed_onto (direct_reports c t) stack) t)

-- `Org.all_descendants`
unfoldable pub all_descendants : ℕ → ℕ → List Agent → Result OrgError (List ℕ)
unfolding descend
all_descendants fuel k t = descend fuel (reversed_onto (direct_reports k t) []) t
