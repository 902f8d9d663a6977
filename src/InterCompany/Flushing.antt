-- ===== src/InterCompany/Flushing.antt =====
-- What `deliver_pending` reports is what has left the queue.
use mathlib.Core.Path.{subst}
use mathlib.Core.Bool.{false≢true}
use agent_company_factory.Prelude.{
  ◌==◌, is_none, Option-cases, select, count, All, All_of_find, All-imp, ℕ, ◌+◌, ◌≡◌, refl, sym, ap,
  ◌∙◌, inl, inr, Bool, true, false, false≢true, none, some, List, [], ◌∷◌, arith,
}
use agent_company_factory.Prelude.Keyed.{
  flag, lookup, set, IsKeyed, lookup-set, set-IsKeyed, IsKeyed-lookup, count-set,
}
use agent_company_factory.Prelude.Action.{Result, ok}
use agent_company_factory.InterCompany.Model.{
  Link, CrossEntry, CrossError, Board, link_id_of, entry_id_of,
}
use agent_company_factory.InterCompany.Service.{lookup_link, target_handle}
use agent_company_factory.InterCompany.Pending.{
  waits_for, deliver_entry, deliver_entries, waiting_entries, deliver_pending,
}
use agent_company_factory.Orchestrator.Model.{Text}
use agent_company_factory.Orchestrator.State.{Orchestrator}
use agent_company_factory.Orchestrator.Send.{Moment}
use agent_company_factory.Clock.Model.{shown}
use agent_company_factory.Prelude.Sorted.{
  lookup-order_by, IsKeyed-order_by, lookup-select-none, lookup-select, IsKeyed-select,
}
use agent_company_factory.InterCompany.Attempts.{IsAttempted, deliver_entry-IsTried}

-- An entry that waits in the table.
abbrev IsPending : ℕ → List CrossEntry → CrossEntry → Type 0
IsPending c t e = (lookup entry_id_of e.id t ≡ some e) × (waits_for c e ≡ true)

-- Another entry is found as before.
other_found :
    (f : CrossEntry → CrossEntry) (same : (x : CrossEntry) → entry_id_of (f x) ≡ entry_id_of x)
    (k : ℕ) (t : List CrossEntry) (e : CrossEntry)
    → (e.id == k) ≡ false
    → lookup entry_id_of e.id t ≡ some e
    → lookup entry_id_of e.id (set entry_id_of k f t) ≡ some e
other_found f same k t e d h = lookup-set entry_id_of f same e.id k t ∙ rw d h

all_others :
    (k : ℕ) (l : List CrossEntry)
    → lookup entry_id_of k l ≡ none
    → All (λ (e : CrossEntry). (e.id == k) ≡ false) l
all_others k [] h = tt
all_others k (e ∷ l) h = (ground arith, all_others k l (ground arith))

-- The invariant of the loop: the entries that are left wait in the table, and their links exist.
record IsLoop (c : ℕ) (l : List CrossEntry) (t : List CrossEntry) (links : List Link) : Type 0 where
  keyed : IsKeyed entry_id_of t
  rest_keyed : IsKeyed entry_id_of l
  pending : All (IsPending c t) l
  linked : All (λ (e : CrossEntry). is_none (lookup link_id_of e.link_id links) ≡ false) l

abbrev waiting_count : ℕ → List CrossEntry → ℕ
waiting_count c = count (waits_for c)

module _ (c : ℕ) (e : CrossEntry) (l t : List CrossEntry) (links : List Link)
    (v : IsLoop c (e ∷ l) t links) where
  skipped-IsLoop : IsLoop c l t links
  skipped-IsLoop = record {
    keyed = v.keyed;
    rest_keyed = v.rest_keyed.1;
    pending = v.pending.1;
    linked = v.linked.1;
  }

  module _ (f : CrossEntry → CrossEntry)
      (same : (x : CrossEntry) → entry_id_of (f x) ≡ entry_id_of x) where
    others-IsPending :
        (r : List CrossEntry)
        → All (λ (x : CrossEntry). (x.id == e.id) ≡ false) r
        → All (IsPending c t) r
        → All (IsPending c (set entry_id_of e.id f t)) r
    others-IsPending [] d p = tt
    others-IsPending (x ∷ r) d p =
        ((other_found f same e.id t x d.0 p.0.0, p.0.1), others-IsPending r d.1 p.1)

    written-IsLoop : IsLoop c l (set entry_id_of e.id f t) links
    written-IsLoop = record {
      keyed = set-IsKeyed entry_id_of f same e.id t v.keyed;
      rest_keyed = v.rest_keyed.1;
      pending = others-IsPending l (all_others e.id l v.rest_keyed.0) v.pending.1;
      linked = v.linked.1;
    }

    written_count :
        waits_for c (f e) ≡ false
        → waiting_count c (set entry_id_of e.id f t) + 1 ≡ waiting_count c t
    written_count w =
        ground (
          arith,
          count-set entry_id_of f e.id e (waits_for c) t v.keyed v.pending.0.0,
          v.pending.0.1,
        )

-- The two ways of an attempt, on the tables.
attempted-IsLoop :
    (c : ℕ) (e : CrossEntry) (l : List CrossEntry) (s t : Board) (k : Bool)
    → IsLoop c (e ∷ l) s.outbox s.links
    → IsAttempted c e s k t
    → IsLoop c l t.outbox t.links × (waiting_count c t.outbox + flag k ≡ waiting_count c s.outbox)
attempted-IsLoop c e l s t true v a = (
  subst (λ x. IsLoop c l x t.links) (sym a.outbox)
      (subst (IsLoop c l (set entry_id_of e.id a.f s.outbox)) (sym a.links)
        (written-IsLoop c e l s.outbox s.links v a.f a.same)),
  ap (λ x. waiting_count c x + 1) a.outbox
      ∙ written_count c e l s.outbox s.links v a.f a.same (a.left refl),
)
attempted-IsLoop c e l s t false v a = (
  subst (λ x. IsLoop c l x t.links) (sym a.outbox)
      (subst (IsLoop c l s.outbox) (sym a.links) (skipped-IsLoop c e l s.outbox s.links v)),
  ap (λ x. waiting_count c x + 0) a.outbox ∙ omega arith,
)

-- The loop returns, and counts the entries that wait no longer.
record IsCounted (c : ℕ) (s : Board) (out : Result CrossError ℕ × Board) : Type 0 where
  n : ℕ
  returns : out.0 ≡ ok n
  counted : waiting_count c out.1.outbox + n ≡ waiting_count c s.outbox

module _ (shown : ℕ → Text) (draw : ℕ → Moment) (c : ℕ) where
  entries_none :
      (e : CrossEntry) (rest : List CrossEntry) (s : Board)
      → target_handle c s ≡ none
      → (ok 0, s) ≡ deliver_entries shown draw c (e ∷ rest) s
  unfolding deliver_entries
  entries_none e rest s h = ground arith

  entries_more :
      (e : CrossEntry) (rest : List CrossEntry) (s t : Board) (o : Orchestrator) (l : Link)
      (k : Bool) (n : ℕ) (u : Board)
      → target_handle c s ≡ some o
      → lookup link_id_of e.link_id s.links ≡ some l
      → deliver_entry shown (draw e.id) c o e l s ≡ (ok k, t)
      → deliver_entries shown draw c rest t ≡ (ok n, u)
      → (ok (flag k + n), u) ≡ deliver_entries shown draw c (e ∷ rest) s
  unfolding deliver_entries lookup_link
  entries_more e rest s t o l k n u h z p q = ground arith

  entries_IsCounted :
      (l : List CrossEntry) (s : Board)
      → IsLoop c l s.outbox s.links
      → IsCounted c s (deliver_entries shown draw c l s)
  unfolding deliver_entries
  entries_IsCounted [] s v = record { n = 0; returns = refl; counted = omega arith }
  entries_IsCounted (e ∷ rest) s v = elim (Option-cases (target_handle c s)) [
    | inl h ↦
        subst (IsCounted c s) (entries_none e rest s h)
          (record { n = 0; returns = refl; counted = omega arith })
    | inr (o, h) ↦ elim (Option-cases (lookup link_id_of e.link_id s.links)) [
      | inl z ↦ absurd (false≢true (sym v.linked.0 ∙ ap is_none z))
      | inr (l, z) ↦
          let w = deliver_entry-IsTried shown (draw e.id) c o e l s in
          let out = deliver_entry shown (draw e.id) c o e l s in
          let (v', m) = attempted-IsLoop c e rest s out.1 w.k v w.attempted in
          let more = entries_IsCounted rest out.1 v' in
          let u = (deliver_entries shown draw c rest out.1).1 in
          subst (IsCounted c s)
            (entries_more e rest s out.1 o l w.k more.n u h z (ap (λ x. (x, out.1)) w.returns)
              (ap (λ x. (x, u)) more.returns))
            (record {
              n = flag w.k + more.n;
              returns = refl;
              counted = omega (arith, m, more.counted);
            })
    ]
  ]

found_row :
    (p : CrossEntry → Bool) (t : List CrossEntry) (e : CrossEntry)
    → IsKeyed entry_id_of t
    → lookup entry_id_of e.id (select p t) ≡ some e
    → (lookup entry_id_of e.id t ≡ some e) × (p e ≡ true)
found_row p t e u h = elim (Option-cases (lookup entry_id_of e.id t)) [
  | inl z ↦
      absurd
        (false≢true (ap is_none (sym h) ∙ ap is_none (lookup-select-none entry_id_of p e.id t z)))
  | inr (r, z) ↦ ground (arith, z, lookup-select entry_id_of p e.id r t u z, h)
]

-- The entries that wait, in the order of the loop.
waiting-IsLoop :
    (c : ℕ) (t : List CrossEntry) (links : List Link)
    → IsKeyed entry_id_of t
    → All (λ (e : CrossEntry). is_none (lookup link_id_of e.link_id links) ≡ false) t
    → IsLoop c (waiting_entries c t) t links
waiting-IsLoop c t links u a =
    let chosen = select (waits_for c) t in
    let l = waiting_entries c t in
    let chosen_keyed = IsKeyed-select entry_id_of (waits_for c) t u in
    let l_keyed = IsKeyed-order_by entry_id_of (λ e. e.created_at) chosen chosen_keyed in
    let pending =
      All-imp (λ (e : CrossEntry). lookup entry_id_of e.id l ≡ some e) (IsPending c t) l
        (λ e h.
          found_row (waits_for c) t e u
            (sym (lookup-order_by entry_id_of (λ x. x.created_at) e.id chosen chosen_keyed) ∙ h))
        (IsKeyed-lookup entry_id_of l l_keyed) in
    record {
      keyed = u;
      rest_keyed = l_keyed;
      pending = pending;
      linked =
          All-imp (IsPending c t)
            (λ (e : CrossEntry). is_none (lookup link_id_of e.link_id links) ≡ false) l
            (λ e h.
              All_of_find (λ (x : CrossEntry). is_none (lookup link_id_of x.link_id links) ≡ false)
                (λ x. entry_id_of x == e.id) e t a h.0)
            pending;
    }

-- With a table that has its primary key and links for all its entries, `deliver_pending` returns, and
-- the number it returns is the number of the company's entries that have left the queue.
pub deliver_pending_lem :
    (shown : ℕ → Text) (draw : ℕ → Moment) (c : ℕ) (s : Board)
    → IsKeyed entry_id_of s.outbox
    → All (λ (e : CrossEntry). is_none (lookup link_id_of e.link_id s.links) ≡ false) s.outbox
    → let (r, t) = deliver_pending shown draw c s in
      (n : ℕ) × (r ≡ ok n) × (count (waits_for c) t.outbox + n ≡ count (waits_for c) s.outbox)
unfolding deliver_pending
deliver_pending_lem shown draw c s u a =
    let w =
      entries_IsCounted shown draw c (waiting_entries c s.outbox) s
        (waiting-IsLoop c s.outbox s.links u a) in
    (w.n, w.returns, w.counted)
