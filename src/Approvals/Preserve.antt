-- ===== src/Approvals/Preserve.antt =====
-- Every method of the approval service keeps the invariant.
use agent_company_factory.Prelude.{
  or_else, Bool-cases, Option-cases, All_of_find, All-append, ℕ, String, ◌≡◌, refl, ◌⊎◌, inl, inr,
  Bool, true, false, Option, none, some, [], ◌∷◌, ◌++◌, arith,
}
use agent_company_factory.Prelude.Keyed.{lookup, set, IsKeyed-append, set-IsKeyed, All-set}
use agent_company_factory.Prelude.Action.{ok}
use agent_company_factory.Approvals.Model.{Decision, make_route, Row, Policy}
use agent_company_factory.Approvals.Service.{
  Event, Approvals, id_of, is_pending, row_to_approval, Request, new_row, create, request,
}
use agent_company_factory.Approvals.Decide.{decide_row, announce, decide, cancels, cancel}
use agent_company_factory.Approvals.Invariant.{
  IsSound, IsValid, decide_row-IsSound, cancels-IsSound, new_row-IsSound, id_of-decide_row,
}

-- What follows the transaction leaves the table alone.
pub rows-announce :
    (b : Bool) (e : Event) (o : Option Row) (s : Approvals) → (announce b e o s).1.rows ≡ s.rows
unfolding announce
rows-announce b e none s = refl
rows-announce b e (some r) s = ground arith

IsValid-of_rows : (s t : Approvals) → t.rows ≡ s.rows → IsValid s → IsValid t
IsValid-of_rows s t e v = record { keyed = rw e v.keyed; sound = rw e v.sound }

pub rows-decide :
    (now rid decider : ℕ) (d : Decision) (text : Option String) (s : Approvals) (row : Row)
    → lookup id_of rid s.rows ≡ some row
    → is_pending row.status ≡ true
    → (decide now rid decider d text s).1.rows
      ≡ set id_of rid (decide_row row now decider d text).0 s.rows
unfolding decide
rows-decide now rid decider d text s row e p = rw (e, decide) (rw p (rows-announce _ _ _ _))

pub decide_refused :
    (now rid decider : ℕ) (d : Decision) (text : Option String) (s : Approvals)
    → (lookup id_of rid s.rows ≡ none)
      ⊎ ((row : Row) × (lookup id_of rid s.rows ≡ some row) × (is_pending row.status ≡ false))
    → (decide now rid decider d text s).1 ≡ s
unfolding decide
decide_refused now rid decider d text s (inl e) = ground arith
decide_refused now rid decider d text s (inr (row, e, p)) = ground arith

pub decide-IsValid :
    (now rid decider : ℕ) (d : Decision) (text : Option String) (s : Approvals)
    → IsValid s
    → IsValid (decide now rid decider d text s).1
decide-IsValid now rid decider d text s v = elim (Option-cases (lookup id_of rid s.rows)) [
  | inl e ↦ rw (decide_refused now rid decider d text s (inl e)) v
  | inr (row, e) ↦ elim (Bool-cases (is_pending row.status)) [
    | inl p ↦
        let f = (decide_row row now decider d text).0 in
        let k = rows-decide now rid decider d text s row e p in
        record {
          keyed =
              rw k
                (set-IsKeyed id_of f (id_of-decide_row row now decider d text) rid s.rows v.keyed);
          sound = rw k (
              All-set id_of f rid row IsSound s.rows v.keyed e
                (decide_row-IsSound row now decider d text
                  (All_of_find IsSound _ row s.rows v.sound e) p)
                v.sound);
        }
    | inr p ↦ rw (decide_refused now rid decider d text s (inr (row, e, p))) v
  ]
]

pub rows-cancel :
    (now rid by : ℕ) (reason : String) (s : Approvals) (row : Row)
    → lookup id_of rid s.rows ≡ some row
    → is_pending row.status ≡ true
    → (cancel now rid by reason s).1.rows ≡ set id_of rid (cancels now by reason) s.rows
unfolding cancel
rows-cancel now rid by reason s row e p = rw (e, cancel) (rw p (rw rows-announce))

pub cancel_refused :
    (now rid by : ℕ) (reason : String) (s : Approvals)
    → (lookup id_of rid s.rows ≡ none)
      ⊎ ((row : Row) × (lookup id_of rid s.rows ≡ some row) × (is_pending row.status ≡ false))
    → (cancel now rid by reason s).1 ≡ s
unfolding cancel
cancel_refused now rid by reason s (inl e) = ground arith
cancel_refused now rid by reason s (inr (row, e, p)) = ground arith

pub cancel-IsValid :
    (now rid by : ℕ) (reason : String) (s : Approvals)
    → IsValid s
    → IsValid (cancel now rid by reason s).1
cancel-IsValid now rid by reason s v = elim (Option-cases (lookup id_of rid s.rows)) [
  | inl e ↦ rw (cancel_refused now rid by reason s (inl e)) v
  | inr (row, e) ↦ elim (Bool-cases (is_pending row.status)) [
    | inl p ↦
        let k = rows-cancel now rid by reason s row e p in
        record {
          keyed = rw k (set-IsKeyed id_of (cancels now by reason) (λ r. refl) rid s.rows v.keyed);
          sound = rw k (
              All-set id_of (cancels now by reason) rid row IsSound s.rows v.keyed e
                (cancels-IsSound row now by reason (All_of_find IsSound _ row s.rows v.sound e) p)
                v.sound);
        }
    | inr p ↦ rw (cancel_refused now rid by reason s (inr (row, e, p))) v
  ]
]

pub rows-create :
    (p : Policy) (now rid : ℕ) (q : Request) (s : Approvals)
    → (create p now rid q s).1.rows ≡ s.rows ++ new_row p now rid q ∷ []
unfolding create
rows-create p now rid q s = ground arith

-- A request for a known identifier returns the stored approval and changes nothing at all.
pub request_known :
    (p : Policy) (now fresh : ℕ) (q : Request) (s : Approvals) (row : Row)
    → lookup id_of (or_else q.request_id fresh) s.rows ≡ some row
    → request p now fresh q s ≡ (row_to_approval row, s)
unfolding request
request_known p now fresh q s row e = rw (e, request)

pub rows-request :
    (p : Policy) (now fresh : ℕ) (q : Request) (s : Approvals)
    → lookup id_of (or_else q.request_id fresh) s.rows ≡ none
    → (request p now fresh q s).1.rows ≡ s.rows ++ new_row p now (or_else q.request_id fresh) q ∷ []
unfolding request
rows-request p now fresh q s e = rw (e, request) (rows-create p now _ q s)

pub request-IsValid :
    (p : Policy) (now fresh : ℕ) (q : Request) (s : Approvals)
    → make_route q.route ≡ ok (q.route)
    → IsValid s
    → IsValid (request p now fresh q s).1
request-IsValid p now fresh q s built v =
    let rid = or_else q.request_id fresh in
    elim (Option-cases (lookup id_of rid s.rows)) [
      | inl e ↦
          let k = rows-request p now fresh q s e in
          record {
            keyed =
                rw k
                  (IsKeyed-append id_of (new_row p now rid q) s.rows (unfold new_row in e) v.keyed);
            sound =
                rw k (All-append IsSound s.rows _ v.sound (new_row-IsSound p now rid q built, tt));
          }
      | inr (row, e) ↦ rw (request_known p now fresh q s row e) v
    ]
