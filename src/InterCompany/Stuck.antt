-- ===== src/InterCompany/Stuck.antt =====
-- What the uniqueness of the table does to revocations.
use mathlib.Core.Path.{subst}
use agent_company_factory.Prelude.{
  ◌==◌, Bool-cases, select, ℕ, ◌+◌, String, ◌≡◌, sym, ap, ◌∙◌, ◌⊎◌, inl, inr, true, ◌||◌, Option,
  some, List, [], ◌∷◌, arith,
}
use agent_company_factory.Prelude.Keyed.{lookup, set, IsKeyed}
use agent_company_factory.Prelude.Action.{Result, ok, err, pure, ◌>>=◌, ◌>>◌, bind_ok}
use agent_company_factory.InterCompany.Model.{
  link_revoked, Link, LinkError, integrity, Board, link_id_of,
}
use agent_company_factory.InterCompany.Links.{
  OnLinks, has_clash, get_link, decided_link, write_status, require_status, is_live, revoke,
  concerns, revoke_rows, revoke_for_company,
}
use agent_company_factory.Prelude.Sorted.{lookup-select}

-- Another link between the same companies that was revoked before.
abbrev pub HasRevoked : Link → List Link → Type 0
HasRevoked l t = has_clash (record l { status = link_revoked }) t ≡ true

write_stuck :
    (now by : ℕ) (text : Option String) (l : Link) (s : Board)
    → HasRevoked l s.links
    → write_status now link_revoked by text l s ≡ (err integrity, s)
unfolding write_status
write_stuck now by text l s h = ground (arith, h)

get_link_found :
    (k : ℕ) (s : Board) (l : Link) → lookup link_id_of k s.links ≡ some l → get_link k s ≡ (ok l, s)
unfolding get_link
get_link_found k s l h = ground arith

is_live_passes :
    (l : Link) (s : Board) → is_live l.status ≡ true → require_status is_live l s ≡ (ok tt, s)
is_live_passes l s h = ground arith

-- A revocation keeps the reasons for a clash.
clash_stays :
    (now by k : ℕ) (text : Option String) (l : Link) (t : List Link)
    → HasRevoked l t
    → HasRevoked l (set link_id_of k (decided_link now link_revoked by text) t)
clash_stays now by k text l [] h = h
clash_stays now by k text l (x ∷ t) h = ground (arith, h, clash_stays now by k text l t)

-- What follows a part that raises is not run.
fails_on :
    {A B : Type 0} (m : OnLinks A) (f : A → OnLinks B) (e : LinkError) (s : Board)
    → (m s).0 ≡ err e
    → ((m >>= f) s).0 ≡ err e
fails_on {A} {B} m f e s h = go (m s) h
  where
    go :
        (x : Result LinkError A × Board)
        → x.0 ≡ err e
        → (◌≡◌ {A = Result LinkError B}
            (let r : Result LinkError B × Board = elim x.0 [
              | ok a ↦ f a x.1
              | err z ↦ (err z, x.1)
            ] in
              r.0)
            (err e))
    go (ok a, t) q = ground arith
    go (err z, t) q = ground arith

write_either :
    (now by : ℕ) (text : Option String) (x : Link) (s : Board)
    → (write_status now link_revoked by text x s ≡ (err integrity, s))
      ⊎ (write_status now link_revoked by text x s ≡ (
        ok (decided_link now link_revoked by text x),
        record s { links = set link_id_of x.id (decided_link now link_revoked by text) s.links },
      ))
unfolding write_status
write_either now by text x s =
    elim (Bool-cases (has_clash (decided_link now link_revoked by text x) s.links)) [
      | inl q ↦ inl (ground (arith, q))
      | inr q ↦ inr (ground (arith, q))
    ]

module _ (now by : ℕ) (l : Link) where
  abbrev one_row : Link → OnLinks Link
  one_row = write_status now link_revoked by (some "company_closed")

  abbrev more_rows : List Link → Link → OnLinks ℕ
  more_rows rest _ = revoke_rows now by rest >>= λ n. pure (n + 1)

  -- A loop over rows that meets the link fails, since the only error is the one of the database.
  rows_stuck :
      (rows : List Link) (s : Board)
      → HasRevoked l s.links
      → lookup link_id_of l.id rows ≡ some l
      → (revoke_rows now by rows s).0 ≡ err integrity
  unfolding revoke_rows
  rows_stuck [] s z h = ground arith
  rows_stuck (x ∷ rest) s z h = elim (Bool-cases (link_id_of x == l.id)) [
    | inl q ↦
        let e : x ≡ l = ground arith in
        subst (λ y. ((one_row y >>= more_rows rest) s).0 ≡ err integrity) (sym e)
          (fails_on (one_row l) (more_rows rest) integrity s
            (ap (λ o. o.0) (write_stuck now by (some "company_closed") l s z)))
    | inr q ↦ elim (write_either now by (some "company_closed") x s) [
      | inl f ↦ fails_on (one_row x) (more_rows rest) integrity s (ap (λ o. o.0) f)
      | inr f ↦
          let deep : lookup link_id_of l.id rest ≡ some l = ground arith in
          ap (λ o. o.0) (bind_ok (one_row x) (more_rows rest) f)
          ∙ fails_on (revoke_rows now by rest) (λ n. pure (n + 1)) integrity _
              (rows_stuck rest _ (clash_stays now by x.id (some "company_closed") l s.links z) deep)
    ]
  ]

  company_stuck_at :
      (c : ℕ) (s : Board)
      → (revoke_rows now by (select (concerns c) s.links) s).0 ≡ err integrity
      → revoke_for_company now c by s ≡ (err integrity, s)
  unfolding revoke_for_company
  company_stuck_at c s h = ground arith

  -- `revoke` of a live link whose companies have a revoked link in the same direction raises the
  -- database's error and changes nothing, and so does `revoke_for_company` for one of the two companies.
  pub revoke_stuck :
      (c : ℕ) (reason : String) (s : Board)
      → IsKeyed link_id_of s.links
      → lookup link_id_of l.id s.links ≡ some l
      → is_live l.status ≡ true
      → (l.from_company == c || l.to_company == c) ≡ true
      → HasRevoked l s.links
      → (revoke now l.id by reason s ≡ (err integrity, s))
        × (revoke_for_company now c by s ≡ (err integrity, s))
  unfolding revoke
  revoke_stuck c reason s u h w d z = (
    bind_ok (get_link l.id)
          (λ x. require_status is_live x >> write_status now link_revoked by (some reason) x)
          (get_link_found l.id s l h)
        ∙ bind_ok (require_status is_live l) (λ _. write_status now link_revoked by (some reason) l)
            (is_live_passes l s w)
        ∙ write_stuck now by (some reason) l s z,
    company_stuck_at c s (
        rows_stuck (select (concerns c) s.links) s z
          (lookup-select link_id_of (concerns c) l.id l s.links u h ∙ ground (arith, w, d))),
  )
