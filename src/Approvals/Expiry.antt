-- ===== src/Approvals/Expiry.antt =====
-- The timeout sweep: the row-by-row loop is one conditional UPDATE, never raises on a valid table,
-- and has nothing left to do when it is run again.
use agent_company_factory.Prelude.{
  is_none, length, select, update, count, All, All_of_find, All-update, length-select,
  select-update, All-select, All-imp, ℕ, suc, ◌≡◌, refl, sym, ap, ◌∙◌, true, false, false≢true,
  Option, none, some, List, [], ◌∷◌, arith,
}
use agent_company_factory.Prelude.Keyed.{
  lookup, set, lookup-set, update-IsKeyed, IsPresent, IsPresent-All, update_each,
  update_each-select,
}
use agent_company_factory.Prelude.Action.{ok, err, pure, ◌>>=◌, ◌>>◌, bind_ok}
use agent_company_factory.Approvals.Model.{Approval, Row, Policy}
use agent_company_factory.Approvals.Service.{Approvals, Call, id_of}
use agent_company_factory.Approvals.Timeouts.{
  is_overdue, expire, read_back, expire_rows, transaction, announce_all, process_timeouts,
}
use agent_company_factory.Approvals.Invariant.{IsSound, IsValid, IsReadable, row_to_approval_total}

expire-IsSound :
    (p : Policy) (now : ℕ) (r : Row)
    → is_overdue now r ≡ true
    → IsSound r
    → IsSound (expire p now r r)
expire-IsSound p now r o h = ground arith

read_back_ok :
    (o : Option Row) (s : Approvals)
    → is_none o ≡ false
    → ((r : Row) → o ≡ some r → IsReadable r)
    → (a : Approval) × (read_back o s ≡ (ok a, s))
read_back_ok none s n h = absurd (false≢true (sym n))
read_back_ok (some r) s n h =
    let (a, e) = row_to_approval_total r (h r refl) in (a, ap (λ m. (m, s)) e)

-- What the loop leaves, with the approvals that it read back.
expire_rows_lem :
    (p : Policy) (now : ℕ) (rs : List Row) (s : Approvals)
    → All IsReadable s.rows
    → All (IsPresent id_of s.rows) rs
    → (l : List Approval) × (expire_rows p now rs s
        ≡ (ok l, record s { rows = update_each id_of (expire p now) rs s.rows }))
      × (length l ≡ length rs)
unfolding expire_rows
expire_rows_lem p now [] s a b = ([], refl, refl)
expire_rows_lem p now (r ∷ rs) s a b =
    let k = r.request_id in
    let f = expire p now r in
    let t = set id_of k f s.rows in
    let s' : Approvals = record s { rows = t } in
    let readable : All IsReadable t = All-update IsReadable _ f s.rows (λ x _ h. h) a in
    let there = lookup-set id_of f (λ x. refl) in
    let (v, e) =
      read_back_ok (lookup id_of k t) s' (ground (arith, there k k s.rows))
        (λ x h. All_of_find IsReadable _ x t readable h) in
    let (l, e', n) = expire_rows_lem p now rs s' readable (
      All-imp (IsPresent id_of s.rows) (IsPresent id_of t) rs
        (λ x h. ground (arith, there (id_of x) k s.rows)) b.1) in
    (
      v ∷ l,
      bind_ok (read_back (lookup id_of k t)) (λ a'. expire_rows p now rs >>= λ l'. pure (a' ∷ l')) e
          ∙ bind_ok (expire_rows p now rs) (λ l'. pure (v ∷ l')) e',
      ap suc n,
    )

announce_all_ok : (l : List Approval) (s : Approvals) → (announce_all l s).0 ≡ ok tt
unfolding announce_all
announce_all_ok [] s = refl
announce_all_ok (a ∷ l) s = announce_all_ok l _

rows-announce_all : (l : List Approval) (s : Approvals) → (announce_all l s).1.rows ≡ s.rows
unfolding announce_all
rows-announce_all [] s = refl
rows-announce_all (a ∷ l) s = rows-announce_all l _

transaction_ok :
    {A : Type 0} (m : Call A) {a : A} {s s' : Approvals}
    → m s ≡ (ok a, s')
    → transaction m s ≡ (ok a, s')
transaction_ok m {s = s} h =
    ap (λ z. elim (z.0) [ ok a ↦ (ok a, z.1) | err e ↦ (err e, record (z.1) { rows = s.rows }) ]) h

-- On a valid table the sweep never raises, reports the number of overdue rows, and does to the
-- table what one UPDATE of every overdue row does.
pub process_timeouts_lem :
    (p : Policy) (now : ℕ) (s : Approvals)
    → IsValid s
    → ((process_timeouts p now s).0 ≡ ok (count (is_overdue now) s.rows))
      × ((process_timeouts p now s).1.rows ≡ update (is_overdue now) (λ r. expire p now r r) s.rows)
unfolding process_timeouts
process_timeouts_lem p now s v =
    let readable = All-imp IsSound IsReadable s.rows (λ r h. h.readable) v.sound in
    let due = select (is_overdue now) s.rows in
    let present =
      All-select (IsPresent id_of s.rows) (is_overdue now) s.rows (IsPresent-All id_of s.rows) in
    let (l, e, n) = expire_rows_lem p now due s readable present in
    let s' : Approvals = record s { rows = update_each id_of (expire p now) due s.rows } in
    let e' = transaction_ok (expire_rows p now due) e in
    let whole : process_timeouts p now s ≡ (ok (length l), (announce_all l s').1) =
      bind_ok (transaction (expire_rows p now due)) (λ l'. announce_all l' >> pure (length l')) e'
      ∙ bind_ok (announce_all l) (λ _. pure (length l)) {a = tt}
          (λ i. (announce_all_ok l s' i, (announce_all l s').1)) in
    (
      ap (λ z. z.0) whole ∙ ap ok (n ∙ length-select (is_overdue now) s.rows),
      ap (λ z. z.1.rows) whole
          ∙ rows-announce_all l s'
          ∙ update_each-select id_of (expire p now) (is_overdue now) s.rows (λ r. refl) v.keyed,
    )

-- The sweep keeps the invariant.
pub process_timeouts-IsValid :
    (p : Policy) (now : ℕ) (s : Approvals) → IsValid s → IsValid (process_timeouts p now s).1
process_timeouts-IsValid p now s v =
    let e = (process_timeouts_lem p now s v).1 in
    record {
      keyed = rw e (
          update-IsKeyed id_of (λ r. expire p now r r) (is_overdue now) s.rows (λ r. refl) v.keyed);
      sound = rw e (
          All-update IsSound (is_overdue now) (λ r. expire p now r r) s.rows
            (λ r o h. expire-IsSound p now r o h) v.sound);
    }

expire_not_overdue :
    (p : Policy) (now later : ℕ) (r : Row) → is_overdue later (expire p now r r) ≡ false
expire_not_overdue p now later r = ground arith

sweep_nothing :
    (p : Policy) (now : ℕ) (s : Approvals)
    → select (is_overdue now) s.rows ≡ []
    → process_timeouts p now s ≡ (ok 0, s)
unfolding process_timeouts
sweep_nothing p now s h =
    ap (λ l. (transaction (expire_rows p now l) >>= λ l'. announce_all l' >> pure (length l')) s) h

-- A second sweep at the same reading of the clock finds nothing and changes nothing.
pub process_timeouts_idem :
    (p : Policy) (now : ℕ) (s : Approvals)
    → IsValid s
    → let t = (process_timeouts p now s).1 in process_timeouts p now t ≡ (ok 0, t)
process_timeouts_idem p now s v =
    let overdue = λ (l : List Row). select (is_overdue now) l in
    sweep_nothing p now (process_timeouts p now s).1 (
      ap overdue (process_timeouts_lem p now s v).1
      ∙ select-update (is_overdue now) (λ r. expire p now r r) s.rows
          (λ r o. expire_not_overdue p now now r))
