-- ===== src/Prelude/Tables.antt =====
-- A database table as the list of its rows, in the order of insertion: what the SQL statements of
-- the program do to one table.
use Prim.Native.Nat.{ℕ, suc, ◌+◌}
use mathlib.Core.Path.{◌≡◌, refl, subst}
use mathlib.Core.Logic.{inl, inr}
use mathlib.Core.Bool.{Bool, true, false}
use mathlib.Core.Option.{Option, none, some}
use mathlib.Core.List.{List, [], ◌∷◌, ◌++◌}
use native.Mathlib.Omega.{arith}
use agent_company_factory.Prelude.Tests.{leb, if◌then◌else◌, Bool-cases}

module _ {ℓ} {R : Type ℓ} where
  abbrev pub length : List R → ℕ
  length [] = 0
  length (r ∷ t) = suc (length t)

  -- `SELECT ... WHERE p`, the first row.
  abbrev pub find : (R → Bool) → List R → Option R
  find p [] = none
  find p (r ∷ t) = if p r then some r else find p t

  -- `SELECT ... WHERE p`.
  abbrev pub select : (R → Bool) → List R → List R
  select p [] = []
  select p (r ∷ t) = let rest = select p t in if p r then r ∷ rest else rest

  -- `UPDATE ... SET f WHERE p`.
  abbrev pub update : (R → Bool) → (R → R) → List R → List R
  update p f [] = []
  update p f (r ∷ t) = (if p r then f r else r) ∷ update p f t

  -- `SELECT 1 ... WHERE p LIMIT 1`.
  abbrev pub exists : (R → Bool) → List R → Bool
  exists p [] = false
  exists p (r ∷ t) = if p r then true else exists p t

  -- `SELECT COUNT(*) ... WHERE p`.
  abbrev pub count : (R → Bool) → List R → ℕ
  count p [] = 0
  count p (r ∷ t) = (if p r then 1 else 0) + count p t

  -- `SELECT COALESCE(SUM(f), 0) ... WHERE p`.
  abbrev pub sum_where : (R → Bool) → (R → ℕ) → List R → ℕ
  sum_where p f [] = 0
  sum_where p f (r ∷ t) = (if p r then f r else 0) + sum_where p f t

  -- `ORDER BY f`, rows that tie in the order of the table.
  abbrev pub insert_by : (R → ℕ) → R → List R → List R
  insert_by f r [] = r ∷ []
  insert_by f r (x ∷ t) = if leb (f r) (f x) then r ∷ x ∷ t else x ∷ insert_by f r t

  abbrev pub order_by : (R → ℕ) → List R → List R
  order_by f [] = []
  order_by f (r ∷ t) = insert_by f r (order_by f t)

  -- Every row has the property.
  abbrev pub All {κ} : (R → Type κ) → List R → Type κ
  All P [] = Unit
  All P (r ∷ t) = P r × All P t

module _ {ℓ} {R : Type ℓ} where
  pub count-append : (p : R → Bool) (s t : List R) → count p (s ++ t) ≡ count p s + count p t
  count-append p [] t = omega arith
  count-append p (r ∷ s) t = omega (arith, count-append p s t)

  pub sum_where-append :
      (p : R → Bool) (f : R → ℕ) (s t : List R)
      → sum_where p f (s ++ t) ≡ sum_where p f s + sum_where p f t
  sum_where-append p f [] t = omega arith
  sum_where-append p f (r ∷ s) t = omega (arith, sum_where-append p f s t)

  pub find-append_new :
      (p : R → Bool) (r : R) (t : List R)
      → find p t ≡ none
      → find p (t ++ r ∷ []) ≡ (if p r then some r else none)
  find-append_new p r [] h = refl
  find-append_new p r (x ∷ t) h = ground (arith, find-append_new p r t)

  pub find-append_old :
      (p : R → Bool) (r : R) (t s : List R) → find p t ≡ some r → find p (t ++ s) ≡ some r
  find-append_old p r [] s h = ground arith
  find-append_old p r (x ∷ t) s h = ground (arith, find-append_old p r t s)

  -- A found row satisfies the condition.
  pub find_sound : (p : R → Bool) (r : R) (t : List R) → find p t ≡ some r → p r ≡ true
  find_sound p r [] h = ground arith
  find_sound p r (x ∷ t) h = ground (arith, find_sound p r t)

  pub All_of_find {κ} :
      (P : R → Type κ) (p : R → Bool) (r : R) (t : List R) → All P t → find p t ≡ some r → P r
  All_of_find P p r [] a h = ground arith
  All_of_find P p r (x ∷ t) a h = elim (Bool-cases (p x)) [
    | inl e ↦ let q : x ≡ r = ground arith in subst P q a.0
    | inr e ↦ All_of_find P p r t a.1 (ground arith)
  ]

  pub All-append {κ} : (P : R → Type κ) (s t : List R) → All P s → All P t → All P (s ++ t)
  All-append P [] t a b = b
  All-append P (x ∷ s) t a b = (a.0, All-append P s t a.1 b)

  pub All-update {κ} :
      (P : R → Type κ) (p : R → Bool) (f : R → R) (t : List R)
      → ((r : R) → p r ≡ true → P r → P (f r))
      → All P t
      → All P (update p f t)
  All-update P p f [] h a = tt
  All-update P p f (x ∷ t) h a = elim (Bool-cases (p x)) [
    | inl e ↦ rw e (h x e a.0, All-update P p f t h a.1)
    | inr e ↦ rw e (a.0, All-update P p f t h a.1)
  ]

  pub length-select : (p : R → Bool) (t : List R) → length (select p t) ≡ count p t
  length-select p [] = refl
  length-select p (x ∷ t) = ground (arith, length-select p t)

  -- Where the update falsifies its own condition, nothing is selected afterwards.
  pub select-update :
      (p : R → Bool) (f : R → R) (t : List R)
      → ((r : R) → p r ≡ true → p (f r) ≡ false)
      → select p (update p f t) ≡ []
  select-update p f [] h = refl
  select-update p f (x ∷ t) h = elim (Bool-cases (p x)) [
    | inl e ↦ rw e (rw (h x e) (select-update p f t h))
    | inr e ↦ rw e (rw e (select-update p f t h))
  ]

  pub All-select {κ} : (P : R → Type κ) (p : R → Bool) (t : List R) → All P t → All P (select p t)
  All-select P p [] a = tt
  All-select P p (x ∷ t) a = elim (Bool-cases (p x)) [
    | inl e ↦ rw e (a.0, All-select P p t a.1)
    | inr e ↦ rw e (All-select P p t a.1)
  ]

  pub All-imp {κ μ} :
      (P : R → Type κ) (Q : R → Type μ) (t : List R) → ((r : R) → P r → Q r) → All P t → All Q t
  All-imp P Q [] h a = tt
  All-imp P Q (x ∷ t) h a = (h x a.0, All-imp P Q t h a.1)

  pub All-both {κ μ ν} :
      (P : R → Type κ) (Q : R → Type μ) (S : R → Type ν) (t : List R)
      → ((r : R) → P r → Q r → S r)
      → All P t
      → All Q t
      → All S t
  All-both P Q S [] h a b = tt
  All-both P Q S (x ∷ t) h a b = (h x a.0 b.0, All-both P Q S t h a.1 b.1)

  pub All-of_update {κ μ} :
      (P : R → Type κ) (Q : R → Type μ) (p : R → Bool) (f : R → R) (t : List R)
      → ((r : R) → P r → Q (if p r then f r else r))
      → All P t
      → All Q (update p f t)
  All-of_update P Q p f [] h a = tt
  All-of_update P Q p f (x ∷ t) h a = (h x a.0, All-of_update P Q p f t h a.1)
