-- ===== src/Prelude/Keyed.antt =====
-- A table with a primary key: one row for each key.
use Prim.Native.Nat.{ℕ, ◌+◌}
use mathlib.Core.Path.{◌≡◌, refl, sym, subst, ap, ◌∙◌}
use mathlib.Core.Logic.{inl, inr}
use mathlib.Core.Bool.{Bool, false}
use mathlib.Core.Option
use mathlib.Core.Option.{Option, none, some}
use mathlib.Core.List.{List, [], ◌∷◌, ◌++◌}
use native.Mathlib.Omega.{arith}
use agent_company_factory.Prelude.Tests.{◌==◌, if◌then◌else◌, is_none, Bool-cases}
use agent_company_factory.Prelude.Tables.{
  find, select, update, count, sum_where, All, find-append_new, All-imp,
}

abbrev pub flag : Bool → ℕ
flag b = if b then 1 else 0

module _ {ℓ} {R : Type ℓ} (key : R → ℕ) where
  -- `SELECT * ... WHERE key = k`.
  abbrev pub lookup : ℕ → List R → Option R
  lookup k = find (λ r. key r == k)

  -- `UPDATE ... SET f WHERE key = k`.
  abbrev pub set : ℕ → (R → R) → List R → List R
  set k = update (λ r. key r == k)

  -- No two rows share a key.
  abbrev pub IsKeyed : List R → Type ℓ
  IsKeyed [] = Unit
  IsKeyed (r ∷ t) = (lookup (key r) t ≡ none) × IsKeyed t

  pub key_of_lookup : (k : ℕ) (r : R) (t : List R) → lookup k t ≡ some r → key r ≡ k
  key_of_lookup k r [] h = ground arith
  key_of_lookup k r (x ∷ t) h = ground (arith, key_of_lookup k r t)

  pub IsKeyed-append :
      (r : R) (t : List R) → lookup (key r) t ≡ none → IsKeyed t → IsKeyed (t ++ r ∷ [])
  IsKeyed-append r [] h u = (refl, tt)
  IsKeyed-append r (x ∷ t) h u =
      ground (arith, find-append_new (λ y. key y == key x) r t u.0, IsKeyed-append r t)

  module _ (f : R → R) (same : (r : R) → key (f r) ≡ key r) where
    pub lookup-set :
        (j k : ℕ) (t : List R)
        → lookup j (set k f t) ≡ (if j == k then Option.map f (lookup j t) else lookup j t)
    lookup-set j k [] = ground arith
    lookup-set j k (x ∷ t) = ground (arith, same x, lookup-set j k t)

    pub set-IsKeyed : (k : ℕ) (t : List R) → IsKeyed t → IsKeyed (set k f t)
    set-IsKeyed k [] u = tt
    set-IsKeyed k (x ∷ t) u = ground (arith, same x, lookup-set (key x) k t, set-IsKeyed k t u.1)

  pub update-IsKeyed :
      (f : R → R) (p : R → Bool) (t : List R)
      → ((r : R) → key (f r) ≡ key r)
      → IsKeyed t
      → IsKeyed (update p f t)
  update-IsKeyed f p t same u = go t u
    where
      find-update : (k : ℕ) (l : List R) → lookup k l ≡ none → lookup k (update p f l) ≡ none
      find-update k [] h = refl
      find-update k (x ∷ l) h = ground (arith, same x, find-update k l)

      go : (l : List R) → IsKeyed l → IsKeyed (update p f l)
      go [] v = tt
      go (x ∷ l) v = ground (arith, same x, find-update (key x) l, go l v.1)

  -- The row's key is in the table.
  abbrev pub IsPresent : List R → R → Type 0
  IsPresent t r = is_none (lookup (key r) t) ≡ false

  pub IsPresent-All : (t : List R) → All (IsPresent t) t
  IsPresent-All [] = tt
  IsPresent-All (x ∷ t) = (
    ground arith,
    All-imp (IsPresent t) (IsPresent (x ∷ t)) t (λ r h. ground arith) (IsPresent-All t),
  )

  -- Every row is the one that its key finds.
  pub IsKeyed-lookup : (t : List R) → IsKeyed t → All (λ r. lookup (key r) t ≡ some r) t
  IsKeyed-lookup [] u = tt
  IsKeyed-lookup (x ∷ t) u = (
    ground arith,
    All-imp (λ r. lookup (key r) t ≡ some r) (λ r. lookup (key r) (x ∷ t) ≡ some r) t
        (λ r h. ground (arith, u.0)) (IsKeyed-lookup t u.1),
  )

  -- An update of a key that is not there changes nothing.
  pub set_missing : (f : R → R) (k : ℕ) (t : List R) → lookup k t ≡ none → set k f t ≡ t
  set_missing f k [] h = refl
  set_missing f k (x ∷ t) h = ground (arith, set_missing f k t)

  module _ (f : R → R) (k : ℕ) (r : R) where
    pub All-set {κ} :
        (P : R → Type κ) (t : List R)
        → IsKeyed t
        → lookup k t ≡ some r
        → P (f r)
        → All P t
        → All P (set k f t)
    All-set P [] u h p a = tt
    All-set P (x ∷ t) u h p a = elim (Bool-cases (key x == k)) [
      | inl e ↦
          let q : x ≡ r = ground arith in
          let m : lookup k t ≡ none = ground arith in
          rw e (subst (λ y. P (f y)) (sym q) p, rw (set_missing f k t m) a.1)
      | inr e ↦ rw e (a.0, All-set P t u.1 (ground arith) p a.1)
    ]

    pub count-set :
        (p : R → Bool) (t : List R)
        → IsKeyed t
        → lookup k t ≡ some r
        → count p (set k f t) + flag (p r) ≡ count p t + flag (p (f r))
    count-set p [] u h = ground arith
    count-set p (x ∷ t) u h = ground (arith, count-set p t u.1, set_missing f k t)

    pub sum_where-set :
        (p : R → Bool) (g : R → ℕ) (t : List R)
        → IsKeyed t
        → lookup k t ≡ some r
        → sum_where p g (set k f t) + (if p r then g r else 0)
          ≡ sum_where p g t + (if p (f r) then g (f r) else 0)
    sum_where-set p g [] u h = ground arith
    sum_where-set p g (x ∷ t) u h = ground (arith, sum_where-set p g t u.1, set_missing f k t)

module _ {ℓ} {R : Type ℓ} (key : R → ℕ) (g : R → R → R) where
  -- One UPDATE by key for each of the rows that were selected before.
  abbrev pub update_each : List R → List R → List R
  update_each [] t = t
  update_each (r ∷ rs) t = update_each rs (set key (key r) (g r) t)

  -- No selected row has the key of `x`.
  abbrev pub IsAbsent : R → List R → Type 0
  IsAbsent x [] = Unit
  IsAbsent x (r ∷ rs) = ((key x == key r) ≡ false) × IsAbsent x rs

  update_each-cons :
      (x : R) (rs t : List R) → IsAbsent x rs → update_each rs (x ∷ t) ≡ x ∷ update_each rs t
  update_each-cons x [] t a = refl
  update_each-cons x (r ∷ rs) t a = rw a.0 (update_each-cons x rs (set key (key r) (g r) t) a.1)

  select-IsAbsent :
      (p : R → Bool) (x y : R) (t : List R)
      → key y ≡ key x
      → lookup key (key x) t ≡ none
      → IsAbsent y (select p t)
  select-IsAbsent p x y [] e h = tt
  select-IsAbsent p x y (r ∷ t) e h = elim (Bool-cases (p r)) [
    | inl q ↦ rw q (ground arith, select-IsAbsent p x y t e (ground arith))
    | inr q ↦ rw q (select-IsAbsent p x y t e (ground arith))
  ]

  set-head :
      (x : R) (t : List R) → lookup key (key x) t ≡ none → set key (key x) (g x) (x ∷ t) ≡ g x x ∷ t
  set-head x t h = ground (arith, set_missing key (g x) (key x) t h)

  -- The row-by-row loop over a selection does what one UPDATE with the condition does.
  pub update_each-select :
      (p : R → Bool) (t : List R)
      → ((r : R) → key (g r r) ≡ key r)
      → IsKeyed key t
      → update_each (select p t) t ≡ update p (λ r. g r r) t
  update_each-select p [] same u = refl
  update_each-select p (x ∷ t) same u = elim (Bool-cases (p x)) [
    | inl q ↦ rw q (
        ap (update_each (select p t)) (set-head x t u.0)
        ∙ update_each-cons (g x x) (select p t) t (select-IsAbsent p x (g x x) t (same x) u.0)
        ∙ ap (λ l. g x x ∷ l) (update_each-select p t same u.1))
    | inr q ↦ rw q (
        update_each-cons x (select p t) t (select-IsAbsent p x x t refl u.0)
        ∙ ap (λ l. x ∷ l) (update_each-select p t same u.1))
  ]
