-- ===== src/Prelude/Sorted.antt =====
-- A table with a primary key under `ORDER BY` and `WHERE`: what is found under a key.
use Prim.Native.Nat.{ℕ}
use mathlib.Core.Path.{◌≡◌, refl, ap, ◌∙◌}
use mathlib.Core.Bool.{Bool}
use mathlib.Core.Option.{none, some}
use mathlib.Core.List.{List, [], ◌∷◌}
use native.Mathlib.Omega.{arith}
use agent_company_factory.Prelude.Tests.{◌==◌, if◌then◌else◌}
use agent_company_factory.Prelude.Tables.{select, insert_by, order_by}
use agent_company_factory.Prelude.Keyed.{lookup, IsKeyed}

module _ {ℓ} {R : Type ℓ} (key : R → ℕ) where
  lookup-insert_by :
      (f : R → ℕ) (r : R) (k : ℕ) (t : List R)
      → lookup key (key r) t ≡ none
      → lookup key k (insert_by f r t) ≡ lookup key k (r ∷ t)
  lookup-insert_by f r k [] h = refl
  lookup-insert_by f r k (x ∷ t) h = ground (arith, lookup-insert_by f r k t)

  -- Sorting moves rows and loses none.
  pub lookup-order_by :
      (f : R → ℕ) (k : ℕ) (t : List R)
      → IsKeyed key t
      → lookup key k (order_by f t) ≡ lookup key k t
  lookup-order_by f k [] u = refl
  lookup-order_by f k (x ∷ t) u =
      let none_left = lookup-order_by f (key x) t u.1 in
      lookup-insert_by f x k (order_by f t) (none_left ∙ u.0)
      ∙ ap (λ o. if key x == k then some x else o) (lookup-order_by f k t u.1)

  IsKeyed-insert_by :
      (f : R → ℕ) (r : R) (t : List R)
      → lookup key (key r) t ≡ none
      → IsKeyed key t
      → IsKeyed key (insert_by f r t)
  IsKeyed-insert_by f r [] h u = (refl, tt)
  IsKeyed-insert_by f r (x ∷ t) h u =
      ground (arith, IsKeyed-insert_by f r t, lookup-insert_by f r (key x) t)

  pub IsKeyed-order_by : (f : R → ℕ) (t : List R) → IsKeyed key t → IsKeyed key (order_by f t)
  IsKeyed-order_by f [] u = tt
  IsKeyed-order_by f (x ∷ t) u =
      IsKeyed-insert_by f x (order_by f t) (lookup-order_by f (key x) t u.1 ∙ u.0)
        (IsKeyed-order_by f t u.1)

  -- What a selection has under a key.
  pub lookup-select-none :
      (p : R → Bool) (k : ℕ) (t : List R) → lookup key k t ≡ none → lookup key k (select p t) ≡ none
  lookup-select-none p k [] h = refl
  lookup-select-none p k (x ∷ t) h = ground (arith, lookup-select-none p k t)

  pub lookup-select :
      (p : R → Bool) (k : ℕ) (r : R) (t : List R)
      → IsKeyed key t
      → lookup key k t ≡ some r
      → lookup key k (select p t) ≡ (if p r then some r else none)
  lookup-select p k r [] u h = ground arith
  lookup-select p k r (x ∷ t) u h =
      ground (arith, lookup-select p k r t, lookup-select-none p k t, u.0)

  pub IsKeyed-select : (p : R → Bool) (t : List R) → IsKeyed key t → IsKeyed key (select p t)
  IsKeyed-select p [] u = tt
  IsKeyed-select p (x ∷ t) u =
      ground (arith, lookup-select-none p (key x) t u.0, IsKeyed-select p t u.1)
