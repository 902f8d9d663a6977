-- ===== src/Identity/Chart.antt =====
-- The org chart: chains of managers that end, and the walks of modules/identity/org.py along them.
use mathlib.Core.Path.{subst, sym, ap, ◌∙◌}
use agent_company_factory.Prelude.{
  ◌==◌, is_none, eq_of_==, Bool-cases, Option-cases, ℕ, zero, suc, ◌+◌, ◌<◌, ◌≡◌, sym, ap, ◌∙◌, ◌⊎◌,
  inl, inr, Bool, true, false, none, some, List, arith,
}
use agent_company_factory.Identity.Model.{Agent, manager, Walk, found, out_of_fuel, depth_from}
use agent_company_factory.Identity.Reassign.{meets}

-- The chain of managers above an agent ends.
pub data Grounded (t : List Agent) : ℕ → Type 0 where
  root : (k : ℕ) → manager t k ≡ none → Grounded t k
  under : (k m : ℕ) → manager t k ≡ some m → Grounded t m → Grounded t k

abbrev pub IsAcyclic : List Agent → Type 0
IsAcyclic t = (k : ℕ) → Grounded t k

-- The agent `a` is above the agent `k`, at any distance.
pub data Above (t : List Agent) (a : ℕ) : ℕ → Type 0 where
  direct : (k : ℕ) → manager t k ≡ some a → Above t a k
  higher_up : (k m : ℕ) → manager t k ≡ some m → Above t a m → Above t a k

-- Cutting edges keeps every chain finite.
pub Grounded_cut :
    (t u : List Agent) (k : ℕ)
    → ((j : ℕ) → (manager u j ≡ none) ⊎ (manager u j ≡ manager t j))
    → Grounded t k
    → Grounded u k
Grounded_cut t u k same (root _ e) = elim (same k) [ inl n ↦ root k n | inr q ↦ root k (q ∙ e) ]
Grounded_cut t u k same (under _ m e g) = elim (same k) [
  | inl n ↦ root k n
  | inr q ↦ under k m (q ∙ e) (Grounded_cut t u m same g)
]

-- Where one agent alone was moved, and its own chain ends, every chain ends.
pub Grounded_move :
    (t u : List Agent) (x k : ℕ)
    → ((j : ℕ) → (j == x) ≡ false → manager u j ≡ manager t j)
    → Grounded u x
    → Grounded t k
    → Grounded u k
Grounded_move t u x k same gx (root _ e) = elim (Bool-cases (k == x)) [
  | inl q ↦ subst (Grounded u) (sym (eq_of_== k x q)) gx
  | inr q ↦ root k (same k q ∙ e)
]
Grounded_move t u x k same gx (under _ m e g) = elim (Bool-cases (k == x)) [
  | inl q ↦ subst (Grounded u) (sym (eq_of_== k x q)) gx
  | inr q ↦ under k m (same k q ∙ e) (Grounded_move t u x m same gx g)
]

-- A walk that has ended without meeting `x` is a chain that does not use the edge above `x`.
pub Grounded_of_meets :
    (t u : List Agent) (x f c : ℕ)
    → ((j : ℕ) → (j == x) ≡ false → manager u j ≡ manager t j)
    → meets f x (some c) t ≡ some false
    → Grounded u c
unfolding meets
Grounded_of_meets t u x zero c same h = ground arith
Grounded_of_meets t u x (suc f) c same h = elim (Option-cases (manager t c)) [
  | inl n ↦ root c (same c (ground arith) ∙ n)
  | inr (d, e) ↦
      let q : (c == x) ≡ false = ground arith in
      under c d (same c q ∙ e) (Grounded_of_meets t u x f d same (ground arith))
]

unfoldable pub height : {t : List Agent} {k : ℕ} → Grounded t k → ℕ
height (root _ _) = 0
height (under _ _ _ g) = suc (height g)

-- Fuel of more than one above the height of the chain is enough: the walk of the cycle check ends.
pub meets-total :
    (t : List Agent) (x f c : ℕ) (g : Grounded t c)
    → height g + 1 < f
    → is_none (meets f x (some c) t) ≡ false
unfolding meets height
meets-total t x zero c g h = ground arith
meets-total t x (suc zero) c g h = ground arith
meets-total t x (suc (suc f)) c (root _ e) h = rw e (ground arith)
meets-total t x (suc f) c (under _ m e g) h =
    rw e (ground (arith, meets-total t x f m g (omega arith)))

abbrev pub is_lost : Walk → Bool
is_lost out_of_fuel = true
is_lost _ = false

-- Fuel of more than one above the height of the chain is enough: the walk of `depth` ends.
pub depth_from-total :
    (t : List Agent) (a f d c : ℕ) (g : Grounded t c)
    → height g + 1 < f
    → is_lost (depth_from f d a (some c) t) ≡ false
unfolding depth_from height
depth_from-total t a zero d c g h = ground arith
depth_from-total t a (suc zero) d c g h = ground arith
depth_from-total t a (suc (suc f)) d c (root _ e) h = rw e (ground arith)
depth_from-total t a (suc f) d c (under _ m e g) h =
    rw e (ground (arith, depth_from-total t a f (d + 1) m g (omega arith)))

-- What a walk of `depth` that finds the ancestor shows.
pub Above-of_depth :
    (t : List Agent) (a f d n k : ℕ) → depth_from f d a (manager t k) t ≡ found n → Above t a k
unfolding depth_from
Above-of_depth t a zero d n k h = ground arith
Above-of_depth t a (suc f) d n k h = elim (Option-cases (manager t k)) [
  | inl e ↦ ground arith
  | inr (c, e) ↦ elim (Bool-cases (c == a)) [
    | inl q ↦ direct k (e ∙ ap some (eq_of_== c a q))
    | inr q ↦ higher_up k c e (Above-of_depth t a f (d + 1) n c (ground arith))
  ]
]
