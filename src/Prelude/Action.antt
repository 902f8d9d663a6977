-- ===== src/Prelude/Action.antt =====
-- Methods that change an object and may raise. What was written before a raise stays written,
-- unless a transaction rolls it back, so the state comes back beside the error too.
use mathlib.Core.Path.{◌≡◌, refl, ap}
use mathlib.Core.Bool.{Bool, true, false, false≢true}

pub data Result (E A : Type 0) : Type 0 where
  ok : A → Result E A
  err : E → Result E A

abbrev pub Action : Type 0 → Type 0 → Type 0 → Type 0
Action S E A = S → Result E A × S

module _ {S E A : Type 0} where
  abbrev pub pure : A → Action S E A
  pure a s = (ok a, s)

  abbrev pub raise : E → Action S E A
  raise e s = (err e, s)

  abbrev pub gets : (S → A) → Action S E A
  gets f s = (ok (f s), s)

  abbrev pub lift : Result E A → Action S E A
  lift r s = (r, s)

module _ {S E : Type 0} where
  abbrev pub modify : (S → S) → Action S E (Unit {0})
  modify f s = (ok tt, f s)

  abbrev pub raise_if : Bool → E → Action S E (Unit {0})
  raise_if true e = raise e
  raise_if false e = pure tt

infixl 5 ◌>>=◌ ◌>>◌
abbrev pub ◌>>=◌ : {S E A B : Type 0} → Action S E A → (A → Action S E B) → Action S E B
◌>>=◌ m f s = let (r, s') = m s in elim r [ ok a ↦ f a s' | err e ↦ (err e, s') ]

abbrev pub ◌>>◌ : {S E B : Type 0} → Action S E (Unit {0}) → Action S E B → Action S E B
m >> k = m >>= λ _. k

-- The value of a call that did not raise.
abbrev pub is_ok : {E A : Type 0} → Result E A → Bool
is_ok (ok _) = true
is_ok (err _) = false

pub ok_of_is_ok : {E A : Type 0} (m : Result E A) → is_ok m ≡ true → (a : A) × (m ≡ ok a)
ok_of_is_ok (ok a) h = (a, refl)
ok_of_is_ok (err e) h = absurd (false≢true h)

-- A call whose first part did not raise goes on from the state that the part left.
pub bind_ok :
    {S E A B : Type 0} (m : Action S E A) (f : A → Action S E B) {a : A} {s s' : S}
    → m s ≡ (ok a, s')
    → (m >>= f) s ≡ f a s'
bind_ok m f {s} h = ap (λ z. elim (z.0) [ ok a ↦ f a (z.1) | err e ↦ (err e, z.1) ]) h
