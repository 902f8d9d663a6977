-- ===== src/Connector/Allowlist.antt =====
-- modules/connector/allowlist.py. Services and actions are numbers; no name holds a colon.
use agent_company_factory.Prelude.{
  ◌==◌, if◌then◌else◌, Bool-cases, select, exists, ℕ, ◌≡◌, refl, ap, inl, inr, Bool, true, false,
  not, ◌&&◌, ◌||◌, Option, none, some, List, [], ◌∷◌, arith,
}

-- `service` alone, or `service:action`.
pub record AllowEntry : Type 0 where
  pub service : ℕ
  pub action : Option ℕ

abbrev pub same_action : Option ℕ → Option ℕ → Bool
same_action none none = true
same_action (some a) (some b) = a == b
same_action _ _ = false

abbrev pub same_entry : AllowEntry → AllowEntry → Bool
same_entry a b = a.service == b.service && same_action a.action b.action

abbrev pub has_entry : AllowEntry → List AllowEntry → Bool
has_entry e = exists (same_entry e)

-- `Allowlist.allow`
unfoldable pub allow : AllowEntry → List AllowEntry → List AllowEntry
allow e l = if has_entry e l then l else e ∷ l

-- `Allowlist.revoke`
unfoldable pub revoke_entry : AllowEntry → List AllowEntry → List AllowEntry
revoke_entry e l = select (λ x. not (same_entry e x)) l

-- `Allowlist.is_allowed`
unfoldable pub is_allowed : ℕ → ℕ → List AllowEntry → Bool
is_allowed service action l =
    has_entry (record { service = service; action = none }) l
    || has_entry (record { service = service; action = some action }) l

same_entry_refl : (e : AllowEntry) → same_entry e e ≡ true
same_entry_refl e = ground arith

has-revoked : (e : AllowEntry) (l : List AllowEntry) → has_entry e (revoke_entry e l) ≡ false
unfolding revoke_entry
has-revoked e [] = refl
has-revoked e (x ∷ l) = ground (arith, has-revoked e l)

-- Equal entries are allowed by the same list.
same_entry_trans :
    (d e x : AllowEntry) → same_entry d e ≡ false → same_entry e x ≡ true → same_entry d x ≡ false
same_entry_trans d e x h k = ground arith

-- Revoking one entry leaves every other.
has-kept :
    (e d : AllowEntry) (l : List AllowEntry)
    → same_entry d e ≡ false
    → has_entry d (revoke_entry e l) ≡ has_entry d l
unfolding revoke_entry
has-kept e d [] h = refl
has-kept e d (x ∷ l) h = elim (Bool-cases (same_entry e x)) [
  | inl q ↦ rw (q, same_entry_trans d e x h q) (has-kept e d l h)
  | inr q ↦ rw q (ap (λ b. if same_entry d x then true else b) (has-kept e d l h))
]
