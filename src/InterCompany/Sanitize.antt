-- ===== src/InterCompany/Sanitize.antt =====
-- `_sanitize` of modules/inter_company/service.py. A text has no lone surrogates.
use mathlib.Core.Path.{subst}
use agent_company_factory.Prelude.{
  ltb, leb, ◌==◌, if◌then◌else◌, Bool-cases, select, All, ℕ, ◌-◌, ◌≤◌, ◌≡◌, refl, sym, ap, ◌∙◌, inl,
  inr, Bool, true, false, not, ◌&&◌, ◌||◌, [], ◌∷◌, arith,
}
use agent_company_factory.Orchestrator.Model.{Text}
use agent_company_factory.Orchestrator.Send.{utf8_length}

-- `_CTRL_RE`
abbrev pub is_control : ℕ → Bool
is_control c = leb c 8 || c == 11 || c == 12 || (leb 14 c && leb c 31) || c == 127

-- The bytes of a code point in UTF-8.
abbrev pub char_bytes : ℕ → ℕ
char_bytes c = if ltb c 128 then 1 else if ltb c 2048 then 2 else if ltb c 65536 then 3 else 4

-- The code points that fit whole into the first `n` bytes.
unfoldable pub cut : ℕ → Text → Text
cut n [] = []
cut n (c ∷ t) = let rest = cut (n - char_bytes c) t in if leb (char_bytes c) n then c ∷ rest else []

-- `_CTRL_RE.sub("", text)`
unfoldable pub strip_controls : Text → Text
strip_controls = select (λ c. not (is_control c))

-- `_sanitize`
unfoldable pub sanitize : ℕ → Text → Text
unfolding strip_controls cut
sanitize max_bytes text =
    let cleaned = strip_controls text in
    if ltb max_bytes (utf8_length cleaned) then cut max_bytes cleaned else cleaned

cut_fits : (n : ℕ) (t : Text) → utf8_length (cut n t) ≤ n
unfolding cut
cut_fits n [] = omega arith
cut_fits n (c ∷ t) = ground (arith, cut_fits (n - char_bytes c) t)

cut_clean :
    (n : ℕ) (t : Text)
    → All (λ c. is_control c ≡ false) t
    → All (λ c. is_control c ≡ false) (cut n t)
unfolding cut
cut_clean n [] w = tt
cut_clean n (c ∷ t) w = elim (Bool-cases (leb (char_bytes c) n)) [
  | inl q ↦ rw q (w.0, cut_clean (n - char_bytes c) t w.1)
  | inr q ↦ rw q tt
]

strip_clean : (t : Text) → All (λ c. is_control c ≡ false) (strip_controls t)
unfolding strip_controls
strip_clean [] = tt
strip_clean (c ∷ t) = elim (Bool-cases (is_control c)) [
  | inl q ↦ rw q (strip_clean t)
  | inr q ↦ rw q (q, strip_clean t)
]

strip_idem : (t : Text) → All (λ c. is_control c ≡ false) t → strip_controls t ≡ t
unfolding strip_controls
strip_idem [] w = refl
strip_idem (c ∷ t) w = rw w.0 (ap (λ (l : Text). c ∷ l) (strip_idem t w.1))

short : (n : ℕ) (t : Text) → ltb n (utf8_length t) ≡ false → utf8_length t ≤ n
short n t h = ground arith

sanitize_long :
    (n : ℕ) (text : Text)
    → ltb n (utf8_length (strip_controls text)) ≡ true
    → cut n (strip_controls text) ≡ sanitize n text
unfolding sanitize
sanitize_long n text h = ground arith

sanitize_short :
    (n : ℕ) (text : Text)
    → ltb n (utf8_length (strip_controls text)) ≡ false
    → strip_controls text ≡ sanitize n text
unfolding sanitize
sanitize_short n text h = ground arith

-- What holds of a text that is clean and fits.
record IsSanitized (n : ℕ) (t : Text) : Type 0 where
  fits : utf8_length t ≤ n
  clean : All (λ c. is_control c ≡ false) t

sanitize-IsSanitized : (n : ℕ) (text : Text) → IsSanitized n (sanitize n text)
sanitize-IsSanitized n text =
    let t = strip_controls text in
    elim (Bool-cases (ltb n (utf8_length t))) [
      | inl q ↦
          subst (IsSanitized n) (sanitize_long n text q)
            (record { fits = cut_fits n t; clean = cut_clean n t (strip_clean text) })
      | inr q ↦
          subst (IsSanitized n) (sanitize_short n text q)
            (record { fits = short n t q; clean = strip_clean text })
    ]

sanitized_stays : (n : ℕ) (t : Text) → IsSanitized n t → sanitize n t ≡ t
sanitized_stays n t w =
    let same = strip_idem t w.clean in
    sym (
      sanitize_short n t
        (subst (λ x. ltb n (utf8_length x) ≡ false) (sym same) (ground (arith, w.fits))))
    ∙ same

-- A sanitized text has no more bytes in UTF-8 than the limit and no control characters but tabs and
-- line ends, and sanitizing it again changes nothing.
pub sanitize_lem :
    (n : ℕ) (text : Text)
    → (utf8_length (sanitize n text) ≤ n)
      × All (λ c. is_control c ≡ false) (sanitize n text)
      × (sanitize n (sanitize n text) ≡ sanitize n text)
sanitize_lem n text =
    let w = sanitize-IsSanitized n text in (w.fits, w.clean, sanitized_stays n (sanitize n text) w)
