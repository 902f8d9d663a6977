-- ===== src/Identity/Reason.antt =====
-- `_validate_fire_reason` of modules/identity/org.py, on ASCII text.
use Prim.Native.Char.{code}
use agent_company_factory.Prelude.{
  ltb, leb, ◌==◌, if◌then◌else◌, length, exists, ℕ, ◌+◌, String, Bool, true, false, ◌&&◌, ◌||◌,
  Option, none, some, List, [], ◌∷◌, ◌++◌, map,
}

-- The code points of a text.
abbrev pub codes : String → List ℕ
codes String.[] = []
codes (String.◌∷◌ c s) = code c ∷ codes s

unfoldable pub is_space : ℕ → Bool
is_space c = c == 32 || (leb 9 c && leb c 13) || (leb 28 c && leb c 31)

-- The word read so far, before the words that follow; no word is empty.
unfoldable pub emit_word : List ℕ → List (List ℕ) → List (List ℕ)
emit_word [] rest = rest
emit_word (c ∷ w) rest = (c ∷ w) ∷ rest

-- `str.split()`: the words between runs of white space; `w` is the word that is being read.
unfoldable pub split_from : List ℕ → List ℕ → List (List ℕ)
unfolding is_space emit_word
split_from w [] = emit_word w []
split_from w (c ∷ cs) =
    let rest = split_from [] cs in
    let more = split_from (w ++ c ∷ []) cs in if is_space c then emit_word w rest else more

-- `" ".join(words)`
unfoldable pub join : List (List ℕ) → List ℕ
join [] = []
join (w ∷ ws) = elim ws [ [] ↦ w | _ ↦ w ++ 32 ∷ join ws ]

unfoldable pub clean : List ℕ → List ℕ
unfolding split_from join
clean text = join (split_from [] text)

unfoldable pub lower : ℕ → ℕ
lower c = if leb 65 c && leb c 90 then c + 32 else c

unfoldable pub same_text : List ℕ → List ℕ → Bool
same_text [] [] = true
same_text [] (_ ∷ _) = false
same_text (_ ∷ _) [] = false
same_text (a ∷ s) (b ∷ t) = a == b && same_text s t

unfoldable pub starts_with : List ℕ → List ℕ → Bool
starts_with [] t = true
starts_with (_ ∷ _) [] = false
starts_with (a ∷ s) (b ∷ t) = a == b && starts_with s t

-- `phrase in text`
unfoldable pub contains : List ℕ → List ℕ → Bool
unfolding starts_with
contains p [] = starts_with p []
contains p (c ∷ t) = starts_with p (c ∷ t) || contains p t

pub data ReasonError : Type 0 where
  too_short invalid : ReasonError

abbrev pub min_fire_reason_chars : ℕ
min_fire_reason_chars = 8

abbrev pub invalid_phrases : List (List ℕ)
invalid_phrases =
    codes "this is a test"
    ∷ codes "test to check"
    ∷ codes "system functionality"
    ∷ codes "no reason"
    ∷ []

abbrev pub invalid_words : List (List ℕ)
invalid_words = codes "n/a" ∷ codes "na" ∷ codes "none" ∷ codes "test" ∷ []

-- `_validate_fire_reason`
unfoldable pub validate_fire_reason : List ℕ → Option ReasonError
unfolding clean lower same_text contains
validate_fire_reason reason =
    let cleaned = clean reason in
    let lowered = map lower cleaned in
    if ltb (length cleaned) min_fire_reason_chars
    then some too_short
    else if exists (same_text lowered) invalid_words
    then some invalid
    else if exists (λ p. contains p lowered) invalid_phrases
    then some invalid
    else none
