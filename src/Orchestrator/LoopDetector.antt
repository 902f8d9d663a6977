-- ===== src/Orchestrator/LoopDetector.antt =====
-- modules/orchestrator/loop_detector.py. A text is the list of its code points, in ASCII; a
-- similarity is a fraction, and the configured one is in thousandths.
use agent_company_factory.Prelude.{
  ltb, leb, ◌==◌, if◌then◌else◌, length, exists, count, ℕ, zero, suc, ◌+◌, ◌-◌, ◌*◌, Bool, true,
  false, not, ◌&&◌, Option, none, some, List, [], ◌∷◌, ◌++◌, map,
}
use agent_company_factory.Identity.Reason.{split_from, lower, same_text}
use agent_company_factory.Orchestrator.Model.{Text, at}

abbrev pub has_word : List ℕ → List (List ℕ) → Bool
has_word w = exists (same_text w)

-- `set(words)`
unfoldable pub word_set : List (List ℕ) → List (List ℕ)
word_set [] = []
word_set (w ∷ ws) = let rest = word_set ws in if has_word w rest then rest else w ∷ rest

unfoldable pub words_of : Text → List (List ℕ)
unfolding word_set split_from lower
words_of text = word_set (split_from [] (map lower text))

-- `_jaccard(a, b) >= similarity`, for a similarity above 0: the size of the intersection over that of
-- the union.
unfoldable pub similar : ℕ → Text → Text → Bool
unfolding words_of
similar similarity a b =
    let sa = words_of a in
    let sb = words_of b in
    let inter = count (λ w. has_word w sb) sa in
    let union = length sa + length sb - inter in
    ltb 0 union && leb (similarity * union) (1000 * inter)

pub record LoopDetectorConfig : Type 0 where
  pub structural_window : ℕ
  pub structural_threshold : ℕ
  pub pingpong_threshold : ℕ
  pub semantic_window : ℕ
  pub semantic_similarity : ℕ
  pub semantic_threshold : ℕ

abbrev pub default_loop_config : LoopDetectorConfig
default_loop_config = record {
  structural_window = 12;
  structural_threshold = 5;
  pingpong_threshold = 3;
  semantic_window = 5;
  semantic_similarity = 900;
  semantic_threshold = 3;
}

-- From whom, to whom.
pub record Edge : Type 0 where
  pub sender : Option ℕ
  pub recipient : ℕ

pub record LoopDetector : Type 0 where
  pub cfg : LoopDetectorConfig
  pub edges : ℕ → List Edge
  pub pair_edges : ℕ → ℕ → List Edge
  pub contents : ℕ → List Text

abbrev pub same_sender : Option ℕ → Option ℕ → Bool
same_sender none none = true
same_sender none (some _) = false
same_sender (some _) none = false
same_sender (some a) (some b) = a == b

abbrev pub same_edge : Edge → Edge → Bool
same_edge e e' = same_sender e.sender e'.sender && e.recipient == e'.recipient

abbrev pub drop_first {ℓ} : {A : Type ℓ} → ℕ → List A → List A
drop_first zero l = l
drop_first (suc n) [] = []
drop_first (suc n) (x ∷ l) = drop_first n l

-- `list(win)[-n:]`, for a positive `n`, and what a `deque` of that length keeps.
abbrev pub last_of {ℓ} : {A : Type ℓ} → ℕ → List A → List A
last_of n l = drop_first (length l - n) l

-- `append` to a `deque` with a bound.
abbrev pub append_bounded {ℓ} : {A : Type ℓ} → ℕ → A → List A → List A
append_bounded n x l = last_of n (l ++ x ∷ [])

abbrev pub all_of {ℓ} : {A : Type ℓ} → (A → Bool) → List A → Bool
all_of p [] = true
all_of p (x ∷ l) = p x && all_of p l

-- The same edge as often as the threshold asks.
unfoldable pub is_hammering : LoopDetectorConfig → Edge → List Edge → Bool
is_hammering cfg e win =
    leb cfg.structural_threshold (length win)
    && all_of (same_edge e) (last_of cfg.structural_threshold win)

-- Whether the edges are `a`, `b`, `a`, `b`, ...
abbrev pub alternates : Edge → Edge → List Edge → Bool
alternates a b [] = true
alternates a b (e ∷ l) = same_edge e a && alternates b a l

unfoldable pub is_pingpong : LoopDetectorConfig → List Edge → Bool
is_pingpong cfg win =
    let n = cfg.pingpong_threshold + cfg.pingpong_threshold in
    leb n (length win) && elim (last_of n win) [
      | [] ↦ false
      | a ∷ rest ↦ elim rest [
        | [] ↦ false
        | b ∷ more ↦ not (same_edge a b) && alternates a b (a ∷ b ∷ more)
      ]
    ]

abbrev pub low : ℕ → ℕ → ℕ
low a b = if leb a b then a else b

abbrev pub high_of : ℕ → ℕ → ℕ
high_of a b = if leb a b then b else a

abbrev pub at_pair : ℕ → ℕ → List Edge → (ℕ → ℕ → List Edge) → ℕ → ℕ → List Edge
at_pair a b v f i j = if i == a && j == b then v else f i j

-- `LoopDetector._record_edge`
unfoldable pub record_edge : Edge → LoopDetector → Bool × LoopDetector
unfolding is_hammering is_pingpong
record_edge e d =
    let win = append_bounded d.cfg.structural_window e (d.edges e.recipient) in
    let d' : LoopDetector = record d { edges = at e.recipient win d.edges } in
    if is_hammering d.cfg e win then (true, d') else elim e.sender [
      | none ↦ (false, d')
      | some s ↦
          let i = low s e.recipient in
          let j = high_of s e.recipient in
          let pair_win = append_bounded d.cfg.structural_window e (d.pair_edges i j) in
          (is_pingpong d.cfg pair_win, record d' { pair_edges = at_pair i j pair_win d.pair_edges })
    ]

-- `LoopDetector._record_content`
unfoldable pub record_content : ℕ → Text → LoopDetector → Bool × LoopDetector
unfolding similar
record_content recipient content d =
    let win = d.contents recipient in
    let n = count (λ prev. similar d.cfg.semantic_similarity prev content) win in
    (
      leb (d.cfg.semantic_threshold - 1) n,
      record d {
        contents = at recipient (append_bounded d.cfg.semantic_window content win) d.contents;
      },
    )

pub data LoopKind : Type 0 where
  structural semantic : LoopKind

-- `LoopDetector.check`
unfoldable pub check : Option ℕ → ℕ → Text → LoopDetector → Option LoopKind × LoopDetector
check sender recipient content d =
    let (looped, d') = record_edge (record { sender = sender; recipient = recipient }) d in
    let (again, d'') = record_content recipient content d' in
    if looped then (some structural, d') else (if again then some semantic else none, d'')
