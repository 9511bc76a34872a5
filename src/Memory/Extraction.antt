-- ===== src/Memory/Extraction.antt =====
-- memory_extractor.py with `create_many` of memory_service.py: what becomes of a summary.
use mathlib.Core.Option
use ai_child.Prelude.{
  ℕ, ◌+◌, ◌≤◌, ◌≡◌, suc, Bool, true, false, not, ◌&&◌, ◌||◌, List, [], ◌∷◌, ◌++◌, Option, none,
  some, All, length, length-append, length-take, take, min, leb, map, bind, refl, arith, ap, sym,
  ◌∙◌, if◌then◌else◌,
}
use ai_child.PyText.{PyText, codes, strip, split, split_first, with_word, is_space, join}
use ai_child.Segmenter.Squeeze.{squeeze, squeeze-strip}
use ai_child.Memory.{MemoryCreateRequest, is_within, is_valid_evidence}
use ai_child.Memory.Extractor.{
  MemoryExtractionRequest, Draft, new_request, quote_summary, build_memory, branches, build_all,
  extract,
}

abbrev pub is_none : {A : Type 0} → Option A → Bool
is_none none = true
is_none (some a) = false

-- the characters of some words
abbrev total : List PyText → ℕ
total [] = 0
total (w ∷ ws) = length w + total ws

total-with_word :
    (word : PyText) (words : List PyText)
    → total (with_word (word, words)) ≡ length word + total words
unfolding with_word
total-with_word [] words = omega arith
total-with_word (c ∷ word) words = refl

length-squeeze :
    (t : PyText) → length (squeeze t) ≡ length (split_first t).0 + total (split_first t).1
unfolding squeeze split_first
length-squeeze [] = omega arith
length-squeeze (c ∷ t) =
    ground (arith, length-squeeze t, total-with_word (split_first t).0 (split_first t).1)

total-join : (sep : PyText) (words : List PyText) → total words ≤ length (join sep words)
unfolding join
total-join sep [] = omega arith
total-join sep (w ∷ []) = omega arith
total-join sep (w ∷ v ∷ words) = omega (
  arith,
  length-append w (sep ++ join sep (v ∷ words)),
  length-append sep (join sep (v ∷ words)),
  total-join sep (v ∷ words),
)

blank-split_first : (t : PyText) → squeeze t ≡ [] → split_first t ≡ ([], [])
unfolding squeeze split_first
blank-split_first [] h = refl
blank-split_first (c ∷ t) h = cases (blank-split_first t) (is_space c) h
  where
    cases :
        (squeeze t ≡ [] → split_first t ≡ ([], []))
        → (b : Bool) → (if b then squeeze t else c ∷ squeeze t) ≡ []
        → ◌≡◌ {A = PyText × List PyText}
            (if b
              then ([], with_word (split_first t))
              else (c ∷ (split_first t).0, (split_first t).1))
            ([], [])
    cases ih true e = ap (λ (r : PyText × List PyText). ([], with_word r)) (ih e)
    cases ih false e = ground arith

split-fits : (t : PyText) → length (squeeze t) ≤ length (join (codes " ") (split (strip t)))
unfolding split
split-fits t = omega (
  arith,
  ap length (squeeze-strip t),
  length-squeeze (strip t),
  total-with_word (split_first (strip t)).0 (split_first (strip t)).1,
  total-join (codes " ") (split (strip t)),
)

blank-split : (t : PyText) → squeeze t ≡ [] → split (strip t) ≡ []
unfolding split with_word
blank-split t h = ap with_word (blank-split_first (strip t) (squeeze-strip t ∙ h))

within : (u n m k : ℕ) → n ≡ suc u → n ≤ m → k ≡ min 160 m → leb 1 k && leb k 300 ≡ leb 1 n
within u n m k h l e = ground arith

-- A quote is empty exactly if the summary is blank, and never too long.
quote-IsWithin : (t : PyText) → is_within 1 300 (quote_summary t) ≡ leb 1 (length (squeeze t))
unfolding quote_summary join
quote-IsWithin t = cases (squeeze t) refl
  where
    cases :
        (u : PyText)
        → squeeze t ≡ u
        → is_within 1 300 (take 160 (join (codes " ") (split (strip t))))
          ≡ leb 1 (length (squeeze t))
    cases [] h =
        ap (λ ws. is_within 1 300 (take 160 (join (codes " ") ws))) (blank-split t h)
        ∙ ap (λ u. leb 1 (length u)) (sym h)
    cases (c ∷ u) h =
        within (length u) (length (squeeze t)) (length (join (codes " ") (split (strip t)))) _
          (ap length h) (split-fits t) (length-take 160 (join (codes " ") (split (strip t))))

-- The parts of a request that come from the chat.
abbrev pub is_writable : MemoryExtractionRequest → Bool
is_writable r =
    is_within 1 120 (codes r.child_id)
    && is_within 1 120 (codes r.session_id)
    && leb 1 (length (squeeze r.chat_summary))

-- what pydantic asks of the parts that a branch gives
abbrev is_sane : Draft → Bool
is_sane d =
    is_within 1 500 (codes d.content)
    && leb (length (map codes d.tags)) 12
    && leb d.confidence 100
    && leb d.importance 100

is_none-if : {A : Type 0} (b : Bool) (a : A) → is_none (if b then some a else none) ≡ not b
is_none-if true a = refl
is_none-if false a = refl

is_none-bind :
    (o : Option MemoryCreateRequest) (rest : Option (List MemoryCreateRequest))
    → is_none (bind o (λ m. Option.map (λ ms. m ∷ ms) rest)) ≡ is_none o || is_none rest
is_none-bind none rest = refl
is_none-bind (some m) none = refl
is_none-bind (some m) (some ms) = refl

sane_part :
    (child content tags session quote confidence importance letters : Bool)
    → content && tags && confidence && importance ≡ true
    → quote ≡ letters
    → child && content && tags && true && ((session && quote) && true) && confidence && importance
      ≡ child && session && letters
sane_part child content tags session quote confidence importance letters h e = ground arith

build_memory-fails :
    (r : MemoryExtractionRequest) (d : Draft)
    → is_sane d ≡ true
    → is_none (build_memory r d) ≡ not (is_writable r)
unfolding build_memory new_request is_valid_evidence
build_memory-fails r d h =
    is_none-if _ _
    ∙ ap not (
        sane_part (is_within 1 120 (codes r.child_id)) (is_within 1 500 (codes d.content))
          (leb (length (map codes d.tags)) 12) (is_within 1 120 (codes r.session_id))
          (is_within 1 300 (quote_summary r.chat_summary)) (leb d.confidence 100)
          (leb d.importance 100) (leb 1 (length (squeeze r.chat_summary))) h
          (quote-IsWithin r.chat_summary))

-- whether some branch is taken
abbrev pub some_taken : List (Bool × Draft) → Bool
some_taken [] = false
some_taken ((taken, d) ∷ rest) = taken || some_taken rest

abbrev AllSane : List (Bool × Draft) → Type 0
AllSane = All (λ (b : Bool × Draft). is_sane b.1 ≡ true)

build_all-fails :
    (r : MemoryExtractionRequest) (bs : List (Bool × Draft))
    → AllSane bs
    → is_none (build_all r bs) ≡ some_taken bs && not (is_writable r)
unfolding build_all
build_all-fails r [] s = refl
build_all-fails r ((taken, d) ∷ bs) s = ground (
  arith,
  is_none-bind (build_memory r d) (build_all r bs),
  build_memory-fails r d s.0,
  build_all-fails r bs s.1,
)

-- An extraction raises exactly if some branch is taken, and the child's or the session's identifier is empty
-- or longer than 120 characters, or the summary holds nothing but white space.
pub extract_fails_iff :
    (r : MemoryExtractionRequest)
    → is_none (extract r) ≡ some_taken (branches r) && not (is_writable r)
unfolding extract branches
extract_fails_iff r =
    build_all-fails r (branches r) (refl, (refl, (refl, (refl, (refl, (refl, tt))))))
