-- ===== src/Segmenter.antt =====
-- backend/app/services/text_segmenter.py: a reply is cut into sentences, long sentences into chunks,
-- and short neighbours are joined again. The two `while` loops take fuel, one unit for a round; None
-- of the model means that it ran out.
pub mod Squeeze
pub mod Sentences
pub mod Chunks
pub mod Merge
pub mod Segments
mod Tests
use mathlib.Core.Option
use ai_child.Prelude.{
  ℕ, zero, suc, ◌+◌, min, Bool, true, false, not, ◌&&◌, ◌||◌, List, [], ◌∷◌, ◌++◌, Option, none,
  some, any, length, bind, take, drop, ltb, leb, nat_eq, if◌then◌else◌,
}
use ai_child.PyText.{PyText, codes, is_space, strip, is_prefix}

pub record TextSegment : Type 0 where
  pub index : ℕ
  pub text : PyText
  pub start : ℕ
  pub end : ℕ
  pub is_sentence_end : Bool

-- TextSegmenter.__init__
pub record TextSegmenter : Type 0 where
  pub min_chars : ℕ
  pub preferred_max_chars : ℕ
  pub hard_max_chars : ℕ

-- char in "..."
unfoldable pub one_of : PyText → ℕ → Bool
one_of chars c = any (nat_eq c) chars

abbrev pub newline : ℕ
newline = 10

abbrev pub carriage_return : ℕ
carriage_return = 13

abbrev pub ellipsis : ℕ
ellipsis = 0x2026

-- `not next_char or next_char.isspace()`
unfoldable pub ends_word : PyText → Bool
unfolding is_space
ends_word [] = true
ends_word (c ∷ t) = is_space c

-- _is_sentence_boundary at the character c, with the text behind it
unfoldable pub is_sentence_boundary : ℕ → PyText → Bool
unfolding one_of ends_word
is_sentence_boundary c t =
    if one_of (codes "。！？!?；;") c
    then true
    else if nat_eq c ellipsis
    then true
    else if nat_eq c newline
    then true
    else if nat_eq c b'.'
    then ends_word t
    else false

-- the ellipses at the head of a text, and the text behind them
unfoldable pub ellipses : PyText → PyText
ellipses [] = []
ellipses (c ∷ t) = let more = ellipses t in if nat_eq c ellipsis then c ∷ more else []

unfoldable pub past_ellipses : PyText → PyText
past_ellipses [] = []
past_ellipses (c ∷ t) = let more = past_ellipses t in if nat_eq c ellipsis then more else c ∷ t

-- _consume_boundary: what a boundary takes, and what it leaves
unfoldable pub taken : ℕ → PyText → PyText
unfolding ellipses
taken c t = if nat_eq c ellipsis then c ∷ ellipses t else c ∷ []

unfoldable pub left : ℕ → PyText → PyText
unfolding past_ellipses
left c t = if nat_eq c ellipsis then past_ellipses t else t

-- `if sentence: sentences.append(sentence)`
unfoldable pub keep : PyText → List PyText → List PyText
keep [] rest = rest
keep (c ∷ t) rest = (c ∷ t) ∷ rest

-- `char == "\r" and text[index:index + 2] == "\r\n"`
unfoldable pub is_crlf : ℕ → PyText → Bool
is_crlf c [] = false
is_crlf c (d ∷ t) = nat_eq c carriage_return && nat_eq d newline

-- The loop of `_split_sentences`: `cur` is text[start:index] and the last argument is text[index:].
unfoldable pub split_loop : ℕ → PyText → PyText → Option (List PyText)
unfolding is_sentence_boundary taken left keep is_crlf
split_loop fuel cur [] = some (keep (strip cur) [])
split_loop zero cur (c ∷ t) = none
split_loop (suc fuel) cur (c ∷ t) =
    let at_boundary =
      Option.map (keep (strip (cur ++ taken c t))) (split_loop fuel [] (left c t)) in
    let at_crlf = split_loop fuel (cur ++ c ∷ take 1 t) (drop 1 t) in
    let at_char = split_loop fuel (cur ++ c ∷ []) t in
    if is_sentence_boundary c t then at_boundary else if is_crlf c t then at_crlf else at_char

-- _split_sentences
unfoldable pub split_sentences : PyText → Option (List PyText)
unfolding split_loop
split_sentences text = split_loop (length text) [] text

-- text.rfind(c)
unfoldable pub rfind : ℕ → PyText → Option ℕ
rfind c [] = none
rfind c (d ∷ t) = elim (rfind c t) [
  | some i ↦ some (suc i)
  | none ↦ if nat_eq d c then some 0 else none
]

-- the greater of two positions, none for -1
unfoldable pub later : Option ℕ → Option ℕ → Option ℕ
later none q = q
later (some p) none = some p
later (some p) (some q) = if ltb p q then some q else some p

-- max(text.rfind(boundary) for boundary in boundaries)
unfoldable pub last_of : PyText → PyText → Option ℕ
unfolding rfind later
last_of [] text = none
last_of (b ∷ boundaries) text = later (rfind b text) (last_of boundaries text)

-- _last_soft_boundary, and the fallback of its caller: where a remainder longer than max_chars is cut
unfoldable pub cut_after : ℕ → ℕ → Option ℕ → ℕ
cut_after min_chars max_chars none = max_chars
cut_after min_chars max_chars (some best) = if leb min_chars best then best + 1 else max_chars

unfoldable pub split_at : ℕ → ℕ → PyText → ℕ
unfolding cut_after last_of
split_at min_chars max_chars remaining =
    cut_after min_chars max_chars (last_of (codes "，,；;：:、 ") (take max_chars remaining))

-- The loop of `_split_long_sentence` over `remaining`.
unfoldable pub chunk_loop : ℕ → ℕ → ℕ → PyText → Option (List PyText)
unfolding split_at keep
chunk_loop zero min_chars max_chars remaining =
    if ltb max_chars (length remaining) then none else some (keep remaining [])
chunk_loop (suc fuel) min_chars max_chars remaining =
    let n = split_at min_chars max_chars remaining in
    let rest =
      Option.map (keep (strip (take n remaining)))
        (chunk_loop fuel min_chars max_chars (strip (drop n remaining))) in
    if ltb max_chars (length remaining) then rest else some (keep remaining [])

-- _split_long_sentence
unfoldable pub split_long_sentence : ℕ → ℕ → PyText → Option (List PyText)
unfolding chunk_loop
split_long_sentence min_chars max_chars sentence =
    if leb (length sentence) max_chars
    then some (sentence ∷ [])
    else chunk_loop (length sentence) min_chars max_chars sentence

-- the loop of `segment` that extends `split_sentences`
unfoldable pub split_all : ℕ → ℕ → List PyText → Option (List PyText)
split_all min_chars max_chars [] = some []
split_all min_chars max_chars (s ∷ sentences) =
    let others = split_all min_chars max_chars sentences in
    bind (split_long_sentence min_chars max_chars s)
      λ chunks. Option.map (λ rest. chunks ++ rest) others

-- One round of `_merge_short_segments` over `merged`, of which only the last segment changes.
unfoldable pub merge_one : ℕ → ℕ → List PyText → PyText → List PyText
merge_one min_chars limit [] segment = segment ∷ []
merge_one min_chars limit (m ∷ []) segment =
    if leb (length m + length segment) limit && ltb (length m) min_chars
    then (m ++ segment) ∷ []
    else m ∷ segment ∷ []
merge_one min_chars limit (m ∷ n ∷ merged) segment =
    m ∷ merge_one min_chars limit (n ∷ merged) segment

unfoldable pub merge_loop : ℕ → ℕ → List PyText → List PyText → List PyText
unfolding merge_one
merge_loop min_chars limit merged [] = merged
merge_loop min_chars limit merged ([] ∷ segments) = merge_loop min_chars limit merged segments
merge_loop min_chars limit merged ((c ∷ t) ∷ segments) =
    merge_loop min_chars limit (merge_one min_chars limit merged (c ∷ t)) segments

-- text.find(segment), by the position at which it is found
unfoldable pub find_in : PyText → PyText → Option ℕ
unfolding is_prefix
find_in m [] = if is_prefix m [] then some 0 else none
find_in m (c ∷ t) =
    let later = Option.map suc (find_in m t) in if is_prefix m (c ∷ t) then some 0 else later

-- text.find(segment, cursor), or the cursor where that is negative
unfoldable pub find_start : PyText → PyText → ℕ → ℕ
unfolding find_in
find_start text segment cursor = elim (find_in segment (drop cursor text)) [
  | some i ↦ cursor + i
  | none ↦ cursor
]

-- _ends_sentence
unfoldable pub ends_sentence : PyText → Bool
unfolding one_of
ends_sentence [] = false
ends_sentence (c ∷ []) = one_of (codes "。！？!?.…；;") c
ends_sentence (c ∷ d ∷ t) = ends_sentence (d ∷ t)

-- the loop of `_with_ranges`
unfoldable pub range_loop : PyText → ℕ → ℕ → List PyText → List TextSegment
unfolding find_start ends_sentence
range_loop text index cursor [] = []
range_loop text index cursor (s ∷ segments) =
    let start = find_start text s cursor in
    record {
      index = index;
      text = s;
      start = start;
      end = start + length s;
      is_sentence_end = ends_sentence s;
    }
    ∷ range_loop text (suc index) (start + length s) segments

-- `hard_max_chars or self._hard_max_chars`
unfoldable pub hard_limit : TextSegmenter → Option ℕ → ℕ
hard_limit g none = g.hard_max_chars
hard_limit g (some n) = if nat_eq n 0 then g.hard_max_chars else n

-- `segment` of a stripped text
unfoldable pub segment_stripped : TextSegmenter → ℕ → PyText → Option (List TextSegment)
segment_stripped g max_chars [] = some []
segment_stripped g max_chars (c ∷ t) = bind (split_sentences (c ∷ t)) λ sentences.
    bind (split_all g.min_chars max_chars sentences)
      λ chunks. some (range_loop (c ∷ t) 0 0 (merge_loop g.min_chars max_chars [] chunks))

-- TextSegmenter.segment
unfoldable pub segment : TextSegmenter → Option ℕ → PyText → Option (List TextSegment)
unfolding hard_limit segment_stripped
segment g hard_max_chars text =
    segment_stripped g (min (hard_limit g hard_max_chars) g.preferred_max_chars) (strip text)
