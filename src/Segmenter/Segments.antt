-- ===== src/Segmenter/Segments.antt =====
-- text_segmenter.py, `segment` as a whole.
use mathlib.Core.List.{flatten}
use ai_child.Prelude.{
  ℕ, suc, ◌+◌, ◌≤◌, ◌≡◌, List, [], ◌∷◌, Option, length, map, min, arith, refl, ap, sym, ◌∙◌, subst,
  Yields, Yields-bind,
}
use ai_child.PyText.{PyText, strip}
use ai_child.Segmenter.{
  TextSegment, TextSegmenter, hard_limit, split_sentences, split_all, merge_loop, range_loop,
  segment_stripped, segment, find_start,
}
use ai_child.Segmenter.Squeeze.{squeeze, squeeze-strip}
use ai_child.Segmenter.Sentences.{Splits, split_sentences-Splits}
use ai_child.Segmenter.Chunks.{Fits, split_all-Fits}
use ai_child.Segmenter.Merge.{merge-Fits}

-- The segments are numbered in order, and their ranges have their lengths and do not overlap.
abbrev pub IsRanged : ℕ → ℕ → List TextSegment → Type 0
IsRanged index cursor [] = Unit
IsRanged index cursor (s ∷ segments) =
    (s.index ≡ index)
    × (cursor ≤ s.start)
    × (s.end ≡ s.start + length s.text)
    × IsRanged (suc index) s.end segments

abbrev pub text_of : TextSegment → PyText
text_of s = s.text

le-find_start : (text s : PyText) (cursor : ℕ) → cursor ≤ find_start text s cursor
unfolding find_start
le-find_start text s cursor = ground arith

range_loop-IsRanged :
    (text : PyText) (index cursor : ℕ) (segments : List PyText)
    → IsRanged index cursor (range_loop text index cursor segments)
unfolding range_loop
range_loop-IsRanged text index cursor [] = tt
range_loop-IsRanged text index cursor (s ∷ segments) = (
  refl,
  le-find_start text s cursor,
  refl,
  range_loop-IsRanged text (suc index) (find_start text s cursor + length s) segments,
)

texts-range_loop :
    (text : PyText) (index cursor : ℕ) (segments : List PyText)
    → map text_of (range_loop text index cursor segments) ≡ segments
unfolding range_loop
texts-range_loop text index cursor [] = refl
texts-range_loop text index cursor (s ∷ segments) =
    ap (λ u. s ∷ u)
      (texts-range_loop text (suc index) (find_start text s cursor + length s) segments)

-- What a caller can rely on: the texts of the segments hold the characters of the reply in order, none
-- is empty or longer than n, and the ranges are in order.
pub record IsSegmentation (n : ℕ) (text : PyText) (segments : List TextSegment) : Type 0 where
  pub texts : Fits n text (map text_of segments)
  pub ranges : IsRanged 0 0 segments

module _ (g : TextSegmenter) (n : ℕ) (positive : 1 ≤ n) where
  carry :
      (t text : PyText) (chunks : List PyText)
      → squeeze t ≡ squeeze text
      → Fits n t chunks
      → Fits n text chunks
  carry t text chunks e f = record {
    splits = record { holds = f.splits.holds ∙ e; filled = f.splits.filled };
    fits = f.fits;
  }

  ranged :
      (t text : PyText) (chunks : List PyText)
      → Fits n text chunks
      → IsSegmentation n text (range_loop t 0 0 (merge_loop g.min_chars n [] chunks))
  ranged t text chunks f = record {
    texts =
        subst (Fits n text) (sym (texts-range_loop t 0 0 (merge_loop g.min_chars n [] chunks)))
          (merge-Fits g.min_chars n text chunks f);
    ranges = range_loop-IsRanged t 0 0 (merge_loop g.min_chars n [] chunks);
  }

  -- the segments of a text that has the characters of another
  stripped-IsSegmentation :
      (t text : PyText)
      → squeeze t ≡ squeeze text
      → Yields (IsSegmentation n text) (segment_stripped g n t)
  unfolding segment_stripped
  stripped-IsSegmentation [] text e = record {
    texts = record { splits = record { holds = unfold flatten in e; filled = tt }; fits = tt };
    ranges = tt;
  }
  stripped-IsSegmentation (c ∷ t) text e =
      Yields-bind (Splits (c ∷ t)) (IsSegmentation n text) (split_sentences (c ∷ t)) _
        (λ sentences sp.
          Yields-bind (Fits n (flatten sentences)) (IsSegmentation n text)
            (split_all g.min_chars n sentences) _
            (λ chunks f.
              ranged (c ∷ t) text chunks (carry (flatten sentences) text chunks (sp.holds ∙ e) f))
            (split_all-Fits g.min_chars n positive sentences sp.filled))
        (split_sentences-Splits (c ∷ t))

-- With positive limits `segment` returns, and what it returns is a segmentation by the smaller of the
-- hard and the preferred limit.
pub segment-IsSegmentation :
    (g : TextSegmenter) (hard_max_chars : Option ℕ) (text : PyText)
    → 1 ≤ hard_limit g hard_max_chars
    → 1 ≤ g.preferred_max_chars
    → Yields
        (IsSegmentation (min (hard_limit g hard_max_chars) g.preferred_max_chars) text)
        (segment g hard_max_chars text)
unfolding segment
segment-IsSegmentation g hard_max_chars text h p =
    stripped-IsSegmentation g (min (hard_limit g hard_max_chars) g.preferred_max_chars)
      (omega arith) (strip text) text (squeeze-strip text)
