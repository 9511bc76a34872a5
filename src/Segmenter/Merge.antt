-- ===== src/Segmenter/Merge.antt =====
-- text_segmenter.py, `_merge_short_segments`.
use mathlib.Core.List.{flatten}
use ai_child.Prelude.{
  ℕ, ◌+◌, ◌≤◌, ◌≡◌, true, ◌&&◌, List, [], ◌∷◌, ◌++◌, length, length-append, All, append_assoc,
  append-nil, arith, ap, sym, ◌∙◌, ltb, leb, if_of,
}
use ai_child.PyText.{PyText}
use ai_child.Segmenter.{merge_one, merge_loop}
use ai_child.Segmenter.Sentences.{IsNonEmpty}
use ai_child.Segmenter.Chunks.{Fits}
use ai_child.Segmenter.Squeeze.{squeeze}

module _ (m n : ℕ) where
  -- the pieces are not empty and at most n long
  abbrev InRange : PyText → Type 0
  InRange p = (1 ≤ length p) × (length p ≤ n)

  flatten-merge_one :
      (merged : List PyText) (s : PyText) → flatten (merge_one m n merged s) ≡ flatten merged ++ s
  unfolding merge_one flatten
  flatten-merge_one [] s = append-nil s
  flatten-merge_one (p ∷ []) s =
      if_of (λ ps. flatten ps ≡ (p ++ []) ++ s) (leb (length p + length s) n && ltb (length p) m)
        (λ _. rw (append-nil p) (append-nil (p ++ s)))
        (λ _. rw (append-nil p) (ap (λ u. p ++ u) (append-nil s)))
  flatten-merge_one (p ∷ q ∷ merged) s =
      ap (λ u. p ++ u) (flatten-merge_one (q ∷ merged) s)
      ∙ sym (append_assoc p (flatten (q ∷ merged)) s)

  merge_one-InRange :
      (merged : List PyText) (s : PyText)
      → All InRange merged
      → InRange s
      → All InRange (merge_one m n merged s)
  unfolding merge_one
  merge_one-InRange [] s h r = (r, tt)
  merge_one-InRange (p ∷ []) s h r =
      if_of (All InRange) (leb (length p + length s) n && ltb (length p) m)
        (λ e. (omega (arith, length-append p s, h.0, fits e), tt)) (λ _. (h.0, (r, tt)))
    where
      fits : leb (length p + length s) n && ltb (length p) m ≡ true → length p + length s ≤ n
      fits e = ground arith
  merge_one-InRange (p ∷ q ∷ merged) s h r = (h.0, merge_one-InRange (q ∷ merged) s h.1 r)

  flatten-merge_loop :
      (merged segments : List PyText)
      → flatten (merge_loop m n merged segments) ≡ flatten merged ++ flatten segments
  unfolding merge_loop flatten
  flatten-merge_loop merged [] = sym (append-nil (flatten merged))
  flatten-merge_loop merged ([] ∷ segments) = flatten-merge_loop merged segments
  flatten-merge_loop merged ((c ∷ t) ∷ segments) =
      flatten-merge_loop (merge_one m n merged (c ∷ t)) segments
      ∙ ap (λ u. u ++ flatten segments) (flatten-merge_one merged (c ∷ t))
      ∙ append_assoc (flatten merged) (c ∷ t) (flatten segments)

  merge_loop-InRange :
      (merged segments : List PyText)
      → All InRange merged
      → All (λ (p : PyText). length p ≤ n) segments
      → All InRange (merge_loop m n merged segments)
  unfolding merge_loop
  merge_loop-InRange merged [] h a = h
  merge_loop-InRange merged ([] ∷ segments) h a = merge_loop-InRange merged segments h a.1
  merge_loop-InRange merged ((c ∷ t) ∷ segments) h a =
      merge_loop-InRange (merge_one m n merged (c ∷ t)) segments
        (merge_one-InRange merged (c ∷ t) h (omega arith, a.0)) a.1

  All-filled : (ps : List PyText) → All InRange ps → All IsNonEmpty ps
  All-filled [] h = tt
  All-filled (p ∷ ps) h = ((h.0).0, All-filled ps h.1)

  All-fits : (ps : List PyText) → All InRange ps → All (λ (p : PyText). length p ≤ n) ps
  All-fits [] h = tt
  All-fits (p ∷ ps) h = ((h.0).1, All-fits ps h.1)

  -- The merged segments hold what the segments held; none is empty or longer than the limit.
  pub merge-Fits :
      (text : PyText) (segments : List PyText)
      → Fits n text segments
      → Fits n text (merge_loop m n [] segments)
  unfolding flatten
  merge-Fits text segments f = record {
    splits = record {
      holds = ap squeeze (flatten-merge_loop [] segments) ∙ f.splits.holds;
      filled = All-filled (merge_loop m n [] segments) ranged;
    };
    fits = All-fits (merge_loop m n [] segments) ranged;
  }
    where
      ranged : All InRange (merge_loop m n [] segments)
      ranged = merge_loop-InRange [] segments tt f.fits
