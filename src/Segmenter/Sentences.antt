-- ===== src/Segmenter/Sentences.antt =====
-- text_segmenter.py, `_split_sentences`.
use mathlib.Core.List.{flatten}
use ai_child.Prelude.{
  ℕ, zero, suc, ◌≤◌, ◌≡◌, List, [], ◌∷◌, ◌++◌, Option, length, take, drop, take-append-drop, All,
  append_assoc, arith, refl, ap, sym, subst, ◌∙◌, Bool-cases, inl, inr, nat_eq, if_of, length-drop,
  Yields, Yields-map,
}
use ai_child.PyText.{PyText, strip}
use ai_child.Segmenter.{
  keep, ellipsis, ellipses, past_ellipses, taken, left, is_sentence_boundary, is_crlf, split_loop,
  split_sentences,
}
use ai_child.Segmenter.Squeeze.{squeeze, squeeze-append, squeeze-strip, squeeze-keep}

abbrev pub IsNonEmpty : PyText → Type 0
IsNonEmpty t = 1 ≤ length t

pub All-keep :
    (s : PyText) (rest : List PyText) → All IsNonEmpty rest → All IsNonEmpty (keep s rest)
unfolding keep
All-keep [] rest h = h
All-keep (c ∷ s) rest h = (omega arith, h)

ellipses-append : (t : PyText) → ellipses t ++ past_ellipses t ≡ t
unfolding ellipses past_ellipses
ellipses-append [] = refl
ellipses-append (c ∷ t) = elim (Bool-cases (nat_eq c ellipsis)) [
  | inl e ↦ rw e (ap (λ u. c ∷ u) (ellipses-append t))
  | inr e ↦ rw e
]

-- What a boundary takes and what it leaves are the text.
taken-append-left : (c : ℕ) (t : PyText) → taken c t ++ left c t ≡ c ∷ t
unfolding taken left
taken-append-left c t = elim (Bool-cases (nat_eq c ellipsis)) [
  | inl e ↦ rw e (ap (λ u. c ∷ u) (ellipses-append t))
  | inr e ↦ rw e
]

length-past_ellipses : (t : PyText) → length (past_ellipses t) ≤ length t
unfolding past_ellipses
length-past_ellipses [] = omega arith
length-past_ellipses (c ∷ t) = ground (arith, length-past_ellipses t)

length-left : (c : ℕ) (t : PyText) → length (left c t) ≤ length t
unfolding left
length-left c t = ground (arith, length-past_ellipses t)

-- The sentences of a text: none is empty, and together they hold its characters.
pub record Splits (text : PyText) (pieces : List PyText) : Type 0 where
  pub holds : squeeze (flatten pieces) ≡ squeeze text
  pub filled : All IsNonEmpty pieces

pub Splits-keep :
    (s t text : PyText) (pieces : List PyText)
    → squeeze s ++ squeeze t ≡ squeeze text
    → Splits t pieces
    → Splits text (keep (strip s) pieces)
Splits-keep s t text pieces e h = record {
  holds =
      squeeze-keep (strip s) pieces
      ∙ ap (λ u. u ++ squeeze (flatten pieces)) (squeeze-strip s)
      ∙ ap (λ u. squeeze s ++ u) h.holds
      ∙ e;
  filled = All-keep (strip s) pieces h.filled;
}

Yields-along :
    (s t : PyText) (o : Option (List PyText)) → s ≡ t → Yields (Splits s) o → Yields (Splits t) o
Yields-along s t o e = subst (λ u. Yields (Splits u) o) e

split_loop-Splits :
    (fuel : ℕ) (cur rest : PyText)
    → length rest ≤ fuel
    → Yields (Splits (cur ++ rest)) (split_loop fuel cur rest)
unfolding split_loop
split_loop-Splits fuel cur [] h =
    Splits-keep cur [] (cur ++ []) [] (sym (squeeze-append cur []))
      (record { holds = unfold flatten squeeze in refl; filled = tt })
split_loop-Splits zero cur (c ∷ t) h = absurd (omega arith)
split_loop-Splits (suc fuel) cur (c ∷ t) h =
    if_of (Yields (Splits (cur ++ c ∷ t))) (is_sentence_boundary c t)
      (λ _.
        Yields-map (Splits (left c t)) (Splits (cur ++ c ∷ t)) (keep (strip (cur ++ taken c t)))
          (split_loop fuel [] (left c t))
          (λ pieces. Splits-keep (cur ++ taken c t) (left c t) (cur ++ c ∷ t) pieces cut)
          (split_loop-Splits fuel [] (left c t) (omega (arith, length-left c t))))
      λ _.
        if_of (Yields (Splits (cur ++ c ∷ t))) (is_crlf c t)
          (λ _.
            Yields-along _ _ _
              (append_assoc cur (c ∷ take 1 t) (drop 1 t)
                ∙ ap (λ u. cur ++ c ∷ u) (take-append-drop 1 t))
              (split_loop-Splits fuel (cur ++ c ∷ take 1 t) (drop 1 t)
                (omega (arith, length-drop 1 t))))
          (λ _.
            Yields-along _ _ _ (append_assoc cur (c ∷ []) t)
              (split_loop-Splits fuel (cur ++ c ∷ []) t (omega arith)))
  where
    cut : squeeze (cur ++ taken c t) ++ squeeze (left c t) ≡ squeeze (cur ++ c ∷ t)
    cut =
        sym (squeeze-append (cur ++ taken c t) (left c t))
        ∙ ap squeeze
            (append_assoc cur (taken c t) (left c t) ∙ ap (λ u. cur ++ u) (taken-append-left c t))

-- The sentences of a text are found; none is empty, and together they hold its characters in order.
pub split_sentences-Splits : (text : PyText) → Yields (Splits text) (split_sentences text)
unfolding split_sentences
split_sentences-Splits text = split_loop-Splits (length text) [] text (omega arith)
