-- ===== src/Segmenter/Squeeze.antt =====
-- A text without its white space, by which no cut may lose a character, and the laws of `strip`.
use mathlib.Core.List.{reverse, reverse-cons, reverse-reverse, flatten}
use ai_child.Prelude.{
  ◌≤◌, ◌≡◌, List, [], ◌∷◌, ◌++◌, length, length-append, append_assoc, append-nil, arith, refl, ap,
  sym, ◌∙◌, Bool-cases, inl, inr, if◌then◌else◌,
}
use ai_child.PyText.{PyText, is_space, lstrip, strip}
use ai_child.Segmenter.{keep}

-- The characters of a text that are not white space, in their order.
unfoldable pub squeeze : PyText → PyText
squeeze [] = []
squeeze (c ∷ t) = if is_space c then squeeze t else c ∷ squeeze t

pub squeeze-append : (s t : PyText) → squeeze (s ++ t) ≡ squeeze s ++ squeeze t
unfolding squeeze
squeeze-append [] t = refl
squeeze-append (c ∷ s) t = elim (Bool-cases (is_space c)) [
  | inl e ↦ rw (e, squeeze) (squeeze-append s t)
  | inr e ↦ rw (e, squeeze) (ap (λ u. c ∷ u) (squeeze-append s t))
]

squeeze-lstrip : (t : PyText) → squeeze (lstrip t) ≡ squeeze t
unfolding lstrip squeeze
squeeze-lstrip [] = refl
squeeze-lstrip (c ∷ t) = elim (Bool-cases (is_space c)) [
  | inl e ↦ rw e (squeeze-lstrip t)
  | inr e ↦ rw e (rw (e, squeeze))
]

squeeze-reverse : (t : PyText) → squeeze (reverse t) ≡ reverse (squeeze t)
unfolding squeeze
squeeze-reverse [] = refl
squeeze-reverse (c ∷ t) =
    ap squeeze (reverse-cons c t)
    ∙ squeeze-append (reverse t) (c ∷ [])
    ∙ ap (λ u. u ++ squeeze (c ∷ [])) (squeeze-reverse t)
    ∙ snoc
  where
    snoc : reverse (squeeze t) ++ squeeze (c ∷ []) ≡ reverse (squeeze (c ∷ t))
    snoc = elim (Bool-cases (is_space c)) [
      | inl e ↦ rw (e, squeeze) (append-nil (reverse (squeeze t)))
      | inr e ↦ rw (e, squeeze) (sym (reverse-cons c (squeeze t)))
    ]

pub squeeze-strip : (t : PyText) → squeeze (strip t) ≡ squeeze t
unfolding strip
squeeze-strip t =
    squeeze-reverse (lstrip (reverse (lstrip t)))
    ∙ ap reverse (squeeze-lstrip (reverse (lstrip t)) ∙ squeeze-reverse (lstrip t))
    ∙ reverse-reverse (squeeze (lstrip t))
    ∙ squeeze-lstrip t

length-lstrip : (t : PyText) → length (lstrip t) ≤ length t
unfolding lstrip
length-lstrip [] = omega arith
length-lstrip (c ∷ t) = ground (arith, length-lstrip t)

length-reverse : (t : PyText) → length (reverse t) ≡ length t
length-reverse [] = refl
length-reverse (c ∷ t) =
    omega
      (arith, ap length (reverse-cons c t), length-append (reverse t) (c ∷ []), length-reverse t)

pub length-strip : (t : PyText) → length (strip t) ≤ length t
unfolding strip
length-strip t = omega (
  arith,
  length-reverse (lstrip (reverse (lstrip t))),
  length-lstrip (reverse (lstrip t)),
  length-reverse (lstrip t),
  length-lstrip t,
)

-- A text that is kept only if it is not empty adds what it holds.
pub squeeze-keep :
    (s : PyText) (rest : List PyText)
    → squeeze (flatten (keep s rest)) ≡ squeeze s ++ squeeze (flatten rest)
unfolding keep flatten
squeeze-keep [] rest = unfold squeeze in refl
squeeze-keep (c ∷ s) rest = squeeze-append (c ∷ s) (flatten rest)

pub flatten-append : (xs ys : List PyText) → flatten (xs ++ ys) ≡ flatten xs ++ flatten ys
unfolding flatten
flatten-append [] ys = refl
flatten-append (x ∷ xs) ys =
    ap (λ u. x ++ u) (flatten-append xs ys) ∙ sym (append_assoc x (flatten xs) (flatten ys))
