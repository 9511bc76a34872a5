-- ===== src/Companion/Summary.antt =====
-- companion_object_service.py, `_validate_safe_summary`, and what is stored of a validated summary.
use mathlib.Core.List.{reverse, reverse-append, reverse-reverse}
use ai_child.Prelude.{
  ℕ, ◌≤◌, ◌≡◌, true, false, String, List, [], ◌∷◌, ◌++◌, take, drop, length, length-take,
  length-append, take-append-drop, append_assoc, drop, arith, refl, ap, sym, ◌∙◌, if_of, ltb,
  ltb_false→le,
}
use ai_child.PyText.{
  PyText, codes, lstrip, strip, without, is_prefix, contains, contains_any, is_space,
}
use ai_child.Companion.{forbidden_summary_markers, safe_summary_max_length}
use ai_child.Companion.Rules.{is_forbidden}
use ai_child.Companion.Service.{clip, shortened}

-- A text between two others.
abbrev pub IsPart : PyText → PyText → Type 0
IsPart part whole = (u : PyText) × (v : PyText) × (whole ≡ u ++ (part ++ v))

is_prefix-append : (m t v : PyText) → is_prefix m t ≡ true → is_prefix m (t ++ v) ≡ true
unfolding is_prefix
is_prefix-append [] t v h = refl
is_prefix-append (m ∷ ms) [] v h = ground arith
is_prefix-append (m ∷ ms) (c ∷ t) v h = ground (arith, is_prefix-append ms t v)

contains_of_prefix : (m t : PyText) → is_prefix m t ≡ true → contains m t ≡ true
unfolding contains
contains_of_prefix m [] h = h
contains_of_prefix m (c ∷ t) h = ground arith

contains-append : (m t v : PyText) → contains m t ≡ true → contains m (t ++ v) ≡ true
unfolding contains
contains-append m [] v h = contains_of_prefix m v (is_prefix-append m [] v h)
contains-append m (c ∷ t) v h = ground (arith, is_prefix-append m (c ∷ t) v, contains-append m t v)

contains-after : (m u t : PyText) → contains m t ≡ true → contains m (u ++ t) ≡ true
unfolding contains
contains-after m [] t h = h
contains-after m (c ∷ u) t h = ground (arith, contains-after m u t)

contains_any-part :
    (u t v : PyText) (markers : List String)
    → contains_any t markers ≡ true
    → contains_any (u ++ (t ++ v)) markers ≡ true
unfolding contains_any
contains_any-part u t v [] h = h
contains_any-part u t v (m ∷ ms) h = ground (
  arith,
  contains-append (codes m) t v,
  contains-after (codes m) u (t ++ v),
  contains_any-part u t v ms,
)

without-append : (k : ℕ) (s t : PyText) → without k (s ++ t) ≡ without k s ++ without k t
unfolding without
without-append k [] t = refl
without-append k (c ∷ s) t = ground (arith, without-append k s t)

without-IsPart :
    (k : ℕ) (part whole : PyText) → IsPart part whole → IsPart (without k part) (without k whole)
without-IsPart k part whole (u, v, e) = (
  without k u,
  without k v,
  ap (without k) e
      ∙ without-append k u (part ++ v)
      ∙ ap (λ w. without k u ++ w) (without-append k part v),
)

-- A part of a text that is not forbidden is not forbidden.
pub part_is_allowed :
    (part whole : PyText)
    → IsPart part whole
    → is_forbidden whole ≡ false
    → is_forbidden part ≡ false
unfolding is_forbidden
part_is_allowed part whole p h =
    let (u, v, e) = without-IsPart 10 _ _ (without-IsPart 0x20 part whole p) in
    ground
      (arith, contains_any-part u (without 10 (without 0x20 part)) v forbidden_summary_markers, e)

lstrip-suffix : (t : PyText) → (u : PyText) × (t ≡ u ++ lstrip t)
unfolding lstrip
lstrip-suffix [] = ([], refl)
lstrip-suffix (c ∷ t) =
    if_of (λ (r : PyText). (u : PyText) × (c ∷ t ≡ u ++ r)) (is_space c)
      (λ _. let (u, e) = lstrip-suffix t in (c ∷ u, ap (λ w. c ∷ w) e)) (λ _. ([], refl))

strip-IsPart : (t : PyText) → IsPart (strip t) t
unfolding strip
strip-IsPart t =
    let (u, e) = lstrip-suffix t in
    let (v, f) = lstrip-suffix (reverse (lstrip t)) in
    (
      u,
      reverse v,
      e
          ∙ ap (λ w. u ++ w)
              (sym (reverse-reverse (lstrip t))
                ∙ ap reverse f
                ∙ reverse-append v (lstrip (reverse (lstrip t)))),
    )

-- What is stored of a summary is a part of it, and not too long.
pub clip-IsPart : (t : PyText) → IsPart (clip t) t
unfolding clip
clip-IsPart t =
    let (u, v, e) = strip-IsPart t in
    (
      u,
      drop safe_summary_max_length (strip t) ++ v,
      e
          ∙ ap (λ w. u ++ w)
              (ap (λ w. w ++ v) (sym (take-append-drop safe_summary_max_length (strip t)))
                ∙ append_assoc (take safe_summary_max_length (strip t)) _ v),
    )

pub length-clip : (t : PyText) → length (clip t) ≤ safe_summary_max_length
unfolding clip
length-clip t = omega (arith, length-take safe_summary_max_length (strip t))

pub length-shortened : (t : PyText) → length (shortened t) ≤ safe_summary_max_length
unfolding shortened
length-shortened t =
    if_of (λ (x : PyText). length x ≤ safe_summary_max_length)
      (ltb safe_summary_max_length (length t))
      (λ _. omega (arith, length-append (take 199 t) (codes "…"), length-take 199 t))
      (λ e. ltb_false→le safe_summary_max_length (length t) e)
