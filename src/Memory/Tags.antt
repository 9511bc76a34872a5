-- ===== src/Memory/Tags.antt =====
-- backend/app/domain/memory.py, `normalize_tags`.
use ai_child.Prelude.{
  ℕ, suc, min, leb, ◌+◌, ◌≤◌, ◌≡◌, Bool, true, false, not, ◌&&◌, List, [], ◌∷◌, ◌++◌, All,
  All-append, length, length-append, length-take, take, any, arith, if_of, if◌then◌else◌,
}
use ai_child.PyText.{PyText, strip, text_is}
use ai_child.Memory.{is_within, add_tag, normalize_from, normalize_tags}

abbrev AllShort : List PyText → Type 0
AllShort = All (λ t. is_within 1 40 t ≡ true)

between : (n k : ℕ) → 1 ≤ n → k ≡ min 40 n → leb 1 k && leb k 40 ≡ true
between n k h e = ground arith

length-text : (t : PyText) → not (text_is t []) ≡ true → 1 ≤ length t
unfolding text_is
length-text [] h = ground arith
length-text (c ∷ t) h = omega arith

short : (t : PyText) → not (text_is t []) ≡ true → is_within 1 40 (take 40 t) ≡ true
short t h = between (length t) (length (take 40 t)) (length-text t h) (length-take 40 t)

length-added :
    (b : Bool) (taken : List PyText) (t : PyText)
    → length (if b then taken ++ (t ∷ []) else taken) ≤ suc (length taken)
length-added true taken t = omega (arith, length-append taken (t ∷ []))
length-added false taken t = omega arith

added-AllShort :
    (taken : List PyText) (tag : PyText) → AllShort taken → AllShort (add_tag taken tag)
unfolding add_tag
added-AllShort taken tag a =
    if_of AllShort (not (text_is (strip tag) []) && not (any (text_is (strip tag)) taken))
      (λ h. All-append _ taken (take 40 (strip tag) ∷ []) a (short (strip tag) (ground arith), tt))
      (λ _. a)

normalize_from-AllShort :
    (tags taken : List PyText) → AllShort taken → AllShort (normalize_from taken tags)
unfolding normalize_from
normalize_from-AllShort [] taken a = a
normalize_from-AllShort (tag ∷ tags) taken a =
    normalize_from-AllShort tags (add_tag taken tag) (added-AllShort taken tag a)

length-add_tag :
    (taken : List PyText) (tag : PyText) → length (add_tag taken tag) ≤ suc (length taken)
unfolding add_tag
length-add_tag taken tag = length-added _ taken (take 40 (strip tag))

length-normalize_from :
    (tags taken : List PyText) → length (normalize_from taken tags) ≤ length taken + length tags
unfolding normalize_from
length-normalize_from [] taken = omega arith
length-normalize_from (tag ∷ tags) taken =
    omega (arith, length-add_tag taken tag, length-normalize_from tags (add_tag taken tag))

-- The tags that a memory keeps are no more than it was given, none is empty, and none is longer than 40
-- characters.
pub normalize_tags-bounds :
    (tags : List PyText)
    → (length (normalize_tags tags) ≤ length tags)
      × All (λ t. is_within 1 40 t ≡ true) (normalize_tags tags)
unfolding normalize_tags
normalize_tags-bounds tags =
    (omega (arith, length-normalize_from tags []), normalize_from-AllShort tags [] tt)
