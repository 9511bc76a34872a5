-- ===== src/Hooks/Counts.antt =====
-- conversation_memory_hooks.py, `retrieve_context`: the topics that a session recalled.
use ai_child.Prelude.{
  ℕ, ◌≤◌, ◌≡◌, true, false, not, ◌||◌, List, [], ◌∷◌, ◌++◌, All-append, All, if◌then◌else◌, arith,
  refl, Bool-cases, inl, inr, ap,
}
use ai_child.Prelude.Sorting.{All-mono}
use ai_child.PyText.{PyText, text_is, text_is→eq}
use ai_child.Hooks.Session.{SessionRecallState, recall_count, set_recall_count, topic_recall_count}

pub recall_count-set_recall_count :
    (t u : PyText) (n : ℕ) (counts : List (PyText × ℕ))
    → recall_count u (set_recall_count t n counts)
      ≡ (if text_is t u then n else recall_count u counts)
unfolding recall_count set_recall_count
recall_count-set_recall_count t u n [] = refl
recall_count-set_recall_count t u n ((i, m) ∷ counts) = elim (Bool-cases (text_is i t)) [
  | inl e ↦ let f = ap (λ l. text_is l u) (text_is→eq i t e) in ground (arith, e, f)
  | inr e ↦ ground (arith, e, recall_count-set_recall_count t u n counts, not_both e)
]
  where
    not_both : text_is i t ≡ false → not (text_is t u) || not (text_is i u) ≡ true
    not_both e = elim (Bool-cases (text_is t u)) [
      | inl f ↦ let g = ap (text_is i) (text_is→eq t u f) in ground (arith, e, f, g)
      | inr f ↦ ground (arith, f)
    ]

-- no two of the texts are the same
unfoldable pub IsDistinct : List PyText → Type 0
IsDistinct [] = Unit
IsDistinct (t ∷ ts) = All (λ u. text_is t u ≡ false) ts × IsDistinct ts

-- From one state of a session to a later one the topics were recalled, each for the first time.
pub record Adds (before after : SessionRecallState) (ts : List PyText) : Type 0 where
  pub distinct : IsDistinct ts
  pub fresh : All (λ t. topic_recall_count before t ≡ 0) ts
  pub counted : All (λ t. 1 ≤ topic_recall_count after t) ts
  pub stays : (t : PyText) → topic_recall_count before t ≤ topic_recall_count after t

pub no_topics_added :
    (s after : SessionRecallState) → after.recalled_topics ≡ s.recalled_topics → Adds s after []
unfolding IsDistinct topic_recall_count
no_topics_added s after h = record {
  distinct = tt;
  fresh = tt;
  counted = tt;
  stays = λ t. omega (arith, ap (recall_count t) h);
}

module _ (s : SessionRecallState) where
  apart :
      (t u : PyText) → 1 ≤ topic_recall_count s t → topic_recall_count s u ≡ 0 → text_is t u ≡ false
  apart t u h k = elim (Bool-cases (text_is t u)) [
    | inl e ↦ let f = ap (topic_recall_count s) (text_is→eq t u e) in ground (arith, h, k, f)
    | inr e ↦ e
  ]

  all_apart :
      (t : PyText) (us : List PyText)
      → 1 ≤ topic_recall_count s t
      → All (λ u. topic_recall_count s u ≡ 0) us
      → All (λ u. text_is t u ≡ false) us
  all_apart t [] h k = tt
  all_apart t (u ∷ us) h k = (apart t u h k.0, all_apart t us h k.1)

  distinct-append :
      (ts us : List PyText)
      → IsDistinct ts
      → IsDistinct us
      → All (λ t. 1 ≤ topic_recall_count s t) ts
      → All (λ u. topic_recall_count s u ≡ 0) us
      → IsDistinct (ts ++ us)
  unfolding IsDistinct
  distinct-append [] us d e h k = e
  distinct-append (t ∷ ts) us d e h k = (
    All-append (λ u. text_is t u ≡ false) ts us d.0 (all_apart t us h.0 k),
    distinct-append ts us d.1 e h.1 k,
  )

pub all_topics_added :
    (s between after : SessionRecallState) (ts us : List PyText)
    → Adds s between ts
    → Adds between after us
    → Adds s after (ts ++ us)
all_topics_added s between after ts us a b = record {
  distinct = distinct-append between ts us a.distinct b.distinct a.counted b.fresh;
  fresh =
      All-append (λ t. topic_recall_count s t ≡ 0) ts us a.fresh
        (All-mono (λ t. topic_recall_count between t ≡ 0) (λ t. topic_recall_count s t ≡ 0) us
          (λ t h. omega (arith, a.stays t, h)) b.fresh);
  counted =
      All-append (λ t. 1 ≤ topic_recall_count after t) ts us
        (All-mono (λ t. 1 ≤ topic_recall_count between t) (λ t. 1 ≤ topic_recall_count after t) ts
          (λ t h. omega (arith, b.stays t, h)) a.counted)
        b.counted;
  stays = λ t. omega (arith, a.stays t, b.stays t);
}
