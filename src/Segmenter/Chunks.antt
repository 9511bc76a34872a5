-- ===== src/Segmenter/Chunks.antt =====
-- text_segmenter.py, `_split_long_sentence`.
use mathlib.Core.Option
use mathlib.Core.List.{flatten}
use ai_child.Prelude.{
  ℕ, zero, suc, ◌≤◌, ◌<◌, ◌≡◌, List, [], ◌∷◌, ◌++◌, Option, none, some, length, take, drop,
  take-append-drop, All, All-append, append-nil, ltb→lt, lt→ltb, ltb_false→le, arith, refl, ap, sym,
  ◌∙◌, if◌then◌else◌, nat_eq, ltb, leb, leb→le, if_of, length-drop, length-take, Yields, Yields-map,
  Yields-bind,
}
use ai_child.PyText.{PyText, strip, codes}
use ai_child.Segmenter.{
  keep, rfind, later, last_of, cut_after, split_at, chunk_loop, split_long_sentence, split_all,
}
use ai_child.Segmenter.Squeeze.{
  squeeze, squeeze-append, squeeze-keep, squeeze-strip, length-strip, flatten-append,
}
use ai_child.Segmenter.Sentences.{IsNonEmpty, All-keep, Splits, Splits-keep}

-- a position, if there is one, below n
abbrev IsBelow : ℕ → Option ℕ → Type 0
IsBelow n none = Unit
IsBelow n (some i) = i < n

rfind-IsBelow : (c : ℕ) (t : PyText) → IsBelow (length t) (rfind c t)
unfolding rfind
rfind-IsBelow c [] = tt
rfind-IsBelow c (d ∷ t) = step (rfind c t) (rfind-IsBelow c t)
  where
    step :
        (o : Option ℕ)
        → IsBelow (length t) o
        → IsBelow
            (suc (length t))
            (elim o [ some i ↦ some (suc i) | none ↦ if nat_eq d c then some 0 else none ])
    step (some i) h = omega arith
    step none h = if_of (IsBelow (suc (length t))) (nat_eq d c) (λ _. omega arith) (λ _. tt)

later-IsBelow : (n : ℕ) (p q : Option ℕ) → IsBelow n p → IsBelow n q → IsBelow n (later p q)
unfolding later
later-IsBelow n none q hp hq = hq
later-IsBelow n (some p) none hp hq = hp
later-IsBelow n (some p) (some q) hp hq = if_of (IsBelow n) (ltb p q) (λ _. hq) (λ _. hp)

last_of-IsBelow : (boundaries t : PyText) → IsBelow (length t) (last_of boundaries t)
unfolding last_of
last_of-IsBelow [] t = tt
last_of-IsBelow (b ∷ boundaries) t =
    later-IsBelow (length t) (rfind b t) (last_of boundaries t) (rfind-IsBelow b t)
      (last_of-IsBelow boundaries t)

cut_after-bounds :
    (m n k : ℕ) (o : Option ℕ)
    → 1 ≤ n
    → k ≤ n
    → IsBelow k o
    → (1 ≤ cut_after m n o) × (cut_after m n o ≤ n)
unfolding cut_after
cut_after-bounds m n k none h hk b = (h, omega arith)
cut_after-bounds m n k (some i) h hk b = ground arith

split_at-bounds : (m n : ℕ) (t : PyText) → 1 ≤ n → (1 ≤ split_at m n t) × (split_at m n t ≤ n)
unfolding split_at
split_at-bounds m n t h =
    cut_after-bounds m n (length (take n t)) (last_of (codes "，,；;：:、 ") (take n t)) h
      (omega (arith, length-take n t)) (last_of-IsBelow (codes "，,；;：:、 ") (take n t))

-- The pieces of a text: none is empty or longer than n, and together they hold its characters.
pub record Fits (n : ℕ) (text : PyText) (pieces : List PyText) : Type 0 where
  pub splits : Splits text pieces
  pub fits : All (λ (p : PyText). length p ≤ n) pieces

All-keep_le :
    (n : ℕ) (s : PyText) (rest : List PyText)
    → length s ≤ n
    → All (λ (p : PyText). length p ≤ n) rest
    → All (λ (p : PyText). length p ≤ n) (keep s rest)
unfolding keep
All-keep_le n [] rest h a = a
All-keep_le n (c ∷ s) rest h a = (h, a)

Fits-self : (n : ℕ) (t : PyText) → length t ≤ n → Fits n t (keep t [])
Fits-self n t h = record {
  splits = record {
    holds = squeeze-keep t [] ∙ unfold flatten squeeze in append-nil (squeeze t);
    filled = All-keep t [] tt;
  };
  fits = All-keep_le n t [] h tt;
}

-- A chunk cut off at k, and the pieces of what is left.
Fits-cut :
    (n k : ℕ) (t : PyText) (pieces : List PyText)
    → k ≤ n
    → Fits n (strip (drop k t)) pieces
    → Fits n t (keep (strip (take k t)) pieces)
Fits-cut n k t pieces h f = record {
  splits =
      Splits-keep (take k t) (strip (drop k t)) t pieces
        (ap (λ u. squeeze (take k t) ++ u) (squeeze-strip (drop k t))
          ∙ sym (squeeze-append (take k t) (drop k t))
          ∙ ap squeeze (take-append-drop k t))
        f.splits;
  fits =
      All-keep_le n (strip (take k t)) pieces
        (omega (arith, length-strip (take k t), length-take k t)) f.fits;
}

Fits-append :
    (n : ℕ) (s t : PyText) (xs ys : List PyText)
    → Fits n s xs
    → Fits n t ys
    → Fits n (s ++ t) (xs ++ ys)
Fits-append n s t xs ys f g = record {
  splits = record {
    holds =
        ap squeeze (flatten-append xs ys)
        ∙ squeeze-append (flatten xs) (flatten ys)
        ∙ ap (λ u. u ++ squeeze (flatten ys)) f.splits.holds
        ∙ ap (λ u. squeeze s ++ u) g.splits.holds
        ∙ sym (squeeze-append s t);
    filled = All-append IsNonEmpty xs ys f.splits.filled g.splits.filled;
  };
  fits = All-append (λ (p : PyText). length p ≤ n) xs ys f.fits g.fits;
}

module _ (m n : ℕ) (positive : 1 ≤ n) where
  chunk_loop-Fits :
      (fuel : ℕ) (t : PyText) → length t ≤ fuel → Yields (Fits n t) (chunk_loop fuel m n t)
  unfolding chunk_loop
  chunk_loop-Fits zero t h =
      if_of (Yields (Fits n t)) (ltb n (length t))
        (λ e. absurd (omega (arith, ltb→lt n (length t) e)))
        (λ e. Fits-self n t (ltb_false→le n (length t) e))
  chunk_loop-Fits (suc fuel) t h =
      let k = split_at m n t in
      if_of (Yields (Fits n t)) (ltb n (length t))
        (λ e.
          Yields-map (Fits n (strip (drop k t))) (Fits n t) (keep (strip (take k t)))
            (chunk_loop fuel m n (strip (drop k t)))
            (λ pieces. Fits-cut n k t pieces ((split_at-bounds m n t positive).1))
            (chunk_loop-Fits fuel (strip (drop k t)) (
              omega
                (arith, split_at-bounds m n t positive, length-strip (drop k t), length-drop k t))))
        (λ e. Fits-self n t (ltb_false→le n (length t) e))

  -- With a positive limit the chunks of a sentence are found.
  pub split_long-Fits : (t : PyText) → IsNonEmpty t → Yields (Fits n t) (split_long_sentence m n t)
  unfolding split_long_sentence
  split_long-Fits t h =
      if_of (Yields (Fits n t)) (leb (length t) n)
        (λ e. record {
          splits = record { holds = unfold flatten in ap squeeze (append-nil t); filled = (h, tt) };
          fits = (leb→le (length t) n e, tt);
        })
        (λ _. chunk_loop-Fits (length t) t (omega arith))

  pub split_all-Fits :
      (sentences : List PyText)
      → All IsNonEmpty sentences
      → Yields (Fits n (flatten sentences)) (split_all m n sentences)
  unfolding split_all flatten
  split_all-Fits [] h = record { splits = record { holds = refl; filled = tt }; fits = tt }
  split_all-Fits (s ∷ sentences) h =
      Yields-bind (Fits n s) (Fits n (s ++ flatten sentences)) (split_long_sentence m n s) _
        (λ chunks f.
          Yields-map (Fits n (flatten sentences)) (Fits n (s ++ flatten sentences))
            (λ rest. chunks ++ rest) (split_all m n sentences)
            (λ rest. Fits-append n s (flatten sentences) chunks rest f)
            (split_all-Fits sentences h.1))
        (split_long-Fits s h.0)

-- With the limit 0 the loop over a stripped text that is not empty runs out of any fuel: in the
-- program it does not end.
pub chunk_loop-diverges :
    (fuel m : ℕ) (t : PyText) → 1 ≤ length t → strip t ≡ t → chunk_loop fuel m 0 t ≡ none
unfolding chunk_loop
chunk_loop-diverges zero m t h e = rw (lt→ltb 0 (length t) h)
chunk_loop-diverges (suc fuel) m t h e = rw (lt→ltb 0 (length t) h) (
    ap (Option.map (keep (strip (take (split_at m 0 t) t))))
      (again (chunk_loop-diverges fuel m t h e)))
  where
    nothing_cut : split_at m 0 t ≡ 0
    nothing_cut = unfold split_at in refl

    again :
        chunk_loop fuel m 0 t ≡ none → chunk_loop fuel m 0 (strip (drop (split_at m 0 t) t)) ≡ none
    again ih = rw (nothing_cut, e) ih
