-- ===== src/Guards/Verdicts.antt =====
-- When the reasons of a guard come to nothing.
use ai_child.Prelude.{
  Bool, true, false, not, ◌&&◌, ◌||◌, List, [], ◌∷◌, ◌++◌, String, if◌then◌else◌, ◌≡◌, refl, arith,
}
use ai_child.Guards.{Verdict, verdict_of, reason_if}
use ai_child.Guards.Runtime.{distinct}

abbrev pub is_accepted : Verdict → Bool
is_accepted Verdict.accepted = true
is_accepted (Verdict.blocked reasons) = false

abbrev pub is_empty : List String → Bool
is_empty [] = true
is_empty (r ∷ rs) = false

pub is_accepted-verdict_of : (rs : List String) → is_accepted (verdict_of rs) ≡ is_empty rs
unfolding verdict_of
is_accepted-verdict_of [] = refl
is_accepted-verdict_of (r ∷ rs) = refl

pub is_empty-append : (rs ss : List String) → is_empty (rs ++ ss) ≡ is_empty rs && is_empty ss
is_empty-append [] ss = refl
is_empty-append (r ∷ rs) ss = refl

pub is_empty-reason_if : (b : Bool) (r : String) → is_empty (reason_if b r) ≡ not b
unfolding reason_if
is_empty-reason_if true r = refl
is_empty-reason_if false r = refl

pub is_empty-distinct : (rs : List String) → is_empty (distinct rs) ≡ is_empty rs
unfolding distinct
is_empty-distinct [] = refl
is_empty-distinct (r ∷ rs) = refl

-- a condition that matters only under another
infix 5 ◌⇒◌
abbrev pub ◌⇒◌ : Bool → Bool → Bool
a ⇒ b = not a || b

pub is_empty-if :
    (b : Bool) (rs : List String) → is_empty (if b then rs else []) ≡ (b ⇒ is_empty rs)
is_empty-if true rs = refl
is_empty-if false rs = refl

pub is_accepted-if :
    (b : Bool) (v : Verdict) → is_accepted (if b then Verdict.accepted else v) ≡ b || is_accepted v
is_accepted-if true v = refl
is_accepted-if false v = refl

pub is_accepted→accepted : (v : Verdict) → is_accepted v ≡ true → v ≡ Verdict.accepted
is_accepted→accepted Verdict.accepted h = refl
is_accepted→accepted (Verdict.blocked reasons) h = ground arith

pub ruleset verdicts =
    (is_accepted-verdict_of, is_empty-append, is_empty-reason_if, is_empty-distinct, is_empty-if)
