-- ===== src/PyText.antt =====
-- Python's `str` as a list of code points, with the operations that the services call on a child's
-- text. `str.lower` stands on the Unicode tables and is an argument wherever it is used.
use Prim.Native.Char.{code}
use Prim.Native.String.{String}
use mathlib.Core.List.{reverse}
use ai_child.Prelude.{
  arith, nat_eq_refl, ℕ, Bool, true, false, ◌||◌, ◌&&◌, List, [], ◌∷◌, any, nat_eq, leb,
  if◌then◌else◌, ◌≡◌, refl, ◌++◌, str_eq, Option, none, some,
}

abbrev pub PyText : Type 0
PyText = List ℕ

-- The code points of a literal.
abbrev pub codes : String → PyText
codes String.[] = []
codes (String.◌∷◌ c s) = code c ∷ codes s

-- str.isspace on one character
unfoldable pub is_space : ℕ → Bool
is_space c =
    (leb 9 c && leb c 13)
    || (leb 28 c && leb c 32)
    || nat_eq c 0x85
    || nat_eq c 0xa0
    || nat_eq c 0x1680
    || (leb 0x2000 c && leb c 0x200a)
    || nat_eq c 0x2028
    || nat_eq c 0x2029
    || nat_eq c 0x202f
    || nat_eq c 0x205f
    || nat_eq c 0x3000

-- str.lstrip()
unfoldable pub lstrip : PyText → PyText
unfolding is_space
lstrip [] = []
lstrip (c ∷ t) = if is_space c then lstrip t else c ∷ t

-- str.strip()
unfoldable pub strip : PyText → PyText
unfolding lstrip
strip t = reverse (lstrip (reverse (lstrip t)))

-- text.replace(c, "") for one character c
unfoldable pub without : ℕ → PyText → PyText
without k [] = []
without k (c ∷ t) = let rest = without k t in if nat_eq c k then rest else c ∷ rest

-- text.startswith(m)
unfoldable pub is_prefix : PyText → PyText → Bool
is_prefix [] t = true
is_prefix (m ∷ ms) [] = false
is_prefix (m ∷ ms) (c ∷ t) = nat_eq m c && is_prefix ms t

-- `m in text`
unfoldable pub contains : PyText → PyText → Bool
unfolding is_prefix
contains m [] = is_prefix m []
contains m (c ∷ t) = is_prefix m (c ∷ t) || contains m t

-- any(marker in text for marker in markers)
unfoldable pub contains_any : PyText → List String → Bool
unfolding contains
contains_any text markers = any (λ m. contains (codes m) text) markers

contains_any_test : contains_any (codes "我不想活了") ("想死" ∷ "不想活" ∷ []) ≡ true
unfolding contains_any
contains_any_test = refl

-- sep.join(texts)
unfoldable pub join : PyText → List PyText → PyText
join sep [] = []
join sep (t ∷ []) = t
join sep (t ∷ u ∷ rest) = t ++ (sep ++ join sep (u ∷ rest))

-- `value == text` for a value that may be None
unfoldable pub opt_eq : Option String → String → Bool
opt_eq none s = false
opt_eq (some t) s = str_eq t s

-- `a == b` on texts
unfoldable pub text_is : PyText → PyText → Bool
text_is [] [] = true
text_is [] (d ∷ u) = false
text_is (c ∷ t) [] = false
text_is (c ∷ t) (d ∷ u) = nat_eq c d && text_is t u

-- the words, if the one in front is not empty
unfoldable pub with_word : PyText × List PyText → List PyText
with_word ([], words) = words
with_word (c ∷ word, words) = (c ∷ word) ∷ words

-- The letters in front of the first space, and the words behind it.
unfoldable pub split_first : PyText → PyText × List PyText
unfolding is_space with_word
split_first [] = ([], [])
split_first (c ∷ t) =
    let rest = split_first t in if is_space c then ([], with_word rest) else (c ∷ rest.0, rest.1)

-- text.split()
unfoldable pub split : PyText → List PyText
unfolding split_first
split t = with_word (split_first t)

pub text_is_refl : (t : PyText) → text_is t t ≡ true
unfolding text_is
text_is_refl [] = refl
text_is_refl (c ∷ t) = ground (arith, nat_eq_refl c, text_is_refl t)

pub text_is→eq : (t u : PyText) → text_is t u ≡ true → t ≡ u
unfolding text_is
text_is→eq [] [] h = refl
text_is→eq [] (d ∷ u) h = ground arith
text_is→eq (c ∷ t) [] h = ground arith
text_is→eq (c ∷ t) (d ∷ u) h =
    let e : c ≡ d = ground arith in
    let f : text_is t u ≡ true = ground arith in cc (e, text_is→eq t u f)
