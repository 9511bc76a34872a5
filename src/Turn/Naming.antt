-- ===== src/Turn/Naming.antt =====
-- conversation_service.py: the name that a child gives to a companion. A pattern is an optional word
-- or two in front of the group `name`, so it is the list of the words that can stand there, in the
-- order in which `re` tries them.
use mathlib.Core.List.{reverse}
use ai_child.Prelude.{
  ℕ, zero, suc, String, Bool, not, ◌&&◌, List, [], ◌∷◌, Option, none, some, length, drop, any,
  nat_eq, leb, if◌then◌else◌,
}
use ai_child.PyText.{PyText, codes, is_space, strip, is_prefix, contains_any, text_is}

abbrev pub skip_signals : List String
skip_signals = "先聊别的" ∷ "先聊新的" ∷ "不想" ∷ "不要" ∷ "不知道" ∷ "换个话题" ∷ "聊别的" ∷ "说别的" ∷ []

-- the texts that only wish for a name
abbrev naming_wishes : List String
naming_wishes = "起个名字" ∷ "起名字" ∷ "给它起个名字" ∷ "我想起个名字" ∷ []

-- _COMPANION_NAME_PATTERNS
abbrev companion_name_patterns : List (List String)
companion_name_patterns =
    ("这颗星星就叫" ∷ "这颗星星叫" ∷ "小星星就叫" ∷ "小星星叫" ∷ "它就叫" ∷ "它叫" ∷ "名字就叫" ∷ "名字叫" ∷ "就叫" ∷ "叫" ∷ [])
    ∷ ("名字就叫" ∷ "名字叫" ∷ [])
    ∷ ("给它起名叫" ∷ "给它起名" ∷ [])
    ∷ []

-- The class of the group `name` stands in a raw string: its `\\s` is a backslash and the letter s.
unfoldable pub is_name_char : ℕ → Bool
is_name_char c = not (any (nat_eq c) (0x5c ∷ 0x73 ∷ codes "，。！？!?、"))

-- The first n characters of the group at most.
unfoldable pub take_name : ℕ → PyText → PyText
unfolding is_name_char
take_name zero t = []
take_name (suc n) [] = []
take_name (suc n) (c ∷ t) = let rest = take_name n t in if is_name_char c then c ∷ rest else []

-- a text that is true in Python's sense
unfoldable pub nonempty : PyText → Option PyText
nonempty [] = none
nonempty (c ∷ t) = some (c ∷ t)

-- the group, if the text starts with one of the words and a name behind it
unfoldable pub name_behind : List String → PyText → Option PyText
unfolding is_prefix nonempty take_name
name_behind [] t = none
name_behind (word ∷ words) t =
    let rest = name_behind words t in
    elim (if is_prefix (codes word) t
      then nonempty (take_name 12 (drop (length (codes word)) t))
      else none) [ some name ↦ some name | none ↦ rest ]

-- re.search(pattern, text)
unfoldable pub search_name : List String → PyText → Option PyText
unfolding name_behind
search_name words [] = none
search_name words (c ∷ t) =
    let rest = search_name words t in
    elim (name_behind words (c ∷ t)) [ some name ↦ some name | none ↦ rest ]

-- the first pattern that matches
unfoldable pub match_patterns : List (List String) → PyText → Option PyText
unfolding search_name
match_patterns [] t = none
match_patterns (words ∷ patterns) t =
    let rest = match_patterns patterns t in
    elim (search_name words t) [ some name ↦ some name | none ↦ rest ]

-- text.strip("，。！？!?、,. ")
unfoldable pub lstrip_marks : PyText → PyText
lstrip_marks [] = []
lstrip_marks (c ∷ t) = if any (nat_eq c) (codes "，。！？!?、,. ") then lstrip_marks t else c ∷ t

unfoldable pub strip_marks : PyText → PyText
unfolding lstrip_marks
strip_marks t = reverse (lstrip_marks (reverse (lstrip_marks t)))

-- re.sub(r"\s+", "", text)
unfoldable pub compacted : PyText → PyText
unfolding is_space
compacted [] = []
compacted (c ∷ t) = let rest = compacted t in if is_space c then rest else c ∷ rest

-- the last way to a name: a short text that gives no sign to skip
unfoldable pub plain_name : PyText → Option PyText
unfolding contains_any
plain_name plain =
    if leb 1 (length plain) && leb (length plain) 8 && not (contains_any plain skip_signals)
    then some plain
    else none

-- a text that is not empty once stripped
unfoldable pub name_in : PyText → Option PyText
unfolding compacted text_is match_patterns strip_marks plain_name
name_in text =
    if any (λ wish. text_is (compacted text) (codes wish)) naming_wishes
    then none
    else elim (match_patterns companion_name_patterns text) [
      | some name ↦ some (strip_marks name)
      | none ↦ plain_name (strip_marks (compacted text))
    ]

-- _extract_pending_companion_name
unfoldable pub extract_pending_companion_name : PyText → Option PyText
unfolding strip nonempty name_in
extract_pending_companion_name child_text = elim (nonempty (strip child_text)) [
  | none ↦ none
  | some text ↦ name_in text
]

-- `if companion_name:` behind it
unfoldable pub companion_name : PyText → Option PyText
unfolding extract_pending_companion_name nonempty
companion_name child_text = elim (extract_pending_companion_name child_text) [
  | none ↦ none
  | some name ↦ nonempty name
]
