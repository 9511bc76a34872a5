-- ===== src/History/Log.antt =====
-- conversation_history_service.py: what a session's history abstracts from, a log without a limit.
use ai_child.Prelude.{
  ℕ, ◌+◌, ◌-◌, ◌≤◌, ◌≡◌, String, List, [], ◌∷◌, ◌++◌, length, drop, length-append, length-drop,
  str_eq, if◌then◌else◌, arith, refl, ap, sym, ◌∙◌, zero, suc,
}
use ai_child.PyText.{PyText}
use ai_child.History.{ConversationHistoryMessage, Role, said, slice_from_end, trim}

-- The calls that change a history.
pub data Event : Type 0 where
  turn : ℕ → ℕ → String → PyText → PyText → Event
  reset : String → Event

-- Every session's messages since it was last reset.
abbrev pub Log : Type 0
Log = String → List ConversationHistoryMessage

abbrev pub extend : Event → Log → Log
extend (turn asked answered session child_text agent_text) log other =
    if str_eq session other
    then log other ++ (said Role.user asked child_text ++ said Role.assistant answered agent_text)
    else log other
extend (reset session) log other = if str_eq session other then [] else log other

abbrev pub log_of : List Event → Log → Log
log_of [] log = log
log_of (e ∷ events) log = log_of events (extend e log)

-- The last n elements.
abbrev pub last {ℓ} : {A : Type ℓ} → ℕ → List A → List A
last n xs = drop (length xs - n) xs

module _ {ℓ} {A : Type ℓ} where
  drop-nil : (k : ℕ) → drop {A = A} k [] ≡ []
  drop-nil zero = refl
  drop-nil (suc k) = refl

  drop-drop : (a b : ℕ) (xs : List A) → drop a (drop b xs) ≡ drop (b + a) xs
  drop-drop a zero xs = let e : a ≡ 0 + a = omega arith in ap (λ k. drop k xs) e
  drop-drop a (suc b) [] = drop-nil a ∙ sym (drop-nil (suc b + a))
  drop-drop a (suc b) (x ∷ xs) =
      let e : suc (b + a) ≡ suc b + a = omega arith in
      drop-drop a b xs ∙ ap (λ k. drop k (x ∷ xs)) e

  drop-append : (k : ℕ) (xs ys : List A) → k ≤ length xs → drop k (xs ++ ys) ≡ drop k xs ++ ys
  drop-append zero xs ys h = refl
  drop-append (suc k) [] ys h = absurd (omega arith)
  drop-append (suc k) (x ∷ xs) ys h = drop-append k xs ys (omega arith)

  pub last-drop : (n k : ℕ) (xs : List A) → k ≤ length xs - n → last n (drop k xs) ≡ last n xs
  last-drop n k xs h =
      drop-drop (length (drop k xs) - n) k xs
      ∙ ap (λ m. drop m xs) (omega (arith, length-drop k xs))

  -- What is cut off before an addition would be cut off after it.
  pub last-last-append : (n : ℕ) (xs ys : List A) → last n (last n xs ++ ys) ≡ last n (xs ++ ys)
  last-last-append n xs ys =
      ap (last n) (sym (drop-append (length xs - n) xs ys (omega arith)))
      ∙ last-drop n (length xs - n) (xs ++ ys) (omega (arith, length-append xs ys))

  pub last-last : (m n : ℕ) (xs : List A) → m ≤ n → last m (last n xs) ≡ last m xs
  last-last m n xs h = last-drop m (length xs - n) xs (omega arith)

  pub trim-eq-last : (n : ℕ) (xs : List A) → trim n xs ≡ last n xs
  unfolding trim
  trim-eq-last n xs = ground (arith, ap (λ k. drop k xs))

  pub slice-eq-last : (n : ℕ) (xs : List A) → 1 ≤ n → slice_from_end n xs ≡ last n xs
  unfolding slice_from_end
  slice-eq-last zero xs h = absurd (omega arith)
  slice-eq-last (suc n) xs h = refl
