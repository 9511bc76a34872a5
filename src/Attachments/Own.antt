-- ===== src/Attachments/Own.antt =====
-- conversation_service.py, `handle_message`: the homework that a message is about, found in its attachments or,
-- where it has none and sounds like a question about homework, in its session.
use ai_child.Prelude.{
  ℕ, ◌≡◌, Bool, true, false, not, ◌&&◌, List, [], ◌∷◌, Option, none, some, String, lookup,
  if◌then◌else◌, arith, refl, if_of, ◌+◌, ◌*◌, ltb, leb, str_eq, eq_iff, All,
}
use ai_child.PyText.{PyText, strip, contains_any}
use ai_child.Prelude.Sorting.{
  keep, values, IfSome, All-values-lookup, All-sorted, All-keep, IsIn, all-IsIn,
}
use ai_child.Attachments.{
  AttachmentRecord, Repository, list_by_session, is_ocr_ready, is_homework, has_text,
}
use ai_child.Attachments.Service.{
  HomeworkAttachmentContext, homework_context, first_of, first_in, may_be_homework,
  is_ready_homework, is_expired_at, get_ready_homework_context, get_latest_ready_homework_context,
}

-- _is_homework_followup_text
unfoldable pub is_homework_followup_text : PyText → Bool
unfolding strip contains_any
is_homework_followup_text text =
    contains_any (strip text)
      ("第" ∷ "题" ∷ "这道" ∷ "那道" ∷ "题目" ∷ "怎么做" ∷ "不会" ∷ "三位数" ∷ "两位数" ∷ "开头" ∷ "刚才" ∷ "那题" ∷ [])

abbrev has_none : List String → Bool
has_none [] = true
has_none (id ∷ ids) = false

-- the homework of a message, with the default age of half an hour
unfoldable pub find_homework :
    ℕ
    → (child session : String) → PyText
    → List String
    → Repository
    → Option HomeworkAttachmentContext
unfolding is_homework_followup_text get_ready_homework_context get_latest_ready_homework_context
find_homework now child session text attachments items =
    elim (get_ready_homework_context child session attachments items) [
      | some context ↦ some context
      | none ↦
          if has_none attachments && is_homework_followup_text text
          then get_latest_ready_homework_context child session now 1800 items
          else none
    ]

-- older than a number of seconds, in microseconds
abbrev pub is_over : ℕ → ℕ → AttachmentRecord → Bool
is_over now seconds a = ltb (a.created_at + seconds * 1000000) now

-- The homework of an attachment that is stored, that its own child showed in its own session, and that was
-- recognized as a homework problem with a text, for learning or for no stated purpose.
pub record IsHomeworkOf (child session : String) (items : Repository) (a : AttachmentRecord)
    : Type 0 where
  pub stored : IsIn a (values items)
  pub of_child : a.child_id ≡ child
  pub of_session : a.session_id ≡ session
  pub ready : is_ocr_ready a.status ≡ true
  pub problem : is_homework a.recognized_content ≡ true
  pub purpose : may_be_homework a.recognized_content.image_purpose ≡ true
  pub worded : has_text a.recognized_content.text ≡ true

module _ (child session : String) (items : Repository) where
  ready-IsHomeworkOf :
      (a : AttachmentRecord)
      → is_ready_homework child session a ≡ true
      → IsIn a (values items)
      → IsHomeworkOf child session items a
  unfolding is_ready_homework
  ready-IsHomeworkOf a h i = record {
    stored = i;
    of_child = ground (arith, eq_iff a.child_id child);
    of_session = ground (arith, eq_iff a.session_id session);
    ready = ground arith;
    problem = ground arith;
    purpose = ground arith;
    worded = ground arith;
  }

  -- Homework that is none, or is of such an attachment, one that is not over an age.
  unfoldable pub IsOwnHomework :
      (AttachmentRecord → Bool) → Option HomeworkAttachmentContext → Type 0
  IsOwnHomework is_too_old none = Unit
  IsOwnHomework is_too_old (some context) =
      (a : AttachmentRecord) × IsHomeworkOf child session items a
      × (is_too_old a ≡ false)
      × (context ≡ record { attachment_id = a.id; recognized_content = a.recognized_content })

  -- No age is too old for an attachment that the message names.
  abbrev any_age : AttachmentRecord → Bool
  any_age a = false

  first_of-IsOwnHomework :
      (ids : List String)
      → IsOwnHomework any_age
          (homework_context (first_of (is_ready_homework child session) ids items))
  unfolding first_of IsOwnHomework
  first_of-IsOwnHomework [] = tt
  first_of-IsOwnHomework (id ∷ ids) =
      by_lookup (lookup id items) (first_of (is_ready_homework child session) ids items)
        (All-values-lookup (λ b. IsIn b (values items)) id items (all-IsIn (values items)))
        (first_of-IsOwnHomework ids)
    where
      by_lookup :
          (o rest : Option AttachmentRecord)
          → IfSome (λ b. IsIn b (values items)) o
          → IsOwnHomework any_age (homework_context rest)
          → IsOwnHomework any_age (
              homework_context (elim o as (λ _. Option AttachmentRecord) [
                | none ↦ rest
                | some a ↦ if is_ready_homework child session a then some a else rest
              ]))
      by_lookup none rest i h = h
      by_lookup (some a) rest i h =
          if_of (λ o. IsOwnHomework any_age (homework_context o))
            (is_ready_homework child session a) (λ e. (a, ready-IsHomeworkOf a e i, refl, refl))
            (λ _. h)

  first_in-IsOwnHomework :
      (now max_age_seconds : ℕ) (xs : List AttachmentRecord)
      → All (λ b. IsIn b (values items)) xs
      → IsOwnHomework (is_over now max_age_seconds) (
          homework_context (
            first_in
              (λ a. is_ready_homework child session a && not (is_expired_at now max_age_seconds a))
              xs))
  unfolding first_in IsOwnHomework is_expired_at
  first_in-IsOwnHomework now max_age_seconds [] i = tt
  first_in-IsOwnHomework now max_age_seconds (a ∷ xs) i =
      if_of (λ o. IsOwnHomework (is_over now max_age_seconds) (homework_context o))
        (is_ready_homework child session a && not (is_expired_at now max_age_seconds a))
        (λ e. (a, ready-IsHomeworkOf a (ground arith) i.0, ground arith, refl))
        (λ _. first_in-IsOwnHomework now max_age_seconds xs i.1)

  -- The attachments of a session are stored ones.
  pub session-stored : All (λ b. IsIn b (values items)) (list_by_session session items)
  unfolding list_by_session
  session-stored =
      All-sorted (λ b. IsIn b (values items)) (λ a b. leb b.created_at a.created_at)
        (keep (λ a. str_eq a.session_id session) (values items))
        (All-keep (λ b. IsIn b (values items)) (λ a. str_eq a.session_id session) (values items)
          (all-IsIn (values items)))

  -- The homework that a message is about is that of a stored attachment that its own child showed in its own
  -- session and that was recognized as a homework problem with a text, whatever identifiers of attachments the
  -- message names and whatever is stored. Where the message names none, it is not older than half an hour.
  pub homework-IsOwnHomework :
      (now : ℕ) (text : PyText) (attachments : List String)
      → IsOwnHomework
          (λ a. has_none attachments && is_over now 1800 a)
          (find_homework now child session text attachments items)
  unfolding find_homework get_ready_homework_context get_latest_ready_homework_context first_of
  homework-IsOwnHomework now text [] =
      if_of (IsOwnHomework (is_over now 1800)) (is_homework_followup_text text)
        (λ _. first_in-IsOwnHomework now 1800 (list_by_session session items) session-stored)
        (λ _. unfold IsOwnHomework in tt)
  homework-IsOwnHomework now text (id ∷ ids) =
      by_ready (get_ready_homework_context child session (id ∷ ids) items)
        (first_of-IsOwnHomework (id ∷ ids))
    where
      by_ready :
          (o : Option HomeworkAttachmentContext)
          → IsOwnHomework any_age o
          → IsOwnHomework any_age (elim o as (λ _. Option HomeworkAttachmentContext) [
            | some context ↦ some context
            | none ↦ none
          ])
      by_ready (some context) h = h
      by_ready none h = h
