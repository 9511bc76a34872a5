-- ===== src/Attachments/Fresh.antt =====
-- attachment_service.py: the latest homework picture of a session.
use ai_child.Prelude.{
  ℕ, ◌≡◌, Bool, true, false, not, ◌&&◌, ◌||◌, List, [], ◌∷◌, Option, none, some, String, All, leb,
  str_eq, arith, refl, if_of, inl, inr, sym, ◌∙◌,
}
use ai_child.Prelude.Sorting.{
  keep, values, IsSorted, sorted-IsSorted, All-mono, IsIn, of-IsIn, All-of-keep, All-of-sorted,
}
use ai_child.Attachments.{
  AttachmentRecord, Repository, list_by_session, is_ocr_ready, is_homework, has_text,
}
use ai_child.Attachments.Own.{is_over, session-stored}
use ai_child.Attachments.Service.{
  HomeworkAttachmentContext, homework_context, first_in, may_be_homework, is_ready_homework,
  is_expired_at, get_latest_ready_homework_context,
}

abbrev is_as_new : AttachmentRecord → AttachmentRecord → Bool
is_as_new a b = leb b.created_at a.created_at

list_by_session-IsSorted :
    (session : String) (items : Repository) → IsSorted is_as_new (list_by_session session items)
unfolding list_by_session
list_by_session-IsSorted session items =
    sorted-IsSorted is_as_new (λ a b h. ground arith) (λ a b c h k. ground arith)
      (keep (λ a. str_eq a.session_id session) (values items))

module _ (test : AttachmentRecord → Bool) (xs : List AttachmentRecord) where
  -- An answer to the search for the newest attachment of a list that passes a test: none if none does.
  unfoldable pub IsNewest : Option HomeworkAttachmentContext → Type 0
  IsNewest none = All (λ b. test b ≡ false) xs
  IsNewest (some context) =
      (a : AttachmentRecord) × IsIn a xs
      × (test a ≡ true)
      × (context ≡ record { attachment_id = a.id; recognized_content = a.recognized_content })
      × All (λ b. not (test b) || leb b.created_at a.created_at ≡ true) xs

first_in-IsNewest :
    (test : AttachmentRecord → Bool) (xs : List AttachmentRecord)
    → IsSorted is_as_new xs
    → IsNewest test xs (homework_context (first_in test xs))
unfolding first_in IsNewest
first_in-IsNewest test [] s = tt
first_in-IsNewest test (a ∷ xs) s =
    if_of (λ o. IsNewest test (a ∷ xs) (homework_context o)) (test a)
      (λ h. (
        a,
        inl refl,
        h,
        refl,
        (
          ground arith,
          All-mono (λ b. is_as_new a b ≡ true)
              (λ b. not (test b) || leb b.created_at a.created_at ≡ true) xs
              (λ b k. ground (arith, k)) s.0,
        ),
      ))
      (λ h. behind (first_in test xs) h (first_in-IsNewest test xs s.1))
  where
    behind :
        (o : Option AttachmentRecord)
        → test a ≡ false
        → IsNewest test xs (homework_context o)
        → IsNewest test (a ∷ xs) (homework_context o)
    behind none h n = (h, n)
    behind (some b) h n = (n.0, inr n.1, n.2, n.3, (ground (arith, h), n.4))

module _ (child session : String) (now max_age_seconds : ℕ) where
  -- what the search asks: the child and the session, a recognized homework problem with a text, for learning or
  -- for no stated purpose, and not older than the limit
  abbrev pub is_fresh_homework : AttachmentRecord → Bool
  is_fresh_homework a =
      str_eq a.child_id child
      && str_eq a.session_id session
      && is_ocr_ready a.status
      && is_homework a.recognized_content
      && may_be_homework a.recognized_content.image_purpose
      && has_text a.recognized_content.text
      && not (is_over now max_age_seconds a)

  -- the test of the code
  abbrev is_ready_now : AttachmentRecord → Bool
  is_ready_now a = is_ready_homework child session a && not (is_expired_at now max_age_seconds a)

  ready_now-fresh : (a : AttachmentRecord) → is_ready_now a ≡ is_fresh_homework a
  unfolding is_ready_homework is_expired_at
  ready_now-fresh a = ground arith

  module _ (items : Repository) where
    -- What holds of all attachments of the session, and of those elsewhere, holds of all that are stored.
    all_stored :
        (P : AttachmentRecord → Type 0)
        → ((a : AttachmentRecord) → str_eq a.session_id session ≡ false → P a)
        → All P (list_by_session session items)
        → All P (values items)
    unfolding list_by_session
    all_stored P out a =
        All-of-keep P (λ a. str_eq a.session_id session) (values items) out
          (All-of-sorted P is_as_new (keep (λ a. str_eq a.session_id session) (values items)) a)

    IsNewest-stored :
        (o : Option HomeworkAttachmentContext)
        → IsNewest is_ready_now (list_by_session session items) o
        → IsNewest is_fresh_homework (values items) o
    unfolding IsNewest
    IsNewest-stored none n =
        all_stored (λ b. is_fresh_homework b ≡ false) (λ b e. ground arith)
          (All-mono (λ b. is_ready_now b ≡ false) (λ b. is_fresh_homework b ≡ false)
            (list_by_session session items) (λ b h. sym (ready_now-fresh b) ∙ h) n)
    IsNewest-stored (some context) n = (
      n.0,
      of-IsIn (λ b. IsIn b (values items)) n.0 (list_by_session session items) n.1
          (session-stored child session items),
      sym (ready_now-fresh n.0) ∙ n.2,
      n.3,
      all_stored (λ b. not (is_fresh_homework b) || leb b.created_at n.0.created_at ≡ true)
          (λ b e. ground arith)
          (All-mono (λ b. not (is_ready_now b) || leb b.created_at n.0.created_at ≡ true)
            (λ b. not (is_fresh_homework b) || leb b.created_at n.0.created_at ≡ true)
            (list_by_session session items) (λ b h. rw (← ready_now-fresh b) h) n.4),
    )

    -- The homework picture that is found without its identifier is a stored one, and the newest of the stored
    -- ones of the child and the session that are recognized as a homework problem with a text, for learning or
    -- for no stated purpose, and are not older than the limit; none is found exactly if there is none.
    pub latest_homework-IsNewest :
        IsNewest is_fresh_homework
          (values items)
          (get_latest_ready_homework_context child session now max_age_seconds items)
    unfolding get_latest_ready_homework_context
    latest_homework-IsNewest = IsNewest-stored _ (
        first_in-IsNewest is_ready_now (list_by_session session items)
          (list_by_session-IsSorted session items))
