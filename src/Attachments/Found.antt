-- ===== src/Attachments/Found.antt =====
-- attachment_service.py with modality_manager.py: which picture a turn finds as homework.
use ai_child.Prelude.{
  ℕ, ◌≡◌, Bool, true, false, not, ◌&&◌, ◌||◌, [], ◌∷◌, Option, none, some, String, str_eq, eq_refl,
  leb, ltb, lookup, lookup-insert, if◌then◌else◌, arith, refl, if_of, ap, ◌∙◌,
}
use ai_child.PyText.{PyText}
use ai_child.Attachments.{
  ImagePurpose, RecognizedContent, AttachmentRecord, save_attachment, is_homework, is_learning,
  is_ocr_ready, has_text,
}
use ai_child.Attachments.Modality.{
  ModalityDecision, is_private, decide_image_attachment, homework_intake_decision, text_of,
  is_cocreation_type,
}
use ai_child.Attachments.Service.{
  AttachmentCreateRequest, AttachmentService, HomeworkAttachmentContext, is_ready_homework_response,
  create_attachment, may_be_homework, is_ready_homework, first_of, homework_context,
  get_ready_homework_context,
}

module _ (has_multiple_problems : PyText → Bool)
    (safe_child_detail : RecognizedContent → PyText) where
  abbrev decided : RecognizedContent → ModalityDecision
  decided = decide_image_attachment has_multiple_problems safe_child_detail

  -- a decision under which the picture is found as homework
  abbrev is_ready_decision : ModalityDecision → Bool
  is_ready_decision d =
      is_ocr_ready d.status
      && is_homework d.recognized_content
      && may_be_homework d.recognized_content.image_purpose
      && has_text d.recognized_content.text

  private_is_no_homework : (c : RecognizedContent) → is_private c ≡ true → is_homework c ≡ false
  private_is_no_homework c h = ground (arith, h)

  learning_may_be_homework :
      (o : Option ImagePurpose) → is_learning o ≡ true → may_be_homework o ≡ true
  learning_may_be_homework none h = ground (arith, h)
  learning_may_be_homework (some p) h = h

  -- A decision is ready exactly for a homework picture that is clear enough, and keeps what was recognized.
  abbrev Agrees : RecognizedContent → ModalityDecision → Type 0
  Agrees c d =
      (is_ready_decision d ≡ is_ready_homework_response c)
      × (is_ready_homework_response c ≡ true → d.recognized_content ≡ c)

  decided-Agrees : (c : RecognizedContent) → Agrees c (decided c)
  unfolding decide_image_attachment is_ready_homework_response homework_intake_decision
  decided-Agrees c =
      if_of (Agrees c) (is_private c) (λ h. (ground (arith, private_is_no_homework c h), λ _. refl))
        (λ p.
          if_of (Agrees c) (not (is_learning c.image_purpose))
            (λ h.
              if_of (Agrees c) (ltb c.confidence 65 || not (is_cocreation_type c.recognized_type))
                (λ _. (ground (arith, h), λ _. refl)) (λ _. (ground (arith, h), λ _. refl)))
            (λ l.
              if_of (Agrees c) (has_text c.text && leb 75 c.confidence)
                (λ h.
                  if_of (Agrees c) (has_multiple_problems (text_of c.text))
                    (λ _.
                      (ground (arith, h, l, learning_may_be_homework c.image_purpose), λ _. refl))
                    (λ _.
                      (ground (arith, h, l, learning_may_be_homework c.image_purpose), λ _. refl)))
                (λ h. (ground (arith, h), λ e. elim (unclear h e) [ ]))))
    where
      unclear :
          has_text c.text && leb 75 c.confidence ≡ false → is_ready_homework_response c ≡ true → ⊥
      unclear h e = ground (arith, h, e)

  module _ (recognize : AttachmentCreateRequest → RecognizedContent) where
    -- Whether the picture that an attachment was made of is found as homework by a turn, and with what: exactly
    -- if the turn is of its own child and session, and the picture is a homework problem shown for learning,
    -- with a text that was recognized with a confidence of 0.75 at least.
    pub homework_is_found_iff :
        (now : ℕ) (id : String) (r : AttachmentCreateRequest) (s : AttachmentService)
        (child session : String)
        → let after =
            (create_attachment has_multiple_problems safe_child_detail recognize now id r s).1 in
          get_ready_homework_context child session (id ∷ []) after.repository ≡ (
            if str_eq r.child_id child
              && str_eq r.session_id session
              && is_ready_homework_response (recognize r)
            then some (record { attachment_id = id; recognized_content = recognize r })
            else none)
    unfolding create_attachment save_attachment get_ready_homework_context first_of
        is_ready_homework
    homework_is_found_iff now id r s child session =
        ap found (lookup-insert id id attachment s.repository)
        ∙ ap (λ (b : Bool). found (if b then some attachment else lookup id s.repository))
            (eq_refl id)
        ∙ (let agrees = decided-Agrees (recognize r) in
            told (is_ready_homework child session attachment) _ (ground (arith, agrees.0))
              (λ e. agrees.1 (ground (arith, e))))
      where
        attachment : AttachmentRecord
        attachment = record {
          id = id;
          child_id = r.child_id;
          session_id = r.session_id;
          attachment_type = r.attachment_type;
          image_purpose = r.image_purpose;
          status = (decided (recognize r)).status;
          recognized_content = (decided (recognize r)).recognized_content;
          file_id = r.file_id;
          created_at = now;
        }

        found : Option AttachmentRecord → Option HomeworkAttachmentContext
        found o = homework_context (elim o as (λ _. Option AttachmentRecord) [
          | none ↦ none
          | some a ↦ if is_ready_homework child session a then some a else none
        ])

        context : RecognizedContent → HomeworkAttachmentContext
        context c = record { attachment_id = id; recognized_content = c }

        told :
            (b ready : Bool)
            → b ≡ ready
            → (ready ≡ true → attachment.recognized_content ≡ recognize r)
            → homework_context (if b then some attachment else none)
              ≡ (if ready then some (context (recognize r)) else none)
        told true true e h = ap (λ c. some (context c)) (h refl)
        told true false e h = ground (arith, e)
        told false true e h = ground (arith, e)
        told false false e h = refl
