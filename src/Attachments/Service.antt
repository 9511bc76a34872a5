-- ===== src/Attachments/Service.antt =====
-- backend/app/services/attachment_service.py: an attachment is made of what was recognized in it, and is found
-- again by the turns of its session. What recognizes a picture, fresh identifiers and the time are arguments.
use ai_child.Prelude.{
  ℕ, ◌+◌, ◌*◌, Bool, true, false, not, ◌&&◌, ◌||◌, List, [], ◌∷◌, Option, none, some, String,
  str_eq, ltb, leb, lookup, if◌then◌else◌,
}
use ai_child.PyText.{PyText, codes, strip, contains_any}
use ai_child.History.{ConversationHistoryService, record_turn}
use ai_child.Attachments.{
  AttachmentType, ImagePurpose, RecognizedType, RecognizedContent, AttachmentRecord, Repository,
  save_attachment, list_by_session, is_homework, is_learning, is_ocr_ready, is_image_ready,
  has_text,
}
use ai_child.Attachments.Modality.{QuickAction, decide_image_attachment, text_of}

-- the fields that create_attachment reads; the recognition reads the others
pub record AttachmentCreateRequest : Type 0 where
  pub child_id : String
  pub session_id : String
  pub attachment_type : AttachmentType
  pub image_purpose : Option ImagePurpose
  pub file_id : Option String
  pub child_caption : Option PyText

pub record AttachmentCreateResponse : Type 0 where
  pub attachment_id : String
  pub recognized_content : RecognizedContent
  pub reply_text : PyText
  pub reply_emotion : String
  pub quick_actions : List QuickAction
  pub active_scene : String
  pub needs_input : Option String

-- the repository and the history that the service shares with the conversation
pub record AttachmentService : Type 0 where
  pub repository : Repository
  pub history : ConversationHistoryService

abbrev is_homework_photo : AttachmentType → Bool
is_homework_photo AttachmentType.homework_photo = true
is_homework_photo AttachmentType.image = false

-- _recognized_type
unfoldable pub recognized_type_of :
    (PyText → PyText) → PyText → AttachmentType → Option ImagePurpose → RecognizedType
unfolding contains_any
recognized_type_of lower text kind (some ImagePurpose.privacy_sensitive) =
    RecognizedType.privacy_sensitive
recognized_type_of lower text kind (some ImagePurpose.unsafe_unknown) =
    RecognizedType.unsafe_unknown
recognized_type_of lower text kind purpose =
    if is_learning purpose
      || is_homework_photo kind
      || contains_any (lower text) ("题目" ∷ "作业" ∷ "算式" ∷ "应用题" ∷ "选择题" ∷ "练习" ∷ [])
    then RecognizedType.homework_problem
    else RecognizedType.image_observation

-- _is_ready_homework_response
unfoldable pub is_ready_homework_response : RecognizedContent → Bool
is_ready_homework_response c =
    has_text c.text && is_homework c && is_learning c.image_purpose && leb 75 c.confidence

-- `text or default`
abbrev pub text_or_default : PyText → PyText → PyText
text_or_default [] other = other
text_or_default (c ∷ t) other = c ∷ t

-- the end of _record_attachment_turn_if_needed, with the stripped reply
unfoldable pub record_reply :
    ℕ → String → Option PyText → PyText → ConversationHistoryService → ConversationHistoryService
unfolding strip record_turn
record_reply now session caption [] history = history
record_reply now session caption (c ∷ reply) history =
    record_turn now now session (text_or_default (strip (text_of caption)) (codes "我给小白狐看了一张图"))
      (c ∷ reply) history

-- _record_attachment_turn_if_needed
unfoldable pub record_attachment_turn_if_needed :
    ℕ
    → String
    → Option PyText
    → AttachmentCreateResponse
    → ConversationHistoryService
    → ConversationHistoryService
unfolding is_ready_homework_response record_reply strip
record_attachment_turn_if_needed now session caption response history =
    if is_ready_homework_response response.recognized_content
    then history
    else record_reply now session caption (strip response.reply_text) history

module _ (has_multiple_problems : PyText → Bool) (safe_child_detail : RecognizedContent → PyText)
    (recognize : AttachmentCreateRequest → RecognizedContent) where
  -- create_attachment
  unfoldable pub create_attachment :
      ℕ
      → String
      → AttachmentCreateRequest
      → AttachmentService
      → AttachmentCreateResponse × AttachmentService
  unfolding decide_image_attachment save_attachment record_attachment_turn_if_needed
  create_attachment now id r s =
      let d = decide_image_attachment has_multiple_problems safe_child_detail (recognize r) in
      let attachment : AttachmentRecord = record {
        id = id;
        child_id = r.child_id;
        session_id = r.session_id;
        attachment_type = r.attachment_type;
        image_purpose = r.image_purpose;
        status = d.status;
        recognized_content = d.recognized_content;
        file_id = r.file_id;
        created_at = now;
      } in
      let response : AttachmentCreateResponse = record {
        attachment_id = id;
        recognized_content = d.recognized_content;
        reply_text = d.reply_text;
        reply_emotion = d.reply_emotion;
        quick_actions = d.quick_actions;
        active_scene = d.active_scene;
        needs_input = d.needs_input;
      } in
      (
        response,
        record {
          repository = save_attachment attachment s.repository;
          history =
              record_attachment_turn_if_needed now r.session_id r.child_caption response s.history;
        },
      )

-- HomeworkAttachmentContext
pub record HomeworkAttachmentContext : Type 0 where
  pub attachment_id : String
  pub recognized_content : RecognizedContent

pub record ImageAttachmentContext : Type 0 where
  pub attachment_id : String
  pub image_purpose : Option ImagePurpose
  pub recognized_type : RecognizedType
  pub recognized_text : Option PyText
  pub child_caption : Option PyText

-- image_purpose in {None, LEARNING_HOMEWORK}
abbrev pub may_be_homework : Option ImagePurpose → Bool
may_be_homework none = true
may_be_homework (some p) = is_learning (some p)

-- the first attachment that passes a test
unfoldable pub first_of :
    (AttachmentRecord → Bool) → List String → Repository → Option AttachmentRecord
unfolding lookup
first_of test [] items = none
first_of test (id ∷ ids) items =
    let rest = first_of test ids items in
    elim (lookup id items) [ none ↦ rest | some a ↦ if test a then some a else rest ]

abbrev pub homework_context : Option AttachmentRecord → Option HomeworkAttachmentContext
homework_context none = none
homework_context (some a) =
    some (record { attachment_id = a.id; recognized_content = a.recognized_content })

-- the tests of the loops over a session's attachments, in their order
unfoldable pub first_in :
    (AttachmentRecord → Bool) → List AttachmentRecord → Option AttachmentRecord
first_in test [] = none
first_in test (a ∷ rest) = if test a then some a else first_in test rest

-- age_seconds > max_age_seconds, with both times in microseconds
unfoldable pub is_expired_at : ℕ → ℕ → AttachmentRecord → Bool
is_expired_at now max_age_seconds a = ltb (a.created_at + max_age_seconds * 1000000) now

module _ (child session : String) where
  abbrev pub is_own : AttachmentRecord → Bool
  is_own a = str_eq a.child_id child && str_eq a.session_id session

  -- the conditions of get_ready_homework_context on an attachment
  unfoldable pub is_ready_homework : AttachmentRecord → Bool
  is_ready_homework a =
      is_own a
      && is_ocr_ready a.status
      && is_homework a.recognized_content
      && may_be_homework a.recognized_content.image_purpose
      && has_text a.recognized_content.text

  -- get_ready_homework_context
  unfoldable pub get_ready_homework_context :
      List String → Repository → Option HomeworkAttachmentContext
  unfolding is_ready_homework first_of
  get_ready_homework_context ids items = homework_context (first_of is_ready_homework ids items)

  -- get_latest_ready_homework_context
  unfoldable pub get_latest_ready_homework_context :
      ℕ → ℕ → Repository → Option HomeworkAttachmentContext
  unfolding is_ready_homework is_expired_at first_in list_by_session
  get_latest_ready_homework_context now max_age_seconds items = homework_context (
      first_in (λ a. is_ready_homework a && not (is_expired_at now max_age_seconds a))
        (list_by_session session items))

  -- get_latest_image_recognized_type
  unfoldable pub get_latest_image_recognized_type : ℕ → ℕ → Repository → Option RecognizedType
  unfolding is_expired_at first_in list_by_session
  get_latest_image_recognized_type now max_age_seconds items =
      elim (first_in
        (λ a.
          str_eq a.child_id child
          && (is_image_ready a.status || is_ocr_ready a.status)
          && not (is_learning a.recognized_content.image_purpose)
          && not (is_expired_at now max_age_seconds a))
        (list_by_session session items)) [
          | none ↦ none
          | some a ↦ some a.recognized_content.recognized_type
        ]

  -- get_image_context
  unfoldable pub get_image_context : List String → Repository → Option ImageAttachmentContext
  unfolding first_of
  get_image_context ids items =
      elim (first_of (λ a. is_own a && (is_image_ready a.status || is_ocr_ready a.status)) ids
        items) [
          | none ↦ none
          | some a ↦ some (record {
            attachment_id = a.id;
            image_purpose = a.recognized_content.image_purpose;
            recognized_type = a.recognized_content.recognized_type;
            recognized_text = a.recognized_content.text;
            child_caption = a.recognized_content.child_caption;
          })
        ]
