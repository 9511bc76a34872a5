-- ===== src/Attachments.antt =====
-- backend/app/domain/attachment.py and backend/app/repositories/attachment_repository.py: the pictures that a
-- child shows. The repository is a dictionary in insertion order; a copy is the value itself. Confidences are
-- counted in hundredths, times in microseconds.
pub mod Modality
pub mod Service
pub mod Found
pub mod Fresh
pub mod Own
mod Tests
use mathlib.Core.Bool.{decide}
use ai_child.Prelude.{
  ℕ, Bool, true, false, List, [], ◌∷◌, Option, none, some, String, Dict, lookup, insert, leb,
  str_eq,
}
use ai_child.Prelude.Sorting.{keep, values, sorted}
use ai_child.PyText.{PyText}

pub data AttachmentType : Type 0 where
  image homework_photo : AttachmentType

pub data ImagePurpose : Type 0 where
  share ask_what_is_this tell_story learning_homework reading_text : ImagePurpose
  art_feedback privacy_sensitive unsafe_unknown : ImagePurpose

pub data AttachmentStatus : Type 0 where
  ocr_ready image_ready needs_retry : AttachmentStatus

-- the values of RecognizedContent.type
pub data RecognizedType : Type 0 where
  homework_problem image_observation privacy_sensitive unsafe_unknown : RecognizedType
  child_drawing art_feedback toy object handmade daily_life unclear low_confidence : RecognizedType

pub record RecognizedContent : Type 0 where
  pub recognized_type : RecognizedType
  pub text : Option PyText
  pub confidence : ℕ
  pub provider_name : String
  pub image_purpose : Option ImagePurpose
  pub child_caption : Option PyText
  pub fallback_action : Option String

-- an attachment without its metadata
pub record AttachmentRecord : Type 0 where
  pub id : String
  pub child_id : String
  pub session_id : String
  pub attachment_type : AttachmentType
  pub image_purpose : Option ImagePurpose
  pub status : AttachmentStatus
  pub recognized_content : RecognizedContent
  pub file_id : Option String
  pub created_at : ℕ

abbrev pub is_homework : RecognizedContent → Bool
is_homework c = elim c.recognized_type as (λ _. Bool) [
  | RecognizedType.homework_problem ↦ true
  | _ ↦ false
]

abbrev pub is_learning : Option ImagePurpose → Bool
is_learning (some ImagePurpose.learning_homework) = true
is_learning _ = false

abbrev pub is_ocr_ready : AttachmentStatus → Bool
is_ocr_ready AttachmentStatus.ocr_ready = true
is_ocr_ready _ = false

abbrev pub is_image_ready : AttachmentStatus → Bool
is_image_ready AttachmentStatus.image_ready = true
is_image_ready _ = false

-- bool(text)
abbrev pub has_text : Option PyText → Bool
has_text none = false
has_text (some []) = false
has_text (some (c ∷ t)) = true

abbrev pub Repository : Type 0
Repository = Dict AttachmentRecord

-- InMemoryAttachmentRepository.save
unfoldable pub save_attachment : AttachmentRecord → Repository → Repository
unfolding insert
save_attachment a items = insert a.id a items

-- InMemoryAttachmentRepository.list_by_session
unfoldable pub list_by_session : String → Repository → List AttachmentRecord
unfolding sorted keep values
list_by_session session items =
    sorted (λ a b. leb b.created_at a.created_at)
      (keep (λ a. str_eq a.session_id session) (values items))
