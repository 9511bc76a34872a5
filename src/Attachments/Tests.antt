-- ===== src/Attachments/Tests.antt =====
-- Pictures of a concrete child, and the theorems there.
use ai_child.Prelude.{◌≡◌, Bool, false, ◌&&◌, [], ◌∷◌, none, some, str_eq, if◌then◌else◌}
use ai_child.PyText.{PyText, codes}
use ai_child.Attachments.{
  AttachmentType, ImagePurpose, RecognizedType, RecognizedContent, Repository,
}
use ai_child.Attachments.Service.{
  AttachmentCreateRequest, AttachmentService, is_ready_homework_response, create_attachment,
  get_ready_homework_context, get_latest_ready_homework_context,
}
use ai_child.Attachments.Found.{homework_is_found_iff}
use ai_child.Prelude.Sorting.{values}
use ai_child.Attachments.Own.{is_over, find_homework, IsOwnHomework, homework-IsOwnHomework}
use ai_child.Attachments.Fresh.{IsNewest, is_fresh_homework, latest_homework-IsNewest}

abbrev one_problem : PyText → Bool
one_problem text = false

abbrev no_detail : RecognizedContent → PyText
no_detail c = codes "一个小东西"

abbrev photo : AttachmentCreateRequest
photo = record {
  child_id = "c1";
  session_id = "s1";
  attachment_type = AttachmentType.homework_photo;
  image_purpose = some ImagePurpose.learning_homework;
  file_id = some "f1";
  child_caption = none;
}

abbrev seen : AttachmentCreateRequest → RecognizedContent
seen r = record {
  recognized_type = RecognizedType.homework_problem;
  text = some (codes "小明有三个苹果");
  confidence = 91;
  provider_name = "mimo";
  image_purpose = r.image_purpose;
  child_caption = r.child_caption;
  fallback_action = none;
}

abbrev empty_service : AttachmentService
empty_service = record {
  repository = [];
  history = record { max_messages_per_session = 6; messages_by_session = [] };
}

abbrev items : Repository
unfolding create_attachment
items = (create_attachment one_problem no_detail seen 5 "a1" photo empty_service).1.repository

homework_is_found_iff_example : get_ready_homework_context "c1" "s1" ("a1" ∷ []) items ≡ (
    if str_eq "c1" "c1" && str_eq "s1" "s1" && is_ready_homework_response (seen photo)
    then some (record { attachment_id = "a1"; recognized_content = seen photo })
    else none)
unfolding items
homework_is_found_iff_example =
    homework_is_found_iff one_problem no_detail seen 5 "a1" photo empty_service "c1" "s1"

latest_homework-IsNewest_example :
    IsNewest
      (is_fresh_homework "c1" "s1" 1000 1800)
      (values items)
      (get_latest_ready_homework_context "c1" "s1" 1000 1800 items)
latest_homework-IsNewest_example = latest_homework-IsNewest "c1" "s1" 1000 1800 items

homework-IsOwnHomework_example :
    IsOwnHomework "c1" "s1" items
      (λ a. is_over 1000 1800 a)
      (find_homework 1000 "c1" "s1" (codes "这道题怎么做") [] items)
homework-IsOwnHomework_example = homework-IsOwnHomework "c1" "s1" items 1000 (codes "这道题怎么做") []
