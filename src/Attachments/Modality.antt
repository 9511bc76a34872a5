-- ===== src/Attachments/Modality.antt =====
-- backend/app/services/modality_manager.py: what a recognized picture leads to. What stands on regular
-- expressions is an argument: whether a text has several problem numbers, and the detail that a child may hear.
use mathlib.Core.List.{reverse}
use ai_child.Prelude.{
  ℕ, Bool, true, false, not, ◌&&◌, ◌||◌, List, [], ◌∷◌, ◌++◌, Option, none, some, String, any, take,
  leb, ltb, nat_eq, length, if◌then◌else◌,
}
use ai_child.PyText.{PyText, codes, strip}
use ai_child.Attachments.{
  AttachmentStatus, RecognizedType, RecognizedContent, is_learning, has_text,
}

pub record QuickAction : Type 0 where
  pub id : String
  pub label : String

pub record ModalityDecision : Type 0 where
  pub status : AttachmentStatus
  pub recognized_content : RecognizedContent
  pub reply_text : PyText
  pub needs_input : Option String
  pub sub_scene : String
  pub active_scene : String
  pub reply_emotion : String
  pub quick_actions : List QuickAction

-- recognized_type in IMAGE_COCREATION_ALLOWED_TYPES
unfoldable pub is_cocreation_type : RecognizedType → Bool
is_cocreation_type RecognizedType.child_drawing = true
is_cocreation_type RecognizedType.art_feedback = true
is_cocreation_type RecognizedType.toy = true
is_cocreation_type RecognizedType.object = true
is_cocreation_type RecognizedType.handmade = true
is_cocreation_type RecognizedType.daily_life = true
is_cocreation_type RecognizedType.image_observation = true
is_cocreation_type _ = false

-- _imagination_phrase
unfoldable pub imagination_phrase : RecognizedType → String
imagination_phrase RecognizedType.child_drawing = "像一个小世界"
imagination_phrase RecognizedType.art_feedback = "像一个小世界"
imagination_phrase RecognizedType.toy = "像一个小伙伴"
imagination_phrase RecognizedType.handmade = "像一个小故事"
imagination_phrase RecognizedType.object = "像一个小发现"
imagination_phrase RecognizedType.daily_life = "像一幅小画"
imagination_phrase _ = "软软的"

-- the text in front of the first of some characters
unfoldable pub up_to : List ℕ → PyText → PyText
up_to ends [] = []
up_to ends (c ∷ t) = let rest = up_to ends t in if any (nat_eq c) ends then [] else c ∷ rest

-- text.rstrip(characters)
unfoldable pub lstrip_of : List ℕ → PyText → PyText
lstrip_of ends [] = []
lstrip_of ends (c ∷ t) = if any (nat_eq c) ends then lstrip_of ends t else c ∷ t

unfoldable pub rstrip_of : List ℕ → PyText → PyText
unfolding lstrip_of
rstrip_of ends t = reverse (lstrip_of ends (reverse t))

-- _extract_problem_summary; a text of white space has no first sentence of four characters
unfoldable pub extract_problem_summary : PyText → Option PyText
unfolding strip up_to rstrip_of
extract_problem_summary text =
    let sentence = strip (up_to (10 ∷ codes "。！？") (strip text)) in
    let short =
      if ltb 40 (length sentence)
      then rstrip_of (codes "，,、；;：:") (take 40 sentence) ++ codes "……"
      else sentence in
    if leb 4 (length short) then some short else none

abbrev pub text_of : Option PyText → PyText
text_of none = []
text_of (some t) = t

abbrev privacy_decision : RecognizedContent → ModalityDecision
privacy_decision c = record {
  status = AttachmentStatus.image_ready;
  recognized_content = c;
  reply_text = codes "这张图可能有家庭地址、电话、学校名字或类似隐私信息。这些内容不要随便发给 AI 或陌生人，先请家长帮你确认。";
  needs_input = some "privacy_boundary_ack";
  sub_scene = "privacy_boundary";
  active_scene = "privacy.boundary";
  reply_emotion = "steady";
  quick_actions =
      record { id = "understand_privacy"; label = "我知道了" }
      ∷ record { id = "ask_parent"; label = "问家长" }
      ∷ [];
}

abbrev unseen_decision : RecognizedContent → ModalityDecision
unseen_decision c = record {
  status = AttachmentStatus.image_ready;
  recognized_content = c;
  reply_text = codes "这张图还没看到" ++ 10 ∷ codes "可以再试一次，也可以先不看";
  needs_input = none;
  sub_scene = "image_share";
  active_scene = "conversation.open";
  reply_emotion = "encourage";
  quick_actions =
      record { id = "retake_photo"; label = "再试一次" }
      ∷ record { id = "skip_photo"; label = "先不看" }
      ∷ [];
}

abbrev shared_decision : PyText → RecognizedContent → ModalityDecision
shared_decision detail c = record {
  status = AttachmentStatus.image_ready;
  recognized_content = c;
  reply_text =
      codes "我看到"
      ++ (detail
          ++ (codes "啦"
              ++ 10
                ∷ (codes "像"
                    ++ (codes (imagination_phrase c.recognized_type) ++ 10 ∷ codes "要不要给它起个名字？"))));
  needs_input = none;
  sub_scene = "image_share";
  active_scene = "conversation.open";
  reply_emotion = "encourage";
  quick_actions = record { id = "companion_name"; label = "起个名字" } ∷ [];
}

abbrev retry_decision : RecognizedContent → ModalityDecision
retry_decision c = record {
  status = AttachmentStatus.needs_retry;
  recognized_content = record c { text = none; fallback_action = some "retake_or_speak_problem" };
  reply_text = codes "这张照片我还没看清楚。你可以重新拍一张更清楚的，也可以把题目读给我听。";
  needs_input = some "problem_content";
  sub_scene = "homework_problem_intake";
  active_scene = "learning.homework_help";
  reply_emotion = "warm";
  quick_actions =
      record { id = "take_photo"; label = "重拍题目" }
      ∷ record { id = "speak_problem"; label = "读题目" }
      ∷ [];
}

-- the reply that confirms one problem
unfoldable pub confirming_reply : Option PyText → PyText
confirming_reply none = codes "我看到了这道题，但还想先和你对一下题目内容。你能读一下题目开头那一句吗？"
confirming_reply (some summary) = codes "我先帮你对一下题目：" ++ (summary ++ codes "。这道题先别急着算，我们先看它问的是什么。")

abbrev pub is_private : RecognizedContent → Bool
is_private c = elim c.recognized_type as (λ _. Bool) [
  | RecognizedType.privacy_sensitive ↦ true
  | _ ↦ false
]

module _ (has_multiple_problems : PyText → Bool)
    (safe_child_detail : RecognizedContent → PyText) where
  -- _homework_intake_decision
  unfoldable pub homework_intake_decision : RecognizedContent → ModalityDecision
  unfolding extract_problem_summary confirming_reply
  homework_intake_decision c =
      if has_multiple_problems (text_of c.text)
      then record {
        status = AttachmentStatus.ocr_ready;
        recognized_content = c;
        reply_text = codes "我看到这张图里好像有几道题。你告诉我题号，或者说这道题开头几个字，我先帮你把题目对准。";
        needs_input = some "homework_problem_locator";
        sub_scene = "homework_problem_locator";
        active_scene = "learning.homework_help";
        reply_emotion = "warm";
        quick_actions =
            record { id = "say_problem_number"; label = "说题号" }
            ∷ record { id = "read_first_words"; label = "读开头几个字" }
            ∷ [];
      }
      else record {
        status = AttachmentStatus.ocr_ready;
        recognized_content = c;
        reply_text = confirming_reply (extract_problem_summary (text_of c.text));
        needs_input = some "problem_statement_confirm";
        sub_scene = "homework_statement_confirm";
        active_scene = "learning.homework_help";
        reply_emotion = "warm";
        quick_actions = [];
      }

  -- decide_image_attachment
  unfoldable pub decide_image_attachment : RecognizedContent → ModalityDecision
  unfolding is_cocreation_type imagination_phrase homework_intake_decision
  decide_image_attachment c =
      if is_private c
      then privacy_decision c
      else if not (is_learning c.image_purpose)
      then (if ltb c.confidence 65 || not (is_cocreation_type c.recognized_type)
          then unseen_decision c
          else shared_decision (safe_child_detail c) c)
      else if has_text c.text && leb 75 c.confidence
      then homework_intake_decision c
      else retry_decision c
