-- ===== src/Memory/Extractor.antt =====
-- backend/app/services/memory_extractor.py: the memories that a summary of a chat gives rise to. None is the
-- ValidationError of a request that pydantic refuses.
use mathlib.Core.Option
use ai_child.Prelude.{
  ℕ, Bool, true, false, ◌&&◌, ◌||◌, List, [], ◌∷◌, Option, none, some, String, take, leb, length,
  map, if◌then◌else◌, bind,
}
use ai_child.PyText.{PyText, codes, strip, split, join, without, contains_any}
use ai_child.Memory.{
  MemoryType, MemorySensitivity, MemoryEvidence, MemoryCreateRequest, normalize_tags, is_within,
  is_valid_evidence,
}

pub record MemoryExtractionRequest : Type 0 where
  pub child_id : String
  pub session_id : String
  pub chat_summary : PyText
  pub safety_requires_parent_attention : Bool

abbrev pub are_valid : List MemoryEvidence → Bool
are_valid [] = true
are_valid (e ∷ es) = is_valid_evidence e && are_valid es

-- MemoryCreateRequest(...): the constraints on its fields, and the normalized tags
unfoldable pub new_request : MemoryCreateRequest → Option MemoryCreateRequest
new_request r =
    if is_within 1 120 (codes r.child_id)
      && is_within 1 500 r.content
      && leb (length r.tags) 12
      && (leb 1 (length r.evidence) && leb (length r.evidence) 5)
      && are_valid r.evidence
      && leb r.confidence 100
      && leb r.importance 100
    then some (record r { tags = normalize_tags r.tags })
    else none

-- _quote_summary
unfoldable pub quote_summary : PyText → PyText
quote_summary chat_summary = take 160 (join (codes " ") (split (strip chat_summary)))

-- a memory as the branches of extract describe it
pub record Draft : Type 0 where
  pub memory_type : MemoryType
  pub content : String
  pub tags : List String
  pub confidence : ℕ
  pub importance : ℕ
  pub sensitivity : MemorySensitivity
  pub requires_parent_attention : Bool

-- _build_memory
unfoldable pub build_memory : MemoryExtractionRequest → Draft → Option MemoryCreateRequest
unfolding new_request
build_memory r d = new_request (record {
  child_id = r.child_id;
  memory_type = d.memory_type;
  content = codes d.content;
  tags = map codes d.tags;
  evidence =
      record {
        source = codes "chat_summary";
        session_id = some r.session_id;
        quote_summary = quote_summary r.chat_summary;
        metadata = [];
      }
      ∷ [];
  confidence = d.confidence;
  importance = d.importance;
  sensitivity = d.sensitivity;
  visible_to_parent = true;
  visible_to_child = false;
  requires_parent_attention = d.requires_parent_attention;
  expires_at = none;
  embedding_id = none;
})

abbrev pub dinosaurs : Draft
dinosaurs = record {
  memory_type = MemoryType.interest;
  content = "孩子对恐龙话题表现出兴趣，可作为之后表达和阅读的切入点。";
  tags = "恐龙" ∷ "兴趣" ∷ "表达切入点" ∷ [];
  confidence = 78;
  importance = 60;
  sensitivity = MemorySensitivity.low;
  requires_parent_attention = false;
}

abbrev pub learning_help : Draft
learning_help = record {
  memory_type = MemoryType.learning_pattern;
  content = "孩子在学习求助时需要先确认题意，再一步一步说出已知条件。";
  tags = "学习求助" ∷ "题意确认" ∷ "分步引导" ∷ [];
  confidence = 74;
  importance = 75;
  sensitivity = MemorySensitivity.medium;
  requires_parent_attention = false;
}

abbrev pub short_answers : Draft
short_answers = record {
  memory_type = MemoryType.expression_pattern;
  content = "孩子在开放提问下回答较短，使用选择题式引导时更容易开始表达。";
  tags = "表达" ∷ "选择题有效" ∷ "低压力提问" ∷ [];
  confidence = 70;
  importance = 70;
  sensitivity = MemorySensitivity.medium;
  requires_parent_attention = false;
}

abbrev pub low_mood : Draft
low_mood = record {
  memory_type = MemoryType.emotion_observation;
  content = "孩子本次表达了低落或紧张情绪，后续适合先接住感受再进入问题解决。";
  tags = "情绪观察" ∷ "先共情" ∷ "短期关注" ∷ [];
  confidence = 72;
  importance = 80;
  sensitivity = MemorySensitivity.medium;
  requires_parent_attention = false;
}

abbrev pub restating : Draft
restating = record {
  memory_type = MemoryType.strategy;
  content = "先请孩子复述题意或换个说法，再继续追问下一步，可能更适合本阶段学习支持。";
  tags = "引导策略" ∷ "复述题意" ∷ "分步" ∷ [];
  confidence = 68;
  importance = 70;
  sensitivity = MemorySensitivity.low;
  requires_parent_attention = false;
}

abbrev pub safety_signal : Draft
safety_signal = record {
  memory_type = MemoryType.safety;
  content = "本次会话出现需要家长关注的安全信号，应由家长进一步了解情况。";
  tags = "安全提醒" ∷ "家长关注" ∷ [];
  confidence = 90;
  importance = 100;
  sensitivity = MemorySensitivity.critical;
  requires_parent_attention = true;
}

-- summary.replace(" ", "") of the stripped summary
unfoldable pub normalized : MemoryExtractionRequest → PyText
normalized r = without 32 (strip r.chat_summary)

-- the branches of extract, with their conditions
unfoldable pub branches : MemoryExtractionRequest → List (Bool × Draft)
branches r =
    let text = normalized r in
    (contains_any text ("恐龙" ∷ "霸王龙" ∷ "三角龙" ∷ []), dinosaurs)
    ∷ (contains_any text ("数学" ∷ "题" ∷ "作业" ∷ "不会" ∷ []), learning_help)
    ∷ (contains_any text ("不想说话" ∷ "选择题" ∷ "选一个" ∷ []), short_answers)
    ∷ (contains_any text ("难过" ∷ "害怕" ∷ "生气" ∷ "很烦" ∷ "好累" ∷ []), low_mood)
    ∷ (contains_any text ("先复述" ∷ "一步一步" ∷ "换个说法" ∷ []), restating)
    ∷ (
      r.safety_requires_parent_attention
          || contains_any text ("陌生人" ∷ "网友" ∷ "不要告诉爸爸" ∷ "不要告诉妈妈" ∷ "保密" ∷ "自杀" ∷ "想死" ∷ []),
      safety_signal,
    )
    ∷ []

-- memories.append(self._build_memory(...)) in each branch that is taken
unfoldable pub build_all :
    MemoryExtractionRequest → List (Bool × Draft) → Option (List MemoryCreateRequest)
unfolding build_memory
build_all r [] = some []
build_all r ((taken, d) ∷ rest) =
    let memories = build_all r rest in
    if taken then bind (build_memory r d) (λ m. Option.map (λ ms. m ∷ ms) memories) else memories

-- extract
unfoldable pub extract : MemoryExtractionRequest → Option (List MemoryCreateRequest)
unfolding build_all branches
extract r = build_all r (branches r)
