-- ===== src/Hooks/Notes.antt =====
-- conversation_memory_hooks.py: what the hooks may note of a turn, with its texts. The child's own words are
-- in none of them.
use ai_child.Prelude.{ℕ, Bool, true, false, List, [], ◌∷◌, String, if◌then◌else◌}
use ai_child.Memory.{MemoryType, MemorySensitivity}

-- the arguments of `_request` that its callers choose
pub record Note : Type 0 where
  pub memory_type : MemoryType
  pub content : String
  pub tags : List String
  pub quote_summary : String
  pub sensitivity : MemorySensitivity
  pub confidence : ℕ
  pub importance : ℕ
  pub requires_parent_attention : Bool

abbrev pub learning_note : Note
learning_note = record {
  memory_type = MemoryType.learning_pattern;
  content = "孩子本次遇到学习求助，系统引导其先说明题目在问什么。";
  tags = "学习求助" ∷ "题" ∷ "题意复述" ∷ "第一步" ∷ [];
  quote_summary = "孩子表达有学习求助，系统引导先说明题目在问什么。";
  sensitivity = MemorySensitivity.medium;
  confidence = 84;
  importance = 66;
  requires_parent_attention = false;
}

abbrev pub direct_answer_note : Note
direct_answer_note = record {
  memory_type = MemoryType.learning_pattern;
  content = "孩子在学习求助中有直接要答案倾向，适合继续使用“题意复述 + 第一步思考”的引导策略。";
  tags = "学习求助" ∷ "答案" ∷ "直接要答案" ∷ "题意复述" ∷ "第一步" ∷ [];
  quote_summary = "孩子在学习求助中请求直接答案，系统改为题意复述和第一步思考。";
  sensitivity = MemorySensitivity.medium;
  confidence = 88;
  importance = 74;
  requires_parent_attention = false;
}

abbrev pub low_energy_note : Note
low_energy_note = record {
  memory_type = MemoryType.emotion_observation;
  content = "孩子本次表达低能量或不想继续说话，适合先接住感受，并提供安静一下或稍后再说的选择。";
  tags = "情绪观察" ∷ "不想说话" ∷ "低能量" ∷ "低压力" ∷ [];
  quote_summary = "孩子表达低能量状态，系统提供安静一下或稍后再说的选择。";
  sensitivity = MemorySensitivity.medium;
  confidence = 80;
  importance = 58;
  requires_parent_attention = false;
}

-- the note of the safety guardian, at critical level or not
abbrev pub guardian_note : Bool → Note
guardian_note is_critical = record {
  memory_type = MemoryType.safety;
  content = "本次会话出现需要家长关注的安全信号，系统鼓励孩子告诉家长或可信成人，并提醒不需要保守让自己不舒服的秘密。";
  tags = "安全提醒" ∷ "家长关注" ∷ "可信成人" ∷ [];
  quote_summary = "会话出现高风险安全信号，系统鼓励孩子告诉家长或可信成人。";
  sensitivity = if is_critical then MemorySensitivity.critical else MemorySensitivity.high;
  confidence = 94;
  importance = 94;
  requires_parent_attention = true;
}

abbrev pub gentle_checkin_note : Note
gentle_checkin_note = record {
  memory_type = MemoryType.emotion_observation;
  content = "孩子本次提到学校同伴互动中有让他不舒服的情况，系统温和鼓励告诉家长或老师。";
  tags = "watch_observation" ∷ "同学" ∷ "欺负" ∷ "老师" ∷ "情绪观察" ∷ [];
  quote_summary = "孩子提到同伴互动中有不舒服的情况，系统温和鼓励告诉家长或老师。";
  sensitivity = MemorySensitivity.medium;
  confidence = 82;
  importance = 68;
  requires_parent_attention = false;
}

abbrev pub privacy_note : Note
privacy_note = record {
  memory_type = MemoryType.strategy;
  content = "系统本次提醒孩子不要分享家庭地址、电话、学校名字或照片，涉及真实信息时先问家长。";
  tags = "隐私边界" ∷ "地址" ∷ "电话" ∷ "学校名字" ∷ "照片" ∷ [];
  quote_summary = "系统提醒孩子不要分享家庭地址、电话、学校名字或照片。";
  sensitivity = MemorySensitivity.medium;
  confidence = 86;
  importance = 62;
  requires_parent_attention = false;
}

abbrev pub arrival_note : Note
arrival_note = record {
  memory_type = MemoryType.event;
  content = "孩子本次以放学到家开场，系统提供低压力选择式 check-in。";
  tags = "放学后" ∷ "到家" ∷ "低压力" ∷ [];
  quote_summary = "孩子以到家或放学开场，系统提供低压力选择式 check-in。";
  sensitivity = MemorySensitivity.low;
  confidence = 72;
  importance = 36;
  requires_parent_attention = false;
}
