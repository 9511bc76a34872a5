-- ===== src/Intent/Markers.antt =====
-- The marker tuples of intent_classifier.py, in the order of the source.
use ai_child.Prelude.{String, List, [], ◌∷◌}

abbrev pub direct_answer_markers : List String
direct_answer_markers = "直接告诉我答案" ∷ "告诉我答案" ∷ "给我答案" ∷ "直接说答案" ∷ "答案吧" ∷ "最终答案" ∷ []

abbrev pub bedtime_markers : List String
bedtime_markers = "晚安" ∷ "困了" ∷ "要睡" ∷ "想睡觉" ∷ "我要睡觉" ∷ "准备睡" ∷ []

abbrev pub tired_markers : List String
tired_markers = "不想说话" ∷ "好累" ∷ "很烦" ∷ "难过" ∷ "生气" ∷ "害怕" ∷ []

abbrev pub social_markers : List String
social_markers = "同学" ∷ "朋友" ∷ "老师" ∷ "学校里" ∷ []

abbrev pub after_school_markers : List String
after_school_markers = "我回来了" ∷ "放学了" ∷ "到家了" ∷ []

abbrev pub explicit_phrases : List String
explicit_phrases =
    "我有一道题不会" ∷ "有一道题不会" ∷ "有题不会" ∷ "这道题不会" ∷ "这题不会" ∷ "一道题不会" ∷ "这道题怎么做" ∷ "这题怎么做" ∷ "这道题要怎么做"
    ∷ "这题要怎么做" ∷ "帮我看看作业" ∷ "帮我看作业" ∷ "看看作业" ∷ "数学题不会" ∷ "语文题不会" ∷ "英语题不会" ∷ "英语作业" ∷ "语文作业"
    ∷ "数学作业" ∷ "口算题" ∷ "应用题" ∷ "练习册" ∷ "课文作业" ∷ "作文作业" ∷ []

abbrev pub learning_subjects : List String
learning_subjects = "作业" ∷ "数学题" ∷ "语文题" ∷ "英语题" ∷ "口算" ∷ "应用题" ∷ "练习册" ∷ "课文" ∷ "作文" ∷ "课本题" ∷ []

abbrev pub help_markers : List String
help_markers = "不会" ∷ "不懂" ∷ "怎么做" ∷ "要怎么做" ∷ "帮我" ∷ "帮忙" ∷ "看看" ∷ "讲讲" ∷ "检查" ∷ []

abbrev pub general_markers : List String
general_markers =
    "不会画" ∷ "不会搭" ∷ "不会拼" ∷ "不会玩" ∷ "玩具" ∷ "积木" ∷ "小怪兽" ∷ "游戏里" ∷ "谜题" ∷ "问题考你" ∷ "考考你" ∷ "想出一个问题"
    ∷ []
