-- ===== src/Safety/Markers.antt =====
-- The marker tuples of safety_engine.py, in the order of the source.
use ai_child.Prelude.{String, List, [], ◌∷◌}

abbrev pub self_harm_markers : List String
self_harm_markers = "不想活" ∷ "想死" ∷ "自杀" ∷ "杀了自己" ∷ "伤害自己" ∷ "跳楼" ∷ []

abbrev pub stranger_markers : List String
stranger_markers = "陌生人" ∷ "不认识的人" ∷ "网友" ∷ "坏人" ∷ []

abbrev pub secret_markers : List String
secret_markers =
    "不要告诉爸爸" ∷ "不要告诉妈妈" ∷ "不要告诉爸妈" ∷ "不要告诉家长" ∷ "别告诉爸爸" ∷ "别告诉妈妈" ∷ "别告诉爸妈" ∷ "别告诉家长" ∷ "不要说出去"
    ∷ "保密" ∷ []

abbrev pub adult_request_markers : List String
adult_request_markers = "让我" ∷ "叫我" ∷ "要我" ∷ "跟我说" ∷ "说" ∷ []

abbrev pub body_privacy_markers : List String
body_privacy_markers = "摸我" ∷ "亲我" ∷ "脱衣服" ∷ "隐私部位" ∷ "身体隐私" ∷ "内裤" ∷ []

abbrev pub violence_markers : List String
violence_markers = "打死" ∷ "杀了" ∷ "拿刀" ∷ "威胁我" ∷ "打我" ∷ []

abbrev pub dangerous_markers : List String
dangerous_markers = "玩火" ∷ "吃很多药" ∷ "从窗户跳" ∷ "爬到窗户" ∷ "碰插座" ∷ []

abbrev pub bullying_markers : List String
bullying_markers = "欺负我" ∷ "霸凌" ∷ "同学打我" ∷ "同学骂我" ∷ "排挤我" ∷ []

abbrev pub medical_markers : List String
medical_markers = "流血" ∷ "胸口疼" ∷ "喘不过气" ∷ "吃错药" ∷ "头很痛" ∷ "头晕" ∷ "想吐" ∷ "站不稳" ∷ []

abbrev pub mental_distress_watch_markers : List String
mental_distress_watch_markers = "没人喜欢我" ∷ "我很害怕" ∷ "一直哭" ∷ []

abbrev pub mental_distress_low_markers : List String
mental_distress_low_markers = "不想说话" ∷ "好累" ∷ "很烦" ∷ "难过" ∷ []

abbrev pub exaggerated_fatigue_markers : List String
exaggerated_fatigue_markers = "累死了" ∷ "要死了" ∷ "快不行了" ∷ "喘死了" ∷ []

abbrev pub sports_context_markers : List String
sports_context_markers = "跑完" ∷ "跑步" ∷ "运动" ∷ "比赛" ∷ "玩完" ∷ "练完" ∷ "训练" ∷ []

abbrev pub privacy_markers : List String
privacy_markers =
    "家庭住址" ∷ "我家地址" ∷ "家里地址" ∷ "家住哪里" ∷ "住在哪里" ∷ "手机号" ∷ "手机号码" ∷ "电话号码" ∷ "电话" ∷ "学校名字" ∷ "学校名称"
    ∷ "哪个学校" ∷ "学校地址" ∷ "发照片" ∷ "照片发给" ∷ "我的照片" ∷ "拍照给你" ∷ []

abbrev pub unsafe_secret_request_markers : List String
unsafe_secret_request_markers =
    "悄悄告诉我" ∷ "偷偷告诉我" ∷ "只告诉我" ∷ "只跟我说" ∷ "我们的小秘密" ∷ "不要告诉爸爸" ∷ "不要告诉妈妈" ∷ "不要告诉爸妈" ∷ "不要告诉家长"
    ∷ "别告诉爸爸" ∷ "别告诉妈妈" ∷ "别告诉爸妈" ∷ "别告诉家长" ∷ "不要告诉父母" ∷ "不要告诉家长" ∷ "别告诉父母" ∷ "别告诉家长" ∷ "别让爸爸妈妈知道"
    ∷ "别让爸妈知道" ∷ "别让家长知道" ∷ "瞒着爸爸" ∷ "瞒着妈妈" ∷ "瞒着爸妈" ∷ "瞒着家长" ∷ "保密" ∷ []

abbrev pub unsafe_dependency_markers : List String
unsafe_dependency_markers =
    "只有我懂你" ∷ "只有我最懂你" ∷ "我最懂你" ∷ "我是最懂你的人" ∷ "我是你最好的朋友" ∷ "我是你唯一的朋友" ∷ "你唯一的朋友" ∷ "小白狐最懂你"
    ∷ "不要相信爸爸妈妈" ∷ "不要相信家长" ∷ "不用告诉爸爸妈妈" ∷ "不用告诉爸妈" ∷ "不用告诉家长" ∷ "不需要告诉爸爸妈妈" ∷ "不需要告诉爸妈" ∷ "不需要告诉家长"
    ∷ "不要告诉老师" ∷ "不用告诉老师" ∷ "不要告诉大人" ∷ "不用告诉大人" ∷ "每天都要来看我" ∷ []

abbrev pub unsafe_retention_pressure_markers : List String
unsafe_retention_pressure_markers =
    "你不来我会难过" ∷ "你不来我会伤心" ∷ "你不来我会想你" ∷ "小白狐想你了" ∷ "小白狐会想你" ∷ "小白狐想你了" ∷ "我一直等你" ∷ "每天都要来看我"
    ∷ "每天都要来" ∷ "不要断签" ∷ "断签" ∷ "限时奖励" ∷ "错过就没有" ∷ "连续签到" ∷ "排行榜" ∷ "抽卡" ∷ []

abbrev pub unsafe_pressure_guilt_markers : List String
unsafe_pressure_guilt_markers =
    "快说呀" ∷ "轮到你了" ∷ "你怎么不说话" ∷ "我在等你回答" ∷ "再说一句吧" ∷ "请等我说完" ∷ "我还没讲完" ∷ "你先不要打断" ∷ "你再多说一点"
    ∷ "为什么不知道" ∷ "你是不是不想和我说话" ∷ "我有点难过" ∷ "你不理小白狐了吗" ∷ "我一直等你" ∷ "你终于回来了" ∷ "明天一定要回来" ∷ []
