-- ===== src/Hooks/Threads.antt =====
-- conversation_memory_hooks.py: the relationship notes, of what a child's text touches: a boundary, a proud
-- moment, an interest, an unfinished thread, something to show.
use ai_child.Prelude.{List, [], ◌∷◌, String}

-- What the tests of a text return, with the metadata that the caller adds.
pub record Thread : Type 0 where
  pub topic : String
  pub content : String
  pub quote_summary : String
  pub next_hook : String
  pub extra : List (String × String)

-- an interest under a topic
abbrev interest : String → String → String → String → Thread
interest topic next_hook content quote_summary = record {
  topic = topic;
  content = content;
  quote_summary = quote_summary;
  next_hook = next_hook;
  extra = [];
}

-- `creation_topic_map`, with the two f-strings written out
abbrev pub creation_topic_map : List (List String × Thread)
creation_topic_map =
    (
      "我画" ∷ "画画" ∷ "画了" ∷ "画一幅" ∷ "涂色" ∷ "作品" ∷ [],
      interest "画画" "下次可问孩子想给画起什么名字" "孩子近期自然聊到画画，可作为低压力回访的兴趣种子。" "孩子自然提到画画相关内容，适合短期轻回访。",
    )
    ∷ (
      "手工" ∷ "剪纸" ∷ "折纸" ∷ "我做" ∷ [],
      interest "手工" "下次可问孩子最想做哪一步" "孩子近期自然聊到手工，可作为低压力回访的兴趣种子。" "孩子自然提到手工相关内容，适合短期轻回访。",
    )
    ∷ (
      "积木" ∷ "乐高" ∷ [],
      interest "积木" "下次可问孩子搭的东西最特别的一块在哪里" "孩子近期自然聊到积木，可作为低压力回访的兴趣种子。" "孩子自然提到积木相关内容，适合短期轻回访。",
    )
    ∷ (
      "故事" ∷ "想象" ∷ "编一个" ∷ "编个" ∷ "我编" ∷ [],
      interest "故事想象" "下次可一起接一句轻松的小故事" "孩子近期自然聊到故事想象，可作为低压力回访的兴趣种子。" "孩子自然提到故事想象相关内容，适合短期轻回访。",
    )
    ∷ []

abbrev pub running : Thread
running =
    interest "跑步比赛" "下次可问比赛是短跑还是接力，或讲小白狐运动会故事" "孩子近期自然聊到跑步比赛，可作为低压力回访的兴趣种子。"
      "孩子自然提到跑步比赛相关内容，适合短期轻回访。"

abbrev pub topic_map : List (List String × Thread)
topic_map =
    (
      "恐龙" ∷ [],
      interest "恐龙" "下次可聊喜欢哪种恐龙，或一起编一个恐龙小故事" "孩子近期自然聊到恐龙，可作为低压力回访的兴趣种子。" "孩子自然提到恐龙相关内容，适合短期轻回访。",
    )
    ∷ (
      "动物" ∷ "小猫" ∷ "小狗" ∷ "狐狸" ∷ [],
      interest "动物" "下次可让孩子选一种动物编小故事" "孩子近期自然聊到动物，可作为低压力回访的兴趣种子。" "孩子自然提到动物相关内容，适合短期轻回访。",
    )
    ∷ (
      "玩具" ∷ [],
      interest "玩具" "下次可问孩子想让玩具角色发生什么故事" "孩子近期自然聊到玩具，可作为低压力回访的兴趣种子。" "孩子自然提到玩具相关内容，适合短期轻回访。",
    )
    ∷ (
      "看书" ∷ "读书" ∷ "绘本" ∷ "书" ∷ [],
      interest "书和阅读" "下次可问孩子最记得哪一页或哪个角色" "孩子近期自然聊到书和阅读，可作为低压力回访的兴趣种子。" "孩子自然提到书和阅读相关内容，适合短期轻回访。",
    )
    ∷ (
      "植物" ∷ "花" ∷ "树叶" ∷ [],
      interest "植物" "下次可问孩子发现了植物的哪个小变化" "孩子近期自然聊到植物，可作为低压力回访的兴趣种子。" "孩子自然提到植物相关内容，适合短期轻回访。",
    )
    ∷ []

abbrev pub bedtime_close : Thread
bedtime_close = record {
  topic = "睡前收尾";
  content = "孩子表达需要睡觉或结束会话，后续应短收尾，不拉长对话。";
  quote_summary = "孩子表达睡前收尾或明天再聊的边界。";
  next_hook = "后续睡前只轻轻收尾，不继续追问旧话题。";
  extra = ("boundary_kind", "bedtime_close") ∷ [];
}

abbrev pub topic_change : Thread
topic_change = record {
  topic = "换话题边界";
  content = "孩子明确表达想换话题，后续应尊重转场，不继续追问旧话题。";
  quote_summary = "孩子表达想换个话题或不继续当前话题。";
  next_hook = "下次可给两个轻松方向，并允许孩子自己说别的。";
  extra = ("boundary_kind", "topic_change") ∷ [];
}

abbrev pub sports_expression : Thread
sports_expression = record {
  topic = "运动比赛表达";
  content = "孩子能把运动比赛、项目或感受连起来表达，适合给低压力成长反馈。";
  quote_summary = "孩子围绕运动比赛表达了主题、项目或感受。";
  next_hook = "家长可具体肯定孩子把事情说清楚了，再轻轻问一个最喜欢的瞬间。";
  extra = ("growth_signal", "topic_project_feeling") ∷ [];
}

abbrev pub work_expression : Thread
work_expression = record {
  topic = "作品分享表达";
  content = "孩子主动分享作品或共创内容，适合肯定表达和创作过程。";
  quote_summary = "孩子主动分享作品或故事共创线索。";
  next_hook = "家长可先问作品里孩子最喜欢的一处，不做评分。";
  extra = ("growth_signal", "created_work_shared") ∷ [];
}

abbrev pub leaving : Thread
leaving = record {
  topic = "离开去做其他事";
  content = "孩子表达需要离开去做其他事，后续开场不要强追问，只可轻轻提一句。";
  quote_summary = "孩子表示需要离开去做其他事，留下未完成话题。";
  next_hook = "下次开场不要强追问，只可轻轻提一句上次说到哪里了。";
  extra = [];
}

abbrev pub pausing : Thread
pausing = record {
  topic = "主动暂停话题";
  content = "孩子主动暂停当前话题，后续开场尊重暂停，不强行继续。";
  quote_summary = "孩子主动暂停话题，表示下次再继续。";
  next_hook = "下次开场轻轻问一句是否想继续上次的话题，允许孩子说不。";
  extra = [];
}

abbrev pub thing_shown : Thread
thing_shown = record {
  topic = "物品分享";
  content = "孩子想给小白狐看一个东西，可能是在分享身边的物品或作品。";
  quote_summary = "孩子主动分享物品或作品给小白狐看。";
  next_hook = "可以问孩子这个东西叫什么或哪里有趣，只问一个小问题。";
  extra = [];
}

abbrev pub work_shown : Thread
work_shown = record {
  topic = "作品分享";
  content = "孩子分享了自己的作品或创作，适合温和肯定，不做评分。";
  quote_summary = "孩子主动分享了自己的作品或创作。";
  next_hook = "可以问孩子作品里最喜欢的一处，不做评分。";
  extra = [];
}
