-- ===== src/Segmenter/Tests.antt =====
-- Runs of the segmenter, and the theorems at concrete replies.
use ai_child.Prelude.{◌≡◌, List, [], ◌∷◌, Option, none, some, map, min, arith, refl, Yields}
use ai_child.PyText.{PyText, codes, strip}
use ai_child.Segmenter.{
  TextSegmenter, TextSegment, segment, hard_limit, chunk_loop, split_sentences, split_all,
  split_long_sentence, range_loop, merge_loop,
}
use ai_child.Segmenter.Segments.{IsSegmentation, segment-IsSegmentation, text_of}
use ai_child.Segmenter.Chunks.{chunk_loop-diverges}

abbrev default_segmenter : TextSegmenter
default_segmenter = record { min_chars = 12; preferred_max_chars = 80; hard_max_chars = 600 }

abbrev small_segmenter : TextSegmenter
small_segmenter = record { min_chars = 2; preferred_max_chars = 5; hard_max_chars = 600 }

abbrev reply : PyText
reply = codes " 好呀！我们一起看，一步一步来。 "

abbrev texts : Option (List TextSegment) → Option (List PyText)
texts none = none
texts (some segments) = some (map text_of segments)

-- short neighbours are joined
reply_joined : texts (segment default_segmenter none reply) ≡ some (codes "好呀！我们一起看，一步一步来。" ∷ [])
unfolding segment strip split_sentences split_all split_long_sentence range_loop merge_loop
reply_joined = refl

-- long sentences are cut behind a comma, or at the limit
reply_cut :
    texts (segment small_segmenter none reply)
    ≡ some (codes "好呀！" ∷ codes "我们一起看" ∷ codes "，一步一步" ∷ codes "来。" ∷ [])
unfolding segment strip split_sentences split_all split_long_sentence range_loop merge_loop
reply_cut = refl

segment-IsSegmentation_example :
    Yields
      (IsSegmentation (min (hard_limit small_segmenter none) 5) reply)
      (segment small_segmenter none reply)
segment-IsSegmentation_example =
    segment-IsSegmentation small_segmenter none reply (unfold hard_limit in omega arith)
      (omega arith)

chunk_loop-diverges_example : chunk_loop 100 12 0 (codes "好呀！") ≡ none
unfolding strip
chunk_loop-diverges_example = chunk_loop-diverges 100 12 (codes "好呀！") (omega arith) refl
