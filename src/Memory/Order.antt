-- ===== src/Memory/Order.antt =====
-- memory_service.py, the key of `retrieve`: score, importance, confidence and the time of the last update.
use ai_child.Prelude.{ℕ, ◌≡◌, Bool, true, false, ◌&&◌, ◌||◌, ltb, leb, nat_eq, arith}
use ai_child.PyText.{PyText}
use ai_child.Memory.{MemoryItem}
use ai_child.Memory.Service.{ranks_at_least}

-- the comparison of two tuples of four numbers
abbrev tuple_at_least : (a b c d a' b' c' d' : ℕ) → Bool
tuple_at_least a b c d a' b' c' d' =
    ltb a' a
    || (nat_eq a a' && (ltb b' b || (nat_eq b b' && (ltb c' c || (nat_eq c c' && leb d' d)))))

tuple_total :
    (a b c d a' b' c' d' : ℕ)
    → tuple_at_least a b c d a' b' c' d' ≡ false
    → tuple_at_least a' b' c' d' a b c d ≡ true
tuple_total a b c d a' b' c' d' h = ground arith

module _ (lower : PyText → PyText) (query : PyText) where
  pub ranks-total :
      (m n : MemoryItem)
      → ranks_at_least lower query m n ≡ false
      → ranks_at_least lower query n m ≡ true
  unfolding ranks_at_least
  ranks-total m n h = ground arith

  pub ranks-chained :
      (l m n : MemoryItem)
      → ranks_at_least lower query l m ≡ true
      → ranks_at_least lower query m n ≡ true
      → ranks_at_least lower query l n ≡ true
  unfolding ranks_at_least
  ranks-chained l m n h k = ground arith
