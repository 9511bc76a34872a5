-- ===== src/Hooks/Writable.antt =====
-- conversation_memory_hooks.py: the notes of a turn fit the bounds of a memory.
use ai_child.Prelude.{
  ◌≡◌, Bool, true, false, not, ◌&&◌, List, [], ◌∷◌, Option, none, some, String, All, map, leb,
  length, if◌then◌else◌, arith, refl, if_of,
}
use ai_child.Prelude.Sorting.{IfSome}
use ai_child.PyText.{PyText, codes, contains_any}
use ai_child.Memory.{is_within}
use ai_child.Memory.Rules.{forbidden_content_markers}
use ai_child.Hooks.Notes.{Note}
use ai_child.Hooks.Threads.{Thread, creation_topic_map, topic_map, running}
use ai_child.Hooks.Signals.{
  one_of, first_thread, interest_seed, topic_boundary, proud_moment, unfinished_thread,
  show_and_tell_event, is_running_or_sports_interest_text,
}
use ai_child.Hooks.Requests.{Turn, RelationshipType, thread_note}
use ai_child.Hooks.Record.{turn_notes, threads_of}

-- the texts and the numbers of a note are within the bounds, and its content has no forbidden marker
abbrev pub is_writable_note : Note → Bool
is_writable_note n =
    is_within 1 500 (codes n.content)
    && leb (length (map codes n.tags)) 12
    && is_within 1 300 (codes n.quote_summary)
    && leb n.confidence 100
    && leb n.importance 100
    && not (contains_any (codes n.content) forbidden_content_markers)

abbrev is_writable_thread : Thread → Bool
is_writable_thread t =
    is_within 1 500 (codes t.content)
    && is_within 1 300 (codes t.quote_summary)
    && not (contains_any (codes t.content) forbidden_content_markers)

pub thread_note-writable :
    (kind : RelationshipType) (t : Thread)
    → is_writable_thread t ≡ true
    → is_writable_note (thread_note kind t) ≡ true
unfolding thread_note
thread_note-writable RelationshipType.interest_seed t h = ground (arith, h)
thread_note-writable RelationshipType.topic_boundary t h = ground (arith, h)
thread_note-writable RelationshipType.proud_moment t h = ground (arith, h)
thread_note-writable RelationshipType.unfinished_thread t h = ground (arith, h)
thread_note-writable RelationshipType.show_and_tell_event t h = ground (arith, h)

abbrev pub IsWritable : Thread → Type 0
IsWritable t = is_writable_thread t ≡ true

first_thread-IsWritable :
    (text : PyText) (rows : List (List String × Thread))
    → All (λ (row : List String × Thread). IsWritable row.1) rows
    → IfSome IsWritable (first_thread text rows)
unfolding first_thread
first_thread-IsWritable text [] a = tt
first_thread-IsWritable text ((markers, thread) ∷ rows) a =
    if_of (IfSome IsWritable) (contains_any text markers) (λ _. a.0)
      (λ _. first_thread-IsWritable text rows a.1)

one_of-IsWritable :
    (b c : Bool) (t u : Thread) → IsWritable t → IsWritable u → IfSome IsWritable (one_of b t c u)
unfolding one_of
one_of-IsWritable true c t u h k = h
one_of-IsWritable false true t u h k = k
one_of-IsWritable false false t u h k = tt

interest_seed-IsWritable : (text : PyText) → IfSome IsWritable (interest_seed text)
unfolding interest_seed contains_any
interest_seed-IsWritable text =
    by_creation (first_thread text creation_topic_map)
      (first_thread-IsWritable text creation_topic_map (refl, (refl, (refl, (refl, tt)))))
  where
    by_creation :
        (o : Option Thread)
        → IfSome IsWritable o
        → IfSome IsWritable (elim o as (λ _. Option Thread) [
          | some thread ↦ some thread
          | none ↦
              if is_running_or_sports_interest_text text
              then some running
              else first_thread text topic_map
        ])
    by_creation (some thread) a = a
    by_creation none a =
        if_of (IfSome IsWritable) (is_running_or_sports_interest_text text) (λ _. refl)
          (λ _. first_thread-IsWritable text topic_map (refl, (refl, (refl, (refl, (refl, tt))))))

unfoldable pub AllWritable : List (RelationshipType × Option Thread) → Type 0
AllWritable = All (λ (x : RelationshipType × Option Thread). IfSome IsWritable x.1)

pub threads_of-AllWritable : (text : PyText) → AllWritable (threads_of text)
unfolding AllWritable threads_of topic_boundary proud_moment unfinished_thread show_and_tell_event
    contains_any
threads_of-AllWritable text = (
  one_of-IsWritable _ _ _ _ refl refl,
  (
    one_of-IsWritable _ _ _ _ refl refl,
    (
      interest_seed-IsWritable text,
      (one_of-IsWritable _ _ _ _ refl refl, (one_of-IsWritable _ _ _ _ refl refl, tt)),
    ),
  ),
)

pub turn_notes-writable :
    (t : Turn) → All (λ (b : Bool × Note). is_writable_note b.1 ≡ true) (turn_notes t)
unfolding turn_notes contains_any
turn_notes-writable t = (refl, (refl, (refl, (refl, (refl, (refl, (refl, tt)))))))
