-- ===== src/Hooks/Refusal.antt =====
-- conversation_memory_hooks.py with the words of a message: what follows a refusal.
use ai_child.Prelude.{ℕ, ◌+◌, ◌*◌, ◌≡◌, true, false, [], ◌∷◌, All, ltb, str_eq, eq_refl, refl}
use ai_child.PyText.{PyText, strip, without, contains_any, opt_eq}
use ai_child.Scene.Router.{SceneOrchestrator, Drawn}
use ai_child.Turn.{Message}
use ai_child.Turn.Engagement.{refusal_markers, engagement_of, pre_check_child_engagement}
use ai_child.Memory.Service.{Store}
use ai_child.Hooks.Session.{SessionRecall, second}
use ai_child.Hooks.Recall.{retrieve_context}
use ai_child.Hooks.States.{Calls, after_calls}
use ai_child.Hooks.Window.{is_signal, quiet_until, is_neutral, quiet_after_signal}
use ai_child.Hooks.Silent.{recall_of}

module _ (lower : PyText → PyText) (m : Message)
    (refuses : contains_any (without 32 (lower (strip m.text))) refusal_markers ≡ true) where
  refused : pre_check_child_engagement lower m.text ≡ "refused"
  unfolding pre_check_child_engagement engagement_of
  refused = rw refuses refl

  -- After a message with the words of a refusal, and calls without such a sign in the session, no message of
  -- the session in the next 300 seconds is answered with memories, whatever it says.
  pub refusal_is_respected :
      (drawn later : Drawn) (o after : SceneOrchestrator) (next : Message)
      (now clock now_later clock_later : ℕ) (store memories : Store) (calls : Calls)
      (sessions : SessionRecall)
      → str_eq m.session_id "" ≡ false
      → All (λ call. is_neutral m.session_id call ≡ true) calls
      → str_eq next.session_id m.session_id ≡ true
      → ltb clock_later (clock + 300 * second) ≡ true
      → (retrieve_context lower
          (recall_of lower later next after now_later clock_later)
          memories
          (after_calls lower ((recall_of lower drawn m o now clock, store) ∷ calls) sessions)).0
        ≡ []
  unfolding recall_of is_signal quiet_until opt_eq
  refusal_is_respected drawn later o after next now clock now_later clock_later store memories calls
        sessions real a same before =
      quiet_after_signal lower m.session_id real (recall_of lower drawn m o now clock) store calls
        sessions (recall_of lower later next after now_later clock_later) memories
        (eq_refl m.session_id) (rw refused refl) a same (rw refused before)
