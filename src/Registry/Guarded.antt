-- ===== src/Registry/Guarded.antt =====
-- model_registry.py, `generate`: under which profiles a request is sent.
use ai_child.Prelude.{
  ◌≡◌, Bool, true, not, ◌&&◌, ◌||◌, List, [], ◌∷◌, Option, none, some, String, All, All-append,
  str_eq, lookup, if◌then◌else◌, arith, refl, if_of,
}
use ai_child.Prelude.Sorting.{IfSome}
use ai_child.PyText.{PyText}
use ai_child.Guards.{Verdict}
use ai_child.Guards.Model.{ModelTaskType, ModelProfile, validate_model}
use ai_child.Guards.Verdicts.{is_accepted}
use ai_child.Registry.{
  ModelRequest, ModelResponse, ModelError, Generated, BaseModelProvider, Result, ModelRegistry,
}
use ai_child.Registry.Lookup.{
  is_mock, only_if, first_profile, named_fallback, mock_of_task, usable_profile,
  enabled_mock_profile, get_primary_profile, provider_for_profile, profile_allowed_for_runtime,
  fallback_profile_for, mock_fallback_profile_for, default_mock_profile_name,
}
use ai_child.Registry.Generate.{
  Exchange, send_to, send_to_fallback, fall_back, fall_back_blocked, after_call, call_guarded,
  call_provider, generate_under, generate,
}

-- the profiles under which a request was sent
abbrev pub sent : Exchange → List ModelProfile
sent x = x.0

-- What is shown of the profiles under which a request is sent: a predicate P that the fallbacks have, and the
-- primary profile where the guard lets the request through.
module _ (P : ModelProfile → Type 0) (lower : PyText → PyText) (r : ModelRegistry)
    (q : ModelRequest) where
  pub send_to_fallback-All :
      (before : List ModelProfile) (mark : ModelResponse → ModelResponse) (missing : ModelError)
      (o : Option ModelProfile)
      → All P before
      → IfSome P o
      → All P (sent (send_to_fallback lower r q before mark missing o))
  unfolding send_to_fallback send_to
  send_to_fallback-All before mark missing none a f = a
  send_to_fallback-All before mark missing (some fallback) a f =
      by_provider (provider_for_profile r fallback)
    where
      by_provider : (o : Result BaseModelProvider) → All P (sent (send_to q before mark fallback o))
      by_provider (Result.raised e) = a
      by_provider (Result.returned provider) = All-append P before (fallback ∷ []) a (f, tt)

  module _ (p : ModelProfile) (usable : IfSome P (fallback_profile_for r p q.task_type)) where
    after_call-All : P p → (g : Generated) → All P (sent (after_call lower r q p g))
    unfolding after_call fall_back
    after_call-All h (Generated.answered response) = (h, tt)
    after_call-All h (Generated.failed name) = send_to_fallback-All _ _ _ _ (h, tt) usable
    after_call-All h Generated.crashed = (h, tt)

    call_provider-All :
        (is_accepted (validate_model lower q.metadata p) ≡ true → P p)
        → IfSome P (mock_fallback_profile_for r p q.task_type)
        → (o : Result BaseModelProvider) → All P (sent (call_provider lower r q p o))
    unfolding call_provider call_guarded fall_back fall_back_blocked
    call_provider-All h mock (Result.raised e) = send_to_fallback-All _ _ _ _ tt usable
    call_provider-All h mock (Result.returned provider) = by_verdict _ h
      where
        by_verdict :
            (v : Verdict)
            → (is_accepted v ≡ true → P p)
            → All P (sent (call_guarded lower r q p provider v))
        by_verdict Verdict.accepted h = after_call-All (h refl) _
        by_verdict (Verdict.blocked reasons) h = send_to_fallback-All _ _ _ _ tt mock

  -- what is asked of the primary profile
  abbrev pub IsSound : ModelProfile → Type 0
  IsSound p =
      IfSome P (fallback_profile_for r p q.task_type)
      × (is_accepted (validate_model lower q.metadata p) ≡ true → P p)
      × IfSome P (mock_fallback_profile_for r p q.task_type)

  abbrev pub IfReturned : Result ModelProfile → Type 0
  IfReturned (Result.raised e) = Unit
  IfReturned (Result.returned p) = IsSound p

  pub generate-All :
      IfReturned (get_primary_profile r q.task_type) → All P (sent (generate lower r q))
  unfolding generate generate_under
  generate-All = by_primary (get_primary_profile r q.task_type)
    where
      by_primary :
          (o : Result ModelProfile) → IfReturned o → All P (sent (generate_under lower r q o))
      by_primary (Result.raised e) h = tt
      by_primary (Result.returned p) h = call_provider-All p h.0 h.1 h.2 (provider_for_profile r p)

-- whatever has a name in the registry and passes a test has a predicate
module _ (P : ModelProfile → Type 0) (find : String → Option ModelProfile)
    (found : (name : String) → IfSome P (find name)) where
  first_profile-has :
      (a b : Option ModelProfile) → IfSome P a → IfSome P b → IfSome P (first_profile a b)
  unfolding first_profile
  first_profile-has none b h k = k
  first_profile-has (some p) b h k = h

  mock_of_task-has : (p : ModelProfile) (task : ModelTaskType) → IfSome P (mock_of_task find p task)
  unfolding mock_of_task
  mock_of_task-has p task =
      let name = default_mock_profile_name task in
      if_of (IfSome P) (str_eq name p.profile_name) (λ _. tt) (λ _. found name)

  fallback-has :
      (p : ModelProfile) (task : ModelTaskType)
      → IfSome P (first_profile (named_fallback find p) (mock_of_task find p task))
  unfolding named_fallback
  fallback-has p task =
      first_profile-has _ _ (by_name p.fallback_profile_name) (mock_of_task-has p task)
    where
      by_name :
          (o : Option String)
          → IfSome P (elim o as (λ _. Option ModelProfile) [
            | none ↦ none
            | some name ↦ if str_eq name "" then none else find name
          ])
      by_name none = tt
      by_name (some name) = if_of (IfSome P) (str_eq name "") (λ _. tt) (λ _. found name)

only_if-has :
    (P : ModelProfile → Type 0) (test : ModelProfile → Bool) (o : Option ModelProfile)
    → ((p : ModelProfile) → test p ≡ true → P p)
    → IfSome P (only_if test o)
only_if-has P test none h = tt
only_if-has P test (some p) h = if_of (IfSome P) (test p) (λ e. h p e) (λ _. tt)

pub only_if-keeps :
    (P : ModelProfile → Type 0) (test : ModelProfile → Bool) (o : Option ModelProfile)
    → IfSome P o
    → IfSome P (only_if test o)
only_if-keeps P test none a = tt
only_if-keeps P test (some p) a = if_of (IfSome P) (test p) (λ _. a) (λ _. tt)

pub IfSome-mono :
    (P Q : ModelProfile → Type 0) (o : Option ModelProfile)
    → ((p : ModelProfile) → P p → Q p)
    → IfSome P o
    → IfSome Q o
IfSome-mono P Q none h a = tt
IfSome-mono P Q (some p) h a = h p a

-- a profile that this runtime may fall back to
abbrev pub IsAllowed : ModelRegistry → ModelProfile → Type 0
IsAllowed r f = not (is_mock f) || r.allow_mock_runtime ≡ true

-- a mock that it may
abbrev pub IsAllowedMock : ModelRegistry → ModelProfile → Type 0
IsAllowedMock r f = is_mock f && r.allow_mock_runtime ≡ true

module _ (r : ModelRegistry) (p : ModelProfile) (task : ModelTaskType) where
  pub fallback_is_allowed : IfSome (IsAllowed r) (fallback_profile_for r p task)
  unfolding fallback_profile_for usable_profile profile_allowed_for_runtime
  fallback_is_allowed =
      fallback-has (IsAllowed r) (usable_profile r)
        (λ name. only_if-has (IsAllowed r) _ (lookup name r.profiles) (λ f h. ground (arith, h))) p
        task

  pub mock_fallback_is_mock : IfSome (IsAllowedMock r) (mock_fallback_profile_for r p task)
  unfolding mock_fallback_profile_for enabled_mock_profile
  mock_fallback_is_mock =
      if_of (IfSome (IsAllowedMock r)) r.allow_mock_runtime
        (λ allowed.
          fallback-has (IsAllowedMock r) (enabled_mock_profile r)
            (λ name.
              only_if-has (IsAllowedMock r) _ (lookup name r.profiles)
                (λ f h. ground (arith, h, allowed)))
            p task)
        (λ _. tt)
