-- ===== src/Memory/Kept.antt =====
-- memory_extractor.py with `create_many` of memory_service.py: what becomes of the memories of a summary.
use mathlib.Core.Option
use ai_child.Prelude.{
  ◌≡◌, Bool, true, false, ◌&&◌, ◌||◌, List, [], ◌∷◌, ◌++◌, Option, none, some, String, str_eq,
  eq_refl, All, any, map, take, bind, refl, arith, ap, sym, ◌∙◌, Bool-cases, inl, inr, if_of, subst,
  if◌then◌else◌,
}
use ai_child.Prelude.Sorting.{IfSome}
use ai_child.PyText.{PyText, codes, strip, text_is, contains_any}
use ai_child.Memory.{MemoryEvidence, MemoryCreateRequest, MemoryItem, is_safety, is_critical}
use ai_child.Memory.Rules.{
  normalize_safety_fields, is_watched, forbidden_content_markers, forbidden_sources,
  is_forbidden_source,
}
use ai_child.Memory.Service.{Store, Outcome, item_of, create_many}
use ai_child.Memory.Extractor.{
  MemoryExtractionRequest, Draft, new_request, build_memory, branches, build_all, extract,
  safety_signal,
}
use ai_child.Memory.Batch.{Request}
use ai_child.Memory.Allowed.{request_of, kept, IsAllowed, checked, allowed_are_stored}

module _ (lower : PyText → PyText)
    (same : lower (codes "chat_summary") ≡ codes "chat_summary") where
  chat_summary_is_allowed :
      (e : MemoryEvidence) → e.source ≡ codes "chat_summary" → is_forbidden_source lower e ≡ false
  unfolding is_forbidden_source strip text_is
  chat_summary_is_allowed e h =
      ap (λ source. any (λ s. text_is (lower (strip source)) (codes s)) forbidden_sources) h
      ∙ ap (λ source. any (λ s. text_is source (codes s)) forbidden_sources) same

  build_memory-IsAllowed :
      (r : MemoryExtractionRequest) (d : Draft)
      → contains_any (codes d.content) forbidden_content_markers ≡ false
      → IfSome (IsAllowed lower) (build_memory r d)
  unfolding build_memory new_request
  build_memory-IsAllowed r d h =
      checked lower _ _ (ap (λ b. b || false) (chat_summary_is_allowed _ refl), h)

  abbrev AllUnmarked : List (Bool × Draft) → Type 0
  AllUnmarked =
      All (λ (b : Bool × Draft). contains_any (codes b.1.content) forbidden_content_markers ≡ false)

  taken_too :
      (o : Option MemoryCreateRequest) (rest : Option (List MemoryCreateRequest))
      → IfSome (IsAllowed lower) o
      → IfSome (All (IsAllowed lower)) rest
      → IfSome (All (IsAllowed lower)) (bind o (λ m. Option.map (λ ms. m ∷ ms) rest))
  taken_too none rest a b = tt
  taken_too (some m) none a b = tt
  taken_too (some m) (some ms) a b = (a, b)

  build_all-IsAllowed :
      (r : MemoryExtractionRequest) (bs : List (Bool × Draft))
      → AllUnmarked bs
      → IfSome (All (IsAllowed lower)) (build_all r bs)
  unfolding build_all
  build_all-IsAllowed r [] u = tt
  build_all-IsAllowed r ((taken, d) ∷ bs) u =
      if_of (IfSome (All (IsAllowed lower))) taken
        (λ _.
          taken_too (build_memory r d) (build_all r bs) (build_memory-IsAllowed r d u.0)
            (build_all-IsAllowed r bs u.1))
        (λ _. build_all-IsAllowed r bs u.1)

  -- Whatever summary the memories were extracted from, and whatever their times and identifiers are, a list
  -- of them is stored as a whole: none is refused.
  pub extracted_is_kept :
      (r : MemoryExtractionRequest) (requests : List Request) (store : Store)
      → extract r ≡ some (map request_of requests)
      → (create_many lower requests store).0 ≡ Outcome.returned (map kept requests)
  unfolding extract branches contains_any
  extracted_is_kept r requests store h = allowed_are_stored lower requests store (
      subst (IfSome (All (IsAllowed lower))) h
        (build_all-IsAllowed r (branches r) (refl, (refl, (refl, (refl, (refl, (refl, tt))))))))

-- a request for an alarm of a child
abbrev pub is_alarm_request : String → MemoryCreateRequest → Bool
is_alarm_request child q =
    is_safety q.memory_type && is_critical q.sensitivity && str_eq q.child_id child

-- a stored memory that tells a parent of a safety signal
abbrev pub is_alarm : String → MemoryItem → Bool
is_alarm child m =
    is_safety m.memory_type
    && is_critical m.sensitivity
    && m.visible_to_parent
    && m.requires_parent_attention
    && str_eq m.child_id child

kept-is_alarm :
    (child : String) (x : Request)
    → is_alarm_request child (request_of x) ≡ true
    → is_alarm child (kept x) ≡ true
unfolding normalize_safety_fields is_watched item_of
kept-is_alarm child (now, id, q) h = ground arith

any-kept :
    (child : String) (requests : List Request)
    → any (is_alarm_request child) (map request_of requests) ≡ true
    → any (is_alarm child) (map kept requests) ≡ true
any-kept child [] h = h
any-kept child (x ∷ requests) h = elim (Bool-cases (is_alarm_request child (request_of x))) [
  | inl e ↦ ground (arith, kept-is_alarm child x e)
  | inr e ↦ ground (arith, any-kept child requests (ground arith))
]

module _ (r : MemoryExtractionRequest) where
  abbrev HasAlarm : Option (List MemoryCreateRequest) → Type 0
  HasAlarm = IfSome (λ ms. any (is_alarm_request r.child_id) ms ≡ true)

  alarm_request :
      (b : Bool) (q : MemoryCreateRequest) (rest : Option (List MemoryCreateRequest))
      → is_alarm_request r.child_id q ≡ true
      → HasAlarm (bind (if b then some q else none) (λ m. Option.map (λ ms. m ∷ ms) rest))
  alarm_request true q none h = tt
  alarm_request true q (some ms) h = ground arith
  alarm_request false q rest h = tt

  alarm_behind :
      (o : Option MemoryCreateRequest) (rest : Option (List MemoryCreateRequest))
      → HasAlarm rest
      → HasAlarm (bind o (λ m. Option.map (λ ms. m ∷ ms) rest))
  alarm_behind none rest a = tt
  alarm_behind (some m) none a = tt
  alarm_behind (some m) (some ms) a = ground arith

  build_all-HasAlarm :
      (bs : List (Bool × Draft)) → HasAlarm (build_all r (bs ++ (true, safety_signal) ∷ []))
  unfolding build_all build_memory new_request
  build_all-HasAlarm [] = alarm_request _ _ (some []) (eq_refl r.child_id)
  build_all-HasAlarm ((taken, d) ∷ bs) =
      if_of HasAlarm taken (λ _. alarm_behind (build_memory r d) _ (build_all-HasAlarm bs))
        (λ _. build_all-HasAlarm bs)

told_branches :
    (r : MemoryExtractionRequest)
    → r.safety_requires_parent_attention ≡ true
    → branches r ≡ take 5 (branches r) ++ (true, safety_signal) ∷ []
unfolding branches
told_branches r h = rw h refl

-- If a parent is to be told of the chat, the memories of its summary, once stored, tell of a safety signal
-- of that child: critical, visible to the parent and marked for attention.
pub alarm_is_kept :
    (lower : PyText → PyText) (r : MemoryExtractionRequest) (requests : List Request)
    (store : Store)
    → lower (codes "chat_summary") ≡ codes "chat_summary"
    → r.safety_requires_parent_attention ≡ true
    → extract r ≡ some (map request_of requests)
    → (ms : List MemoryItem) × ((create_many lower requests store).0 ≡ Outcome.returned ms)
      × (any (is_alarm r.child_id) ms ≡ true)
unfolding extract
alarm_is_kept lower r requests store same told h = (
  map kept requests,
  extracted_is_kept lower same r requests store h,
  any-kept r.child_id requests (
      subst (HasAlarm r) (sym (ap (build_all r) (told_branches r told)) ∙ h)
        (build_all-HasAlarm r (take 5 (branches r)))),
)
