-- ===== src/Lib.antt =====
-- Verification library of the backend of ai-child, a companion for children that talks in text and
-- speech (backend/app). It models the part of a turn that decides what may happen in it, and the state
-- that lives beside it.
--
-- The parts and how they work together:
-- - A child's text goes to the safety engine (backend/app/services/safety_engine.py), modelled in
--   Safety: `classify_input` collects hits by marker lists (Safety/Markers, Safety/Hits), and the
--   highest hit decides the risk level. `classify_output` does the same for a reply.
-- - The text and the classification go to the intent classifier
--   (backend/app/services/intent_classifier.py), modelled in Intent: `classify` is the branches that
--   read the classification (`safety_intent`), then the keywords (`keyword_intent`).
-- - All of that goes as a SceneRouteRequest to the scene router
--   (backend/app/services/scene_orchestrator.py, backend/app/domain/scene.py), modelled in Scene: the
--   decisions of the safety scenes in Scene/Decisions, the others in Scene/Everyday, and in
--   Scene/Router the class SceneOrchestrator as a record of the sessions' stacks and the log of
--   backend/app/repositories/routing_decision_repository.py. `route` is `decide`, the ladder of its
--   conditions, between the read of the stack and the two writes.
-- - Turn is the piece of `handle_message` (backend/app/services/conversation_service.py, from the
--   test for a homework attachment to the route decision) that composes the three.
-- - A safe reply goes to speech in segments (backend/app/services/text_segmenter.py), modelled in
--   Segmenter: sentences, chunks of long sentences, the merge of short ones, and the ranges.
-- - A child's companion object (backend/app/services/companion_object_service.py,
--   backend/app/domain/companion_object.py, backend/app/repositories/companion_object_repository.py)
--   is modelled in Companion, Companion/Store (the in-memory repository), Companion/Rules (the state
--   and the validation), Companion/Pending (what waits for the next message) and Companion/Service (the
--   operations, with a result type for the exceptions).
-- - What the model is told of the turns before (backend/app/services/conversation_history_service.py) is
--   modelled in History: the bounded list of each session. History/Log is the full log that it stands
--   for.
-- - The period of a child's day (backend/app/services/time_context_service.py, and the schedule of
--   backend/app/domain/time.py), on which the scene router and the companion service rely, is modelled in
--   TimeContext.
-- - What is remembered of a child (backend/app/domain/memory.py, backend/app/services/memory_service.py,
--   backend/app/repositories/memory_repository.py) is modelled in Memory: Memory/Rules has the
--   validation, the expiry and the search, Memory/Service the operations over the store.
--   Memory/Extractor is backend/app/services/memory_extractor.py, whose requests `create_many` stores.
-- - What may be sent to a remote provider, and what may start
--   (backend/app/services/model_data_policy_guard.py, tts_data_policy_guard.py,
--   asr_data_policy_guard.py and runtime_provider_guard.py) is modelled in Guards, Guards/Model,
--   Guards/Speech and Guards/Runtime. A guard's verdict holds the reasons of its exception.
-- - Accounts and sessions (backend/app/services/auth_service.py,
--   backend/app/repositories/auth_repository.py, backend/app/domain/schemas/auth.py) are modelled in
--   Auth: the records and the in-memory repository in Auth itself, the hashes of passwords in
--   Auth/Passwords, the calls in Auth/Service.
-- - How a conversation is opened (backend/app/services/opening_policy.py) is modelled in Opening: what it
--   reads of memories (backend/app/services/relationship_memory.py) in Opening/Relations, what it reads of
--   the parent policy (backend/app/domain/schemas/parent_policy.py) in Opening/Parents, the branches of
--   `build` in Opening/Choice, and `build` and `record_policy_used` in Opening/Policy.
-- - What a turn reads from the memories and leaves there
--   (backend/app/services/conversation_memory_hooks.py, and the metadata of
--   backend/app/services/relationship_memory.py) is modelled in Hooks: the states of the sessions in
--   Hooks/Session, `retrieve_context` in Hooks/Recall, the texts of the notes in Hooks/Notes and
--   Hooks/Threads, the tests of a child's text in Hooks/Signals, the requests in Hooks/Requests and
--   `record_turn` in Hooks/Record. `turn_of` and `recall_of` are the calls of `handle_message`.
-- - Which provider a request for a model goes to (backend/app/services/model_registry.py, with
--   backend/app/domain/model_types.py and backend/app/providers/model/base.py) is modelled in Registry:
--   the lookups of profiles and fallbacks in Registry/Lookup, `generate` in Registry/Generate, and the
--   profiles and the map of the program in Registry/Defaults. The guard it calls is Guards/Model.
-- - The pictures that a child shows (backend/app/services/attachment_service.py,
--   backend/app/services/modality_manager.py, backend/app/domain/attachment.py and
--   backend/app/repositories/attachment_repository.py) are modelled in Attachments: the records and the
--   in-memory repository in Attachments itself, the decision on a picture in Attachments/Modality, what is
--   stored and searched in Attachments/Service. `find_homework` in Attachments/Own is the piece of
--   `handle_message` that looks for the homework of a message.
-- - Turn/Engagement is how a child's words bear on what is recalled. Turn/Naming reads the name of a
--   companion out of them, Turn/Seeds is the creation of a companion that waits for its name, and
--   Turn/Companions the extension by a friend, the signs to go on or to skip, and their order in
--   `handle_message`. Turn/Reply is the reply behind them (`_response_from_route_decision`).
-- Enums and TimePeriod hold backend/app/domain/enums.py and TimePeriod of backend/app/domain/time.py,
-- PyText the operations of Python's `str` that the services call, Prelude what all modules share:
-- tests, lists over native numbers, Python's `dict` as an association list in insertion order, and
-- its stable sort.
-- Each component's Tests module runs it on concrete inputs.
--
-- Conventions and bounds:
-- - A text that is searched is a list of code points; other strings are native. `str.lower` stands on
--   the Unicode tables: it is an argument of whatever calls it. Nothing is assumed of it, but for the
--   memories of a summary and of a turn that it keeps the texts `chat_summary` and
--   `conversation_summary`.
-- - Confidences, importances and scores are counted in hundredths, of which every constant of the
--   source is a multiple, and their sums are exact.
-- - A datetime is a number of microseconds since a fixed midnight in UTC. The time, fresh identifiers,
--   what is recognized in an image, what
--   a regular expression finds in its text, the local time in a zone, and whether a path exists are
--   arguments, as is the environment. The patterns of companion names are modelled.
-- - The loops of the segmenter run on fuel, and `none` means that it ran out. The fuel is the length
--   of the text, which is enough for positive limits. Limits are natural numbers.
-- - sha256, pbkdf2, base64 and the reading of a number are arguments of what calls them, as is what is
--   drawn at random.
-- - The repositories are the in-memory ones. An exception is an error value.
--
-- Not modelled: the early return of the homework guard, the model's reply, and the quick actions and
-- the sound that go with a reply (they are arguments where a reply is built), the fallback of the
-- companion, memory and account services after a failure of their repositories, an explicit null in
-- an update of a memory for a field that may not be null, the SQL repositories, the profiles of
-- accounts, the texts of openings, conversation streams, age bands, turn guidance, parent reports,
-- prompts, the model providers with the logs of their calls, the recognition and the upload of
-- images, speech, the HTTP interface and the Android application. They are input and output, calls
-- of remote models, or parts that stand apart from the ones above.
pub mod Prelude
pub mod PyText
pub mod Enums
pub mod Safety
pub mod TimePeriod
pub mod Intent
pub mod Scene
pub mod Turn
pub mod Segmenter
pub mod Companion
pub mod History
pub mod TimeContext
pub mod Guards
pub mod Hooks
pub mod Memory
pub mod Auth
pub mod Opening
pub mod Registry
pub mod Attachments
