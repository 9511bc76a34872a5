-- ===== src/Hooks.antt =====
-- backend/app/services/conversation_memory_hooks.py: what a turn of a conversation reads from the memories of
-- a child, and what it leaves there. The two clocks, the monotonic one of a session and that of the memory
-- service, are arguments; both count microseconds, and a call reads each once.
pub mod Session
pub mod Recall
pub mod Notes
pub mod Threads
pub mod Signals
pub mod Requests
pub mod Record
pub mod Writable
pub mod Kept
pub mod Alarm
pub mod Silent
pub mod Refusal
pub mod Counts
pub mod Taken
pub mod States
pub mod Once
pub mod Window
pub mod Fit
mod Tests
