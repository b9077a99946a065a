-- ===== src/Tcp/Invariant.antt =====
-- The invariant of a TCP flow over its whole life, kept by every event that the engine passes to it.
pub mod Keeps
pub mod Pumping
pub mod Opening
pub mod Closing
pub mod Messages
pub mod Timers
pub mod Events
