-- ===== src/Allim.antt =====
-- src/allim: the limit-point library. This file has its shared memory (allimPoint.h), the answers
-- of the platform layer, and how a call attaches and locks the shared memory (lib/allib.c).
pub mod State
pub mod Shared
pub mod Logging
pub mod Points
pub mod Waste
pub mod Limits
pub mod Sockets
pub mod Frame
pub mod Slots
pub mod BaseName
pub mod Countdown
pub mod Wasting
pub mod Descriptors
pub mod Tests
pub mod Threads
pub mod Setting
pub mod Memory
pub mod MemoryFaults
