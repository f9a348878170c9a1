-- ===== src/Tests.antt =====
-- A small kernel with four tasks, and each result applied to it.
pub mod Example
pub mod Lists
pub mod Calls
pub mod Semaphores
pub mod Ports
pub mod Timers
pub mod Layers
pub mod Systems
pub mod Slices
pub mod Entries
