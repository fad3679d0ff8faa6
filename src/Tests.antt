-- ===== src/Tests.antt =====
-- Runs of the definitions at concrete data, and the theorems at inputs that meet their hypotheses.
pub mod Wire
pub mod Machine
pub mod Archives
pub mod Collected
pub mod Settings
pub mod Slots
pub mod Views
pub mod Locks
pub mod Waits
pub mod Requests
pub mod Opened
pub mod Started
pub mod Enrolling
pub mod Session
