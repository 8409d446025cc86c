-- ===== src/Dlq.antt =====
-- The dead-letter queue (dlq/): its records, its state machine, and the stores on it.
pub mod Record
pub mod Ordered
pub mod Groups
pub mod Keys
pub mod Machine
pub mod Memory
pub mod Store
pub mod Redriver
