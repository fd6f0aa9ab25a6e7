-- ===== src/Sender.antt =====
-- sender_unit: the job that hands packets to workers. The parts are in the child modules.
pub mod Ideal
pub mod Best
pub mod Packets
pub mod Push
pub mod Deliver
pub mod Stuck
pub mod Thread
pub mod Examples
pub mod ThreadExamples
