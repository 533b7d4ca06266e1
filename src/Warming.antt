-- ===== src/Warming.antt =====
-- warming/: the planning of warm tasks, the service that queues and executes them, and its scheduler.
pub mod Tasks
pub mod Service
pub mod Scheduler
