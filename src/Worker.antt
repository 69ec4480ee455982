-- ===== src/Worker.antt =====
-- The worker side: remus/worker.
pub mod JobQueue
pub mod MessageRouter
pub mod Worker
