-- ===== src/Server.antt =====
-- remus/server.
pub mod JobQueue
pub mod SocketMonitor
pub mod ActiveJobs
pub mod WorkerPool
pub mod Factory
pub mod ThreadFactory
pub mod ProcessFactory
pub mod FactoryFiles
pub mod Message
pub mod State
pub mod ClientRequests
pub mod WorkerMessages
pub mod Assignment
pub mod Invariant
pub mod Broker
pub mod Threads
pub mod EventPublisher
