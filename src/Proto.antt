-- ===== src/Proto.antt =====
-- remus/proto: the values that clients, server and workers exchange.
pub mod JobRequirements
pub mod JobProgress
pub mod JobStatus
pub mod JobContent
pub mod JobSubmission
pub mod JobResult
pub mod WorkerJob
pub mod Job
pub mod SocketIdentity
pub mod SocketInfo
pub mod Socket
pub mod Message
pub mod Response
pub mod Wire
