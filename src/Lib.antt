-- ===== src/Lib.antt =====
-- Remus is a broker between clients that want meshes and workers that make them. A client sends a
-- request to the server; the server queues the job, finds a worker in its pool or has its worker
-- factory launch one, sends the worker the job, and keeps the status and the result that the
-- worker sends back until the client fetches them. A worker's own queue holds the jobs that it was
-- sent. What the server does is published as events.
--
-- The parts and the files that model them:
--
--   Std, Prelude         the containers of the C++ library that the program uses (vectors, sets, maps
--                        as lists), streams of bytes, numbers and tests on them.
--   Common               remus/common: StatusTypes, ServiceTypes, MeshIOType, PollingMonitor, which
--                        decides how long the server polls, and ExecuteProcess, with what its `execute`
--                        does to the variables of the process.
--   Proto                remus/proto: JobRequirements with its order, JobProgress, JobStatus, JobResult,
--                        JobContent, JobSubmission, WorkerJob, and Job, which a client holds.
--   Proto/Wire           the text in which these values are sent, over remus/common/ConversionHelper.h
--                        and the streams of Std/Stream; Wire/Submission has submissions, results, the
--                        jobs for a worker and sets.
--   Proto/Socket, Proto/Message, Proto/Response
--                        remus/proto/zmqHelper.cxx, Message and Response: what is sent as frames, and
--                        how it is tried again.
--   Proto/SocketIdentity, Proto/SocketInfo
--                        remus/proto/zmqSocketIdentity and zmqSocketInfo.h, the binding of ports in
--                        remus/server/ServerPorts.cxx, and `make_ServerConnection` of remus/client and
--                        remus/worker.
--   Server/JobQueue      remus/server/detail/JobQueue: the jobs that no worker has. Child modules give
--                        its invariant, the map from ids to submissions that it implements, the order in
--                        which it hands out jobs, and its cache of requirements.
--   Server/ActiveJobs    remus/server/detail/ActiveJobs: the jobs that workers have. LifeCycle is the
--                        step relation of a job's status, History the calls in any order.
--   Server/WorkerPool    remus/server/detail/WorkerPool: the workers and the jobs that they ask for.
--   Server/SocketMonitor remus/server/detail/SocketMonitor: when a worker last gave a sign of life.
--   Server/ClientRequests, Server/WorkerMessages, Server/Assignment and Server/Broker
--                        remus/server/Server.cxx: `DetermineClientResponse`, `DetermineWorkerResponse`,
--                        `FindWorkerForQueuedJob` with `CheckForChangeInWorkersAndJobs`, and the loop of
--                        `Brokering`. Server/State is the state of the class Server, and Server/Threads
--                        its `ThreadManagement`, as the steps of the threads.
--   Server/Factory       the interface WorkerFactoryBase with the laws that the server may rely on.
--                        Server/ThreadFactory is remus/server/ThreadWorkerFactory with its pool of
--                        threads, Server/ProcessFactory remus/server/WorkerFactory, which starts
--                        processes, and Server/FactoryFiles the files that describe workers:
--                        remus/server/FactoryFileParser.cxx and detail/WorkerFinder.cxx.
--   Server/EventPublisher
--                        remus/server/detail/EventPublisher: the keys and the JSON objects of events.
--   Worker/Worker        remus/worker/Worker: the messages that a worker sends.
--   Worker/JobQueue      remus/worker/detail/JobQueue: the queue between a worker's two threads.
--   Worker/MessageRouter remus/worker/detail/MessageRouter: the thread that passes messages between the
--                        server, the worker and the queue, and sends heartbeats.
--   Client               remus/client/Client: the calls of a client, over the frames of Proto/Message.
--   Tests                the theorems at concrete inputs.
--
-- A class is a record, a method that changes it a function that returns the new state, with the
-- method's own result beside it. Names are those of the C++ methods in snake case. An uuid is a
-- number with the order of uuids, a socket identity, in the server, its rank in the order of
-- identities, a string a list of bytes, a time a number of microseconds. What a method reads from
-- outside is an argument: each reading of the clock, the next uuid, whether a socket takes a
-- message, whether a process is alive, what a file holds. The server works with any worker factory;
-- only Server/ClientRequests/Discovery takes one that keeps the laws, as both factories do. Responses
-- and events that the server sends are a list of outputs, last first.
--
-- The loops run over lists. The printing of a number takes fuel, one more than the number, which is
-- proved to be enough. Sending and receiving a frame is tried five times, as in the source, and the
-- search for a port ends at 65535.
--
-- The server's handlers take what the decoders make of a message's payload, in place of its bytes, and
-- whether they throw: an exception, which nothing catches, ends the handler and the loop without a result.
-- The decoders are in Proto/Wire, and Client and Worker/Worker send the bytes. The texts of an uuid, the
-- hash MD5, the library cJSON, the file system and the sockets of zmq are parameters, of which
-- a theorem names what it relies on. The number of jobs that a worker asks for stays below 2 ^ 31
-- and durations below 2 ^ 63 microseconds, and a polling rate is at most 1152921504606846 milliseconds by
-- its type, since larger ones overflow, so that no integer wraps but the router's count of
-- outstanding results, which is kept modulo 2 ^ 64, and the words of an identity, of 32 bits.
--
-- Not modelled: signal handlers, `poll_safely` and the contexts and options of zmq, the pipes of
-- ExecuteProcess, the branches for Windows and CMAKE_INTDIR, LocateFile, Timer, SignalCatcher, SleepFor,
-- MeshRegistrar and SMTKMeshSubmission: they are calls of the system or of libraries, or conveniences
-- over what is modelled. The text of a JSON object is the library's.
pub mod Prelude
pub mod Std
pub mod Common
pub mod Proto
pub mod Server
pub mod Worker
pub mod Client
pub mod Tests
