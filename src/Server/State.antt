-- ===== src/Server/State.antt =====
-- The fields of remus/server/Server.h that its handlers change, with all that was sent, last first.
use remus.Prelude.{List, [], ◌∷◌}
use remus.Server.JobQueue
use remus.Server.JobQueue.{JobQueue}
use remus.Server.SocketMonitor
use remus.Server.SocketMonitor.{SocketMonitor}
use remus.Server.WorkerPool.{WorkerPool}
use remus.Server.ActiveJobs.{ActiveJobs}
use remus.Server.Factory.{WorkerFactory}
use remus.Server.Message.{Output}
use remus.Common.PollingMonitor.{PollingMonitor}

pub record Server (f : WorkerFactory) : Type 0 where
  pub queued_jobs : JobQueue
  pub socket_monitor : SocketMonitor
  pub worker_pool : WorkerPool
  pub active_jobs : ActiveJobs
  pub worker_factory : f.State
  pub sent : List Output

module _ {f : WorkerFactory} where
  abbrev pub send : Server f → Output → Server f
  send s o = record s { sent = o ∷ s.sent }

  -- The constructors: everything empty, with the given factory.
  unfoldable pub make : PollingMonitor → f.State → Server f
  make p factory = record {
    queued_jobs = JobQueue.empty;
    socket_monitor = SocketMonitor.make p;
    worker_pool = [];
    active_jobs = [];
    worker_factory = factory;
    sent = [];
  }
