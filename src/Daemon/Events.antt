-- ===== src/Daemon/Events.antt =====
-- What happens to the service over time: requests and completed investigations, each of which holds
-- the lock of `Inner` while it changes it, in any order.
pub mod SingleFlight
use omarchy_premonition.Protocol.SafeId.{SafeId}
use omarchy_premonition.Protocol.Request.{Request}
use omarchy_premonition.Daemon.State.{Inner}
use omarchy_premonition.Daemon.Handlers.{Env}
use omarchy_premonition.Base.{ℕ, List, [], ◌∷◌, Result}
use omarchy_premonition.Daemon.Service.{handle}
use omarchy_premonition.Daemon.Jobs.{finish_job, JobError, Finding}

-- What the service goes through: requests, and investigations that complete.
pub data Event : Type 0 where
  request : Env → Request → Event
  completion : ℕ → ℕ → SafeId → SafeId → Result JobError Finding → Event

unfoldable pub step : Inner → Event → Inner
step inner (Event.request env r) = (handle env inner r).inner
step inner (Event.completion id_ms now correlation repository c) =
    finish_job id_ms now inner correlation repository c

unfoldable pub run : Inner → List Event → Inner
unfolding step
run inner [] = inner
run inner (e ∷ es) = run (step inner e) es
