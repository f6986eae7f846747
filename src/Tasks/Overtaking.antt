-- ===== src/Tasks/Overtaking.antt =====
-- service.py: the cloud's dispatch and the run of the task that it starts.
use proofbid.Tasks.Service.{Service}
use proofbid.Prelude.{list_eq, nat_eq, text_eq}
