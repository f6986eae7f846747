-- ===== src/Pipeline/Trace.antt =====
-- tracing.py: the events of a pipeline's trace, and the stages that write them. The identity and the
-- time of an event, the duration of a stage and the text of a failure are left out.
use proofbid.Prelude.{List, String, [], length, ℕ, ◌++◌, ◌+◌, ◌∷◌}
use proofbid.Loading.{Json}
use proofbid.Errors.{Result, ok, raised}
use proofbid.Exec.{Exec}

pub record Event : Type 0 where
  pub sequence : ℕ
  pub step : String
  pub actor : String
  pub status : String
  pub details : List (String × Json)

abbrev pub Trace : Type 0
Trace = List Event

-- `TraceRecorder.emit`
unfoldable pub record_event : String → String → String → List (String × Json) → Trace → Trace
record_event step actor status details trace =
    trace
    ++ record {
      sequence = length trace + 1;
      step = step;
      actor = actor;
      status = status;
      details = details;
    }
      ∷ []

abbrev pub local_actor : String
local_actor = "proofbid.local"

abbrev pub started : String → Trace → Trace
started step trace = record_event step local_actor "started" [] trace

-- `stage.complete(…)` behind the work of the stage, or `__exit__` behind its exception.
unfoldable pub settled :
    {A : Type 0} → String → (A → List (String × Json)) → Trace → Result A → Result A × Trace
settled step details trace (ok a) =
    (ok a, record_event step local_actor "completed" (details a) trace)
settled step details trace (raised e) = (raised e, record_event step local_actor "failed" [] trace)

-- `with trace.stage(step) as stage: …; stage.complete(…)`. The work may read the trace.
unfoldable pub stage :
    {A : Type 0} → String → (Trace → Result A) → (A → List (String × Json)) → Exec Trace A
stage step work details trace =
    settled step details (started step trace) (work (started step trace))
