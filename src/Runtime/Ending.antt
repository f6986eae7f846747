-- ===== src/Runtime/Ending.antt =====
-- What every reachable state of a run has established, up to its end.
use proofbid.Prelude.{
  Memᴰ, Bool, List, Option, String, any, arith, false, some, true, ◌++◌, ◌||◌, ◌==◌, ◌∷◌, [], ◌≡◌,
  none, text_eq, nat_eq, list_eq, inl, inr, refl, ◌∙◌,
}
use proofbid.Errors.{Exception, Result, raised}
use proofbid.Bundle.Proof.{IsProved, ready-IsProved}
use proofbid.Contracts.{Requirement, AnalysisBundle}
use proofbid.Planning.Spec.{TaskSpec}
use proofbid.Planning.Receipt.{PlanningResult}
use proofbid.Runtime.Tool.{
  RuntimeTool, build_analysis, validate_delivery, finalize_complete, finalize_blocked, tool_eq,
  declare_plan, rules, rules, declare_plan,
}
use proofbid.Runtime.State.{
  Arguments, TerminalStatus, ToolCallReceipt, ToolResult, World, TaskRuntime,
}
use proofbid.Runtime.Execute.{execute}
use proofbid.Runtime.Policy.{IsAdmitted, completes, dependencies_satisfied, required_tools}
use proofbid.Runtime.Invoke.{invoke, outcome_status, noted}
use proofbid.Runtime.Keeps.{SameCore, bind-SameCore, freeze-SameCore, begin-SameCore}
use proofbid.Runtime.Effects.{
  Effect, quiet, analysed, validated, delivered, concluded, execute-Effect, status_of, final_other,
  is_final,
}
use proofbid.Runtime.Calls.{Leaves, invoke_cases}
use proofbid.Runtime.Reach.{Reach-IsLogged, Step, call, bind, freeze, Reach, here, next}
use proofbid.Runtime.Delivery.{start, blank}
use proofbid.Runtime.Order.{IsFullRoute, IsFullRoute-IsLogged}
use proofbid.Runtime.Frame.{execute-SameLog}
use proofbid.Runtime.Verdict.{
  IsSound, IsConcluded, IsSound-quiet, IsSound-analysed, IsSound-validated, IsSound-delivered,
  IsSound-concluded, completes_of,
}
use proofbid.Runtime.Log.{contains-completed_tools}

-- To end a run, the delivery must have been validated.
final_delivered :
    (rs : List ToolCallReceipt) (t : RuntimeTool)
    → is_final t ≡ true
    → ((t == declare_plan) || dependencies_satisfied rs t) ≡ true
    → any (completes validate_delivery) rs ≡ true
unfolding dependencies_satisfied required_tools rules
final_delivered rs finalize_complete e h =
    ground (arith, contains-completed_tools rs validate_delivery)
final_delivered rs finalize_blocked e h =
    ground (arith, contains-completed_tools rs validate_delivery)
final_delivered rs _ e h = absurd (ground (arith, e))

ready_of : (c : Bool) → TerminalStatus.completed ≡ status_of c → c ≡ true
ready_of true e = refl
ready_of false e = absurd (ground arith)

module _ (w : World) where
  abbrev pub Sound : TaskRuntime w → Type 0
  Sound s = IsSound s.receipts s.bundle s.domain_report s.delivery_report s.terminal_status

  Sound-same : {s t : TaskRuntime w} → SameCore w s t → Sound s → Sound t
  Sound-same e h =
      rw (e.receipts, e.bundle, e.domain_report, e.delivery_report, e.terminal_status) h

  noted-Sound :
      (s : TaskRuntime w) (tool : RuntimeTool) (x : Result ToolResult) (t : TaskRuntime w)
      (r : ToolCallReceipt)
      → IsAdmitted {w = w} s tool
      → t.receipts ≡ s.receipts
      → r.tool ≡ tool
      → r.status ≡ outcome_status w x
      → Sound s
      → Effect w s tool x t
      → IsSound (t.receipts ++ r ∷ []) t.bundle t.domain_report t.delivery_report t.terminal_status
  noted-Sound s tool x t r a l n o h (quiet q e) =
      let c = completes_of w tool validate_delivery x r n o in
      rw (l, e.bundle, e.domain_report, e.delivery_report, e.terminal_status)
        (IsSound-quiet h r (c ∙ q))
  noted-Sound s tool x t r a l n o h (analysed b k y e) =
      let c = completes_of w tool validate_delivery x r n o in
      let d = completes_of w tool build_analysis x r n o in
      let first = rw k at a.first_time in
      let none_yet : s.terminal_status ≡ none = ground (arith, a.open_task) in
      rw e (IsSound-analysed h r b none_yet first (rw k at c) (rw (k, y) at d))
  noted-Sound s tool x t r a l n o h (validated b k e f) =
      let c = completes_of w tool validate_delivery x r n o in
      rw f (IsSound-validated h r b e (rw k at c))
  noted-Sound s tool x t r a l n o h (delivered v k q f) =
      let c = completes_of w tool validate_delivery x r n o in
      let none_yet : s.terminal_status ≡ none = ground (arith, a.open_task) in
      rw f (IsSound-delivered h r v none_yet (rw k at a.first_time) (rw (rw k at c) q))
  noted-Sound s tool x t r a l n o h (concluded b v d k e f g m) =
      let c = completes_of w tool validate_delivery x r n o in
      rw m (
        IsSound-concluded h r b v d (c ∙ final_other tool k _) e f g
          (final_delivered s.receipts tool k a.in_order))

  Leaves-Sound :
      {s t : TaskRuntime w} {tool : RuntimeTool} {args : Arguments} {r : ToolCallReceipt}
      → Leaves w s t tool args r
      → Sound s
      → Sound t
  Leaves-Sound {s} {t} {tool} {args} {r} l h =
      let after = (execute w tool args s).1 in
      let kept = l.kept in
      rw
        (kept.receipts, kept.bundle, kept.domain_report, kept.delivery_report, kept.terminal_status)
        (unfold noted in
          noted-Sound s tool (execute w tool args s).0 after r l.admitted
            (execute-SameLog w tool args s).receipts l.named l.outcome h
            (execute-Effect w tool args s))

  Step-Sound : {s t : TaskRuntime w} → Sound s → Step w s t → Sound t
  Step-Sound {s} h (call name id a e) = rw e (elim (invoke_cases w name id a s) [
    | inl (x, refused) ↦ rw refused h
    | inr (tool, r, named, l) ↦ Leaves-Sound l h
  ])
  Step-Sound {s} h (bind r e) = rw e (Sound-same (bind-SameCore w r s) h)
  Step-Sound {s} h (freeze e) = rw e (Sound-same (freeze-SameCore w s) h)

  start-Sound :
      (spec : TaskSpec) (planning : PlanningResult) (inject real : Bool)
      → Sound (start w spec planning inject real).1
  unfolding start
  start-Sound spec planning inject real =
      Sound-same (begin-SameCore w planning (blank w spec planning inject real)) (record {
        analysed_once = λ e. absurd (ground arith);
        validation = λ v e. absurd (ground arith);
        delivery_checked = λ e. absurd (ground arith);
        finished = λ e. absurd (ground arith);
        conclusion = λ st e. absurd (ground arith);
      })

  pub Reach-Sound :
      (spec : TaskSpec) (planning : PlanningResult) (inject real : Bool) {t : TaskRuntime w}
      → Reach w (start w spec planning inject real).1 t
      → Sound t
  Reach-Sound spec planning inject real here = start-Sound spec planning inject real
  Reach-Sound spec planning inject real (next r st) =
      Step-Sound (Reach-Sound spec planning inject real r) st

  -- A run that has ended, in whatever way it was driven, has the analysis and the readiness decision
  -- on that analysis and its own validation report; its terminal status is "completed" where that
  -- decision is ready for submission and "blocked" where it is not; and its delivery report has no
  -- fatal finding.
  pub Reach-IsConcluded :
      (spec : TaskSpec) (planning : PlanningResult) (inject real : Bool) {t : TaskRuntime w}
      (st : TerminalStatus)
      → Reach w (start w spec planning inject real).1 t
      → t.terminal_status ≡ some st
      → IsConcluded t.bundle t.delivery_report st
  Reach-IsConcluded spec planning inject real st r e =
      (Reach-Sound spec planning inject real r).conclusion st e

  -- In a run that has ended as "completed", in whatever way it was driven, every mandatory
  -- requirement of its analysis has a compliant match with a known actual value and a hashed source
  -- outside the documents and paths that state the requirement.
  pub completed-IsProved :
      (spec : TaskSpec) (planning : PlanningResult) (inject real : Bool) {t : TaskRuntime w}
      (b : AnalysisBundle) (q : Requirement)
      → Reach w (start w spec planning inject real).1 t
      → t.terminal_status ≡ some TerminalStatus.completed
      → t.bundle ≡ some b
      → Memᴰ q b.requirements
      → q.mandatory ≡ true
      → IsProved b q
  completed-IsProved spec planning inject real b q r e f k y =
      let c = Reach-IsConcluded spec planning inject real TerminalStatus.completed r e in
      let same : c.analysis ≡ b = ground (arith, f, c.stored) in
      ready-IsProved b c.decision q (rw same at c.decided) (ready_of _ c.agrees) k y

  -- In a run that has ended, in whatever way it was driven, the declaration, the scan, the three
  -- loads, the analysis, its validation, a rendering or its retry, and the validation of the delivery
  -- have all completed.
  pub Reach-IsFullRoute :
      (spec : TaskSpec) (planning : PlanningResult) (inject real : Bool) {t : TaskRuntime w}
      (st : TerminalStatus)
      → Reach w (start w spec planning inject real).1 t
      → t.terminal_status ≡ some st
      → IsFullRoute t.receipts
  Reach-IsFullRoute spec planning inject real {t} st r e =
      let last = (Reach-Sound spec planning inject real r).finished (rw e refl) in
      IsFullRoute-IsLogged t.receipts (Reach-IsLogged w spec planning inject real r)
        (rw contains-completed_tools last)

  -- Once a run has ended, every call of a tool by its name is refused, and changes nothing.
  pub ended-invoke :
      (s : TaskRuntime w) (st : TerminalStatus) (name : String) (id : Option String)
      (args : Arguments)
      → s.terminal_status ≡ some st
      → (e : Exception) × (invoke w name id args s ≡ (raised e, s))
  ended-invoke s st name id args h = elim (invoke_cases w name id args s) [
    | inl refused ↦ refused
    | inr (tool, r, named, l) ↦ absurd (ground (arith, l.admitted.open_task))
  ]
