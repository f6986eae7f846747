-- ===== src/Runtime/Log.antt =====
-- What holds of the receipts of a run, whatever calls were made.
use proofbid.Prelude.{
  Bool-cases, List, Option, String, [], any, append-nil, append_assoc, arith, contains,
  contains-append, if◌then◌else◌, inl, inr, is_unique, length, length-append, not, refl, true, ℕ,
  ◌&&◌, ◌++◌, ◌+◌, ◌==◌, ◌||◌, ◌∷◌, ◌≡◌, ◌≤◌, text_eq, nat_eq, list_eq,
}
use mathlib.Core.Bool.{and-true, and-false}
use proofbid.Runtime.Tool.{RuntimeTool, declare_plan, tool_eq}
use proofbid.Runtime.State.{Arguments, ToolCallReceipt, World, TaskRuntime}
use proofbid.Runtime.Policy.{
  is_completed, completes, completed_tools, dependencies_satisfied, max_tool_calls,
}
use proofbid.Runtime.Calls.{Leaves, invoke_cases}
use proofbid.Runtime.Invoke.{invoke}

-- The sequence numbers count on from `n`.
abbrev pub Numbered : ℕ → List ToolCallReceipt → Type 0
Numbered n [] = Unit
Numbered n (r ∷ rs) = (r.sequence ≡ n + 1) × Numbered (n + 1) rs

-- The tool of each receipt was the declaration, or had its dependencies among the earlier receipts.
abbrev pub InOrder : List ToolCallReceipt → List ToolCallReceipt → Type 0
InOrder before [] = Unit
InOrder before (r ∷ rs) =
    (((r.tool == declare_plan) || dependencies_satisfied before r.tool) ≡ true)
    × InOrder (before ++ r ∷ []) rs

pub record IsLogged (receipts : List ToolCallReceipt) : Type 0 where
  pub numbered : Numbered 0 receipts
  pub bounded : length receipts ≤ max_tool_calls
  pub once : is_unique (completed_tools receipts) ≡ true
  pub ordered : InOrder [] receipts

Numbered-append :
    (n : ℕ) (rs : List ToolCallReceipt) (r : ToolCallReceipt)
    → Numbered n rs
    → r.sequence ≡ n + length rs + 1
    → Numbered n (rs ++ r ∷ [])
Numbered-append n [] r h e = (omega arith, tt)
Numbered-append n (q ∷ qs) r h e = (h.0, Numbered-append (n + 1) qs r h.1 (omega arith))

InOrder-append :
    (before rs : List ToolCallReceipt) (r : ToolCallReceipt)
    → InOrder before rs
    → ((r.tool == declare_plan) || dependencies_satisfied (before ++ rs) r.tool) ≡ true
    → InOrder before (rs ++ r ∷ [])
InOrder-append before [] r h e = (rw append-nil at e, tt)
InOrder-append before (q ∷ qs) r h e =
    (h.0, InOrder-append (before ++ q ∷ []) qs r h.1 (rw append_assoc e))

is_unique-snoc :
    (ts : List RuntimeTool) (t : RuntimeTool)
    → is_unique (ts ++ t ∷ []) ≡ (is_unique ts && not (contains ts t))
is_unique-snoc [] t = refl
is_unique-snoc (u ∷ us) t = ground (
  arith,
  is_unique-snoc us t,
  contains-append us (t ∷ []) u,
  tool_eq.eqb_iff u t,
  tool_eq.eqb_iff t u,
)

completed_tools-snoc :
    (rs : List ToolCallReceipt) (r : ToolCallReceipt)
    → completed_tools (rs ++ r ∷ [])
      ≡ completed_tools rs ++ (if is_completed r.status then r.tool ∷ [] else [])
unfolding completed_tools
completed_tools-snoc [] r = ground arith
completed_tools-snoc (q ∷ qs) r = ground (arith, completed_tools-snoc qs r)

pub contains-completed_tools :
    (rs : List ToolCallReceipt) (t : RuntimeTool)
    → contains (completed_tools rs) t ≡ any (completes t) rs
unfolding completed_tools completes
contains-completed_tools [] t = refl
contains-completed_tools (r ∷ rs) t = elim (Bool-cases (is_completed r.status)) [
  | inl e ↦ simp (e, contains-completed_tools rs t, and-true)
  | inr e ↦ simp (e, contains-completed_tools rs t, and-false)
]

module _ (w : World) where
  IsLogged-Leaves :
      {s t : TaskRuntime w} {tool : RuntimeTool} {a : Arguments} {r : ToolCallReceipt}
      → Leaves w s t tool a r
      → IsLogged s.receipts
      → IsLogged t.receipts
  IsLogged-Leaves {s} {tool = tool} {r = r} l h = rw l.logged (record {
    numbered = Numbered-append 0 s.receipts r h.numbered (omega (arith, l.numbered));
    bounded = ground (arith, length-append s.receipts (r ∷ []), l.admitted.in_budget);
    once = rw (completed_tools-snoc s.receipts r) (
        ground (
          arith,
          append-nil (completed_tools s.receipts),
          is_unique-snoc (completed_tools s.receipts) r.tool,
          contains-completed_tools s.receipts r.tool,
          l.admitted.first_time,
          l.named,
          h.once,
        ));
    ordered = InOrder-append [] s.receipts r h.ordered (rw l.named l.admitted.in_order);
  })

  pub invoke-IsLogged :
      (name : String) (id : Option String) (a : Arguments) (s : TaskRuntime w)
      → IsLogged s.receipts
      → IsLogged (invoke w name id a s).1.receipts
  invoke-IsLogged name id a s h = elim (invoke_cases w name id a s) [
    | inl (e, refused) ↦ rw refused h
    | inr (tool, r, named, l) ↦ IsLogged-Leaves l h
  ]
