-- ===== src/Delivery/Tracked.antt =====
-- The planning events that a traced receipt has.
use proofbid.Prelude.{
  Bool, List, [], arith, bool_eq, eqb→eq, length, list_eq, nat_eq, refl, select, some, text_eq,
  true, ◌∷◌, ◌≡◌,
}
use proofbid.Planning.Receipt.{PlanningResult}
use proofbid.Loading.{Json}
use proofbid.Json.{is_string, member}
use proofbid.Delivery.Traced.{
  completed_details, holds, is_completed_event, is_mapping, is_receipt_traced, is_scalar,
  is_started_event, started_details, the_only,
}
use proofbid.Delivery.Modes.{is_planning_event}
use proofbid.Delivery.Declared.{is_string-some}
use proofbid.Delivery.{scalar}
use proofbid.Contracts.{number, text}

-- A trace with exactly two planning events, both of the receipt's provider: one that starts with the
-- digest of the task, and one that completes with what the receipt says.
pub record IsTraced (result : PlanningResult) (events : List Json) : Type 0 where
  pub started : Json
  pub completed : Json
  pub two : length (select is_planning_event events) ≡ 2
  pub only_started :
      select (λ e. is_string "started" (member "status" e)) (select is_planning_event events)
      ≡ started ∷ []
  pub only_completed :
      select (λ e. is_string "completed" (member "status" e)) (select is_planning_event events)
      ≡ completed ∷ []
  pub started_by : member "actor" started ≡ some (scalar (text result.receipt.provider))
  pub started_with : is_mapping (started_details result) (member "details" started) ≡ true
  pub completed_by : member "actor" completed ≡ some (scalar (text result.receipt.provider))
  pub completed_with :
      is_mapping (completed_details result.receipt) (member "details" completed) ≡ true
  pub lasted :
      is_scalar (number result.receipt.duration_ms "") (member "duration_ms" completed) ≡ true

holds-only :
    (test : Json → Bool) (xs : List Json)
    → holds test (the_only xs) ≡ true
    → (x : Json) × (xs ≡ x ∷ []) × (test x ≡ true)
holds-only test [] h = absurd (ground arith)
holds-only test (x ∷ []) h = (x, refl, h)
holds-only test (x ∷ y ∷ xs) h = absurd (ground arith)

pub is_receipt_traced-IsTraced :
    (result : PlanningResult) (events : List Json)
    → is_receipt_traced result events ≡ true
    → IsTraced result events
unfolding is_receipt_traced is_started_event is_completed_event
is_receipt_traced-IsTraced result events h =
    let planning = select is_planning_event events in
    let provider = result.receipt.provider in
    let two = eqb→eq (length planning) 2 (ground arith) in
    let (s, only_started, first) =
      holds-only (is_started_event result)
        (select (λ e. is_string "started" (member "status" e)) planning) (ground arith) in
    let (c, only_completed, last) =
      holds-only (is_completed_event result)
        (select (λ e. is_string "completed" (member "status" e)) planning) (ground arith) in
    record {
      started = s;
      completed = c;
      two = two;
      only_started = only_started;
      only_completed = only_completed;
      started_by = is_string-some provider (member "actor" s) (ground arith);
      started_with = ground arith;
      completed_by = is_string-some provider (member "actor" c) (ground arith);
      completed_with = ground arith;
      lasted = ground arith;
    }
