-- ===== src/Runtime/Reach.antt =====
-- The states of a run: any calls, bindings of a provider's receipt and freezes, in any order.
use proofbid.Runtime.Policy.{completed_tools}
use proofbid.Prelude.{Bool, Option, String, [], arith, refl, ◌≡◌, text_eq}
use proofbid.Planning.Spec.{TaskSpec}
use proofbid.Planning.Receipt.{ProviderReceipt, PlanningResult}
use proofbid.Runtime.State.{Arguments, World, TaskRuntime}
use proofbid.Runtime.Invoke.{invoke}
use proofbid.Runtime.Delivery.{start, bind_real_provider_receipt, freeze_delivery, blank}
use proofbid.Runtime.Keeps.{bind-SameCore, freeze-SameCore, begin-SameCore}
use proofbid.Runtime.Log.{IsLogged, invoke-IsLogged}

module _ (w : World) where
  -- An exception ends its own step only.
  pub data Step (s t : TaskRuntime w) : Type 0 where
    call :
        (name : String) (id : Option String) (a : Arguments)
        → t ≡ (invoke w name id a s).1
        → Step s t
    bind : (receipt : ProviderReceipt) → t ≡ (bind_real_provider_receipt w receipt s).1 → Step s t
    freeze : t ≡ (freeze_delivery w s).1 → Step s t

  pub data Reach (s : TaskRuntime w) : TaskRuntime w → Type 0 where
    here : Reach s s
    next : {t u : TaskRuntime w} → Reach s t → Step t u → Reach s u

  IsLogged-nil : IsLogged []
  unfolding completed_tools
  IsLogged-nil = record { numbered = tt; bounded = omega arith; once = refl; ordered = tt }

  Step-IsLogged : {s t : TaskRuntime w} → IsLogged s.receipts → Step s t → IsLogged t.receipts
  Step-IsLogged {s} h (call name id a e) = rw e (invoke-IsLogged w name id a s h)
  Step-IsLogged {s} h (bind r e) = rw (e, (bind-SameCore w r s).receipts) h
  Step-IsLogged {s} h (freeze e) = rw (e, (freeze-SameCore w s).receipts) h

  -- From the start of a run on, whatever the calls: the receipts are numbered from 1 on, there are at
  -- most 14 of them, no tool has completed twice, and every tool but the declaration had its
  -- dependencies among the receipts before its own.
  pub Reach-IsLogged :
      (spec : TaskSpec) (planning : PlanningResult) (inject real : Bool) {t : TaskRuntime w}
      → Reach (start w spec planning inject real).1 t
      → IsLogged t.receipts
  unfolding start
  Reach-IsLogged spec planning inject real here =
      rw (begin-SameCore w planning (blank w spec planning inject real)).receipts IsLogged-nil
  Reach-IsLogged spec planning inject real (next r st) =
      Step-IsLogged (Reach-IsLogged spec planning inject real r) st
