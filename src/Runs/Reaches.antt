-- ===== src/Runs/Reaches.antt =====
-- What calls of the broker can make of a state.
use mess.Base.{List, [], ◌∷◌}
use mess.State.{Broker, Env}
use mess.Runs.{Call, step, run}
use mess.Runs.Helpers.{IsValid}
use mess.Runs.Reachable.{step-IsValid}

-- Some sequence of calls leads from one state to the other, of calls that P holds of.
pub data Reaches (P : Call → Type 0) : Broker → Broker → Type 0 where
  nowhere : {b : Broker} → Reaches P b b
  onward :
      {b c : Broker} (env : Env) (call : Call)
      → P call
      → Reaches P (step env call b) c
      → Reaches P b c

-- P holds of all these calls.
abbrev pub AllCalls : (Call → Type 0) → List (Env × Call) → Type 0
AllCalls P [] = Unit
AllCalls P ((env, call) ∷ calls) = P call × AllCalls P calls

module _ {P : Call → Type 0} where
  pub Reaches-trans : {b c d : Broker} → Reaches P b c → Reaches P c d → Reaches P b d
  Reaches-trans nowhere r = r
  Reaches-trans (onward env call p q) r = onward env call p (Reaches-trans q r)

  pub by_step : (env : Env) (call : Call) → P call → (b : Broker) → Reaches P b (step env call b)
  by_step env call p b = onward env call p nowhere

  pub by_run :
      (calls : List (Env × Call)) → AllCalls P calls → (b : Broker) → Reaches P b (run calls b)
  unfolding run
  by_run [] all b = nowhere
  by_run ((env, call) ∷ calls) (p, all) b = onward env call p (by_run calls all (step env call b))

  pub Reaches-IsValid : {b c : Broker} → Reaches P b c → IsValid b → IsValid c
  Reaches-IsValid nowhere v = v
  Reaches-IsValid {b = b} (onward env call p r) v = Reaches-IsValid r (step-IsValid env call b v)
