-- ===== src/Shelly/Rpc.antt =====
-- Calls on a device: an action takes the state of the world and returns a result or an error beside
-- the new state. What was done before an error stays done.
use shelly_operator.Base.{ℤ, Bool, String, List, Result, ok, err}
use shelly_operator.Json.{Fields}
use shelly_operator.Shelly.Errors.{CallError, wrapped}

abbrev pub Rpc : Type 0 → Type 0 → Type 0
Rpc W A = W → Result CallError A × W

abbrev pub wrap_result : {A : Type 0} → String → Result CallError A → Result CallError A
wrap_result text (ok a) = ok a
wrap_result text (err e) = err (wrapped text e)

module _ {W A : Type 0} where
  abbrev pub pure : A → Rpc W A
  pure a w = (ok a, w)

  abbrev pub fail : CallError → Rpc W A
  fail e w = (err e, w)

  -- fmt.Errorf(text + ": %w", err)
  abbrev pub wrap : String → Rpc W A → Rpc W A
  wrap text m w = let (r, w') = m w in (wrap_result text r, w')

module _ {W A B : Type 0} where
  abbrev pub continue : Result CallError A → (A → Rpc W B) → Rpc W B
  continue (ok a) f w = f a w
  continue (err e) f w = (err e, w)

  infixl 10 ◌>>=◌ ◌>>◌
  abbrev pub ◌>>=◌ : Rpc W A → (A → Rpc W B) → Rpc W B
  ◌>>=◌ m f w = let (r, w') = m w in continue r f w'

  abbrev pub ◌>>◌ : Rpc W A → Rpc W B → Rpc W B
  m >> n = m >>= λ _. n

-- shelly/schedule.go
pub record ScheduleCall (F : Type 0) : Type 0 where
  pub method : String
  pub params : Fields F

pub record ScheduleJob (F : Type 0) : Type 0 where
  pub id : ℤ
  pub enable : Bool
  pub timespec : String
  pub calls : List (ScheduleCall F)

-- The RPC methods of one device, as the client's callers see them. `W` holds the device and
-- whatever else changes.
pub record DeviceRpc (F W : Type 0) : Type 0 where
  -- Schedule.List, Schedule.Create, Schedule.Update, Schedule.Delete
  pub schedule_list : Rpc W (List (ScheduleJob F))
  pub schedule_create : Bool → String → List (ScheduleCall F) → Rpc W ℤ
  pub schedule_update : ScheduleJob F → Rpc W (Unit {0})
  pub schedule_delete : ℤ → Rpc W (Unit {0})
