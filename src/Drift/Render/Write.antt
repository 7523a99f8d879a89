-- ===== src/Drift/Render/Write.antt =====
-- Writing declared values into the maps that Render builds.
pub mod Laws
use shelly_operator.Base.{String, Option, none, some, List}
use shelly_operator.Base.Assoc
use shelly_operator.Base.Assoc.{Assoc}
use shelly_operator.Json.{Value, Fields, obj, end, field, put}

-- A nil section or pointer gives nil.
abbrev pub and_then {ℓ κ} : {A : Type ℓ} {B : Type κ} → (A → Option B) → Option A → Option B
and_then f none = none
and_then f (some a) = f a

module _ {F : Type 0} where
  -- if p != nil { m[k] = f(*p) }
  unfoldable pub put_some : {A : Type 0} → String → (A → Value F) → Option A → Fields F → Fields F
  put_some k f none m = m
  put_some k f (some a) m = put k (f a) m

  -- if len(fs) > 0 { m[k] = fs }
  unfoldable pub put_object : String → Fields F → Fields F → Fields F
  put_object k end m = m
  put_object k (field j v fs) m = put k (obj (field j v fs)) m

  -- if len(fs) > 0 { out[k] = fs }, on the map of the components
  unfoldable pub put_map : String → Fields F → Assoc (Fields F) → Assoc (Fields F)
  put_map k end out = out
  put_map k (field j v fs) out = Assoc.put k (field j v fs) out

  -- if len(m) == 0 { return nil }
  unfoldable pub none_if_empty : Fields F → Option (Fields F)
  none_if_empty end = none
  none_if_empty (field j v fs) = some (field j v fs)
