-- ===== src/Shellytest/Config.antt =====
-- The configuration of the fake device of shellytest/server.go: Shelly.GetConfig and *.SetConfig.
pub mod Converge
pub mod Enforce
use shelly_operator.Base.{
  ℕ, suc, Bool, String, Option, none, some, List, [], ◌∷◌, ◌==◌, not, ltb, leb, ◌&&◌, if◌then◌else◌,
}
use shelly_operator.Base.Assoc
use shelly_operator.Base.Assoc.{Assoc}
use shelly_operator.Json.{Value, Fields, obj, end}
use shelly_operator.Shellytest.Merge.{merge}

-- Of Device's fields, those that the configuration handlers read and write.
pub record ConfigDevice (F : Type 0) : Type 0 where
  pub restart_on_set_config : Bool
  pub set_config_error : String
  pub ignore_set_config : Bool
  pub get_config_error_after : ℕ
  pub get_config_calls : ℕ
  pub config : Assoc (Fields F)

-- The answer of an RPC: its result, or the error's code (negated) and message.
pub data Answer (A : Type 0) : Type 0 where
  result : A → Answer A
  rpc_error : ℕ → String → Answer A

abbrev pub or_empty : {F : Type 0} → Option (Fields F) → Fields F
or_empty none = end
or_empty (some fs) = fs

-- The configuration as GetConfig returns it, one JSON object for each component.
abbrev pub snapshot : {F : Type 0} → Assoc (Fields F) → Assoc (Value F)
snapshot [] = []
snapshot ((k, fs) ∷ m) = (k, obj fs) ∷ snapshot m

module _ {F : Type 0} where
  unfoldable pub handle_get_config : ConfigDevice F → Answer (Assoc (Value F)) × ConfigDevice F
  handle_get_config d =
      if ltb 0 d.get_config_error_after && leb d.get_config_error_after d.get_config_calls
      then (rpc_error 108 "config read failed", d)
      else (result (snapshot d.config), record d { get_config_calls = suc d.get_config_calls })

  -- `component` is the method's name without ".SetConfig", in lower case, with the instance id.
  unfoldable pub handle_set_config :
      ConfigDevice F → String → Fields F → Answer Bool × ConfigDevice F
  handle_set_config d component config =
      if not (d.set_config_error == "")
      then (rpc_error 114 d.set_config_error, d)
      else if d.ignore_set_config
      then (result d.restart_on_set_config, d)
      else (
        result d.restart_on_set_config,
        record d {
          config =
              Assoc.put component (merge (or_empty (Assoc.get component d.config)) config) d.config;
        },
      )
