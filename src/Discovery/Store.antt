-- ===== src/Discovery/Store.antt =====
-- What a sweep of internal/discovery does outside the process: the network and the Kubernetes API, whose
-- writes are logged with the object as the client read it.
use shelly_operator.Base.{ℕ, ℤ, Bool, String, Option, List, ◌∷◌, Result}
use shelly_operator.Api.Device.{ShellyDevice}
use shelly_operator.Api.Server.{ApiError, Act}

-- shelly.DeviceInfo
pub record DeviceInfo : Type 0 where
  pub name : String
  pub mac : String
  pub model : String
  pub gen : ℤ
  pub firmware : String
  pub app : String
  pub auth_enabled : Bool

-- An error of Create: apierrors.IsAlreadyExists, or another.
pub data CreateError : Type 0 where
  already_exists not_created : String → CreateError

-- A write of the API: a new object, an object with other labels, or its status, each as it is sent.
pub data Write : Type 0 where
  created : ShellyDevice → Write
  relabelled : (base dev : ShellyDevice) → Write
  status_written : (base dev : ShellyDevice) → Write

-- The network, the clock, the context and the API server, for one namespace. A write answers with the
-- server's object.
pub record Outside (S : Type 0) : Type 0 where
  pub probe : String → Act S (Result String DeviceInfo)
  -- the order in which the probes end
  pub order : List String → List String
  pub now : Act S ℕ
  pub cancelled : Act S (Option String)
  pub get : String → Act S (Result ApiError ShellyDevice)
  pub list : Act S (Result ApiError (List ShellyDevice))
  pub create : ShellyDevice → Act S (Result CreateError ShellyDevice)
  pub update : ShellyDevice → Act S (Result ApiError ShellyDevice)
  pub status_update : ShellyDevice → Act S (Result ApiError ShellyDevice)

-- strings.ToLower and strconv.Itoa.
pub record Names : Type 0 where
  pub lower : String → String
  pub itoa : ℤ → String

pub record Sweep (S : Type 0) : Type 0 where
  pub outside : S
  pub log : List Write

module _ {S A : Type 0} where
  unfoldable pub ask : Act S A → Act (Sweep S) A
  ask op w = let (a, s) = op w.outside in (a, record w { outside = s })

  unfoldable pub write : Write → Act S A → Act (Sweep S) A
  write e op w = let (a, s) = op w.outside in (a, record w { outside = s; log = e ∷ w.log })
