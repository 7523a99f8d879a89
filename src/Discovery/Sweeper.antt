-- ===== src/Discovery/Sweeper.antt =====
-- internal/discovery/sweeper.go, with markStale of stale.go and probeAll of probe.go: one sweep.
pub mod Ownership
use Prim.Native.String.{◌++◌ as str_append}
use shelly_operator.Base.{
  ℕ, zero, suc, ◌+◌, ◌*◌, ◌^◌, ℤ, pos, negsuc, Bool, true, false, String, Option, none, some, List,
  [], ◌∷◌, ◌++◌, ◌==◌, ◌||◌, not, ltb, Result, ok, err, if◌then◌else◌,
}
use shelly_operator.Api.Device.{ShellyDevice}
use shelly_operator.Api.Server.{
  ApiError, not_found, conflict, other, api_error_text, Act, done, ◌>>=◌, ◌>>◌,
}
use shelly_operator.Discovery.Store.{DeviceInfo, status_written, Outside, Names, Sweep, ask, write}
use shelly_operator.Discovery.Upsert.{Found, apply_device, discovery_error}
use shelly_operator.Discovery.Cidr.{Netip, expand_cidrs}

-- The Sweeper's settings; a time is in nanoseconds, and three intervals fit into 64 bits.
pub record Sweeper : Type 0 where
  pub cidrs : List String
  pub extra_hosts : List String
  pub interval : ℤ
  pub offline_after : ℤ

abbrev pub second : ℕ
second = 10 ^ 9

-- A duration that is not positive is replaced.
abbrev pub positive_or : ℕ → ℤ → ℕ
positive_or default (pos zero) = default
positive_or default (pos (suc n)) = suc n
positive_or default (negsuc n) = default

unfoldable pub interval_of : Sweeper → ℕ
interval_of s = positive_or (300 * second) s.interval

unfoldable pub offline_after_of : Sweeper → ℕ
unfolding interval_of
offline_after_of s =
    let chosen = positive_or (3 * interval_of s) s.offline_after in
    if ltb chosen second then second else chosen

abbrev pub below_two : ℤ → Bool
below_two (pos n) = ltb n 2
below_two (negsuc n) = true

-- info.MAC == "" || info.Gen < 2
abbrev pub is_unsupported : DeviceInfo → Bool
is_unsupported info = info.mac == "" || below_two info.gen

abbrev pub with_found : String → Result String DeviceInfo → List Found → List Found
with_found target (err text) found = found
with_found target (ok info) found =
    if is_unsupported info then found else record { host = target; info = info } ∷ found

abbrev pub joined_errors : Option String → List String → List String
joined_errors none errs = errs
joined_errors (some e) errs = e ∷ errs

unfoldable pub stale_answer : String → Result ApiError ShellyDevice → Option String
stale_answer name (ok server) = none
stale_answer name (err (conflict text)) = none
stale_answer name (err (not_found text)) =
    some (str_append "discovery: mark " (str_append name (str_append " offline: " text)))
stale_answer name (err (other text)) =
    some (str_append "discovery: mark " (str_append name (str_append " offline: " text)))

abbrev pub offline : ShellyDevice → ShellyDevice
offline dev = record dev { status = record dev.status { online = false } }

-- Status().LastSeen is after the cutoff, which is so long before now, or there is none.
abbrev pub seen_after : ℕ → ℕ → Option ℕ → Bool
seen_after now offline_after none = true
seen_after now offline_after (some seen) = ltb now (seen + offline_after)

module _ {S : Type 0} ⦃names : Names⦄ ⦃netip : Netip⦄ (out : Outside S) where
  -- The probes one after the other, in the order in which they end; the lock makes each append one step.
  unfoldable pub probe_all : List String → Act (Sweep S) (List Found)
  probe_all [] = done []
  probe_all (target ∷ targets) = do
    answer ← ask (out.probe target)
    found ← probe_all targets
    done (with_found target answer found)

  unfoldable pub mark_device : ℕ → ℕ → ShellyDevice → Act (Sweep S) (Option String)
  mark_device now offline_after dev =
      if not dev.status.online || seen_after now offline_after dev.status.last_seen
      then done none
      else (do
        answer ← write (status_written dev (offline dev)) (out.status_update (offline dev))
        done (stale_answer dev.name answer))

  unfoldable pub mark_all : ℕ → ℕ → List ShellyDevice → Act (Sweep S) (List String)
  mark_all now offline_after [] = done []
  mark_all now offline_after (dev ∷ devs) = do
    e ← mark_device now offline_after dev
    errs ← mark_all now offline_after devs
    done (joined_errors e errs)

  unfoldable pub mark_listed :
      ℕ → ℕ → Result ApiError (List ShellyDevice) → Act (Sweep S) (List String)
  mark_listed now offline_after (err e) =
      done (str_append "discovery: list devices: " (api_error_text e) ∷ [])
  mark_listed now offline_after (ok devs) = mark_all now offline_after devs

  unfoldable pub mark_stale : ℕ → ℕ → Act (Sweep S) (List String)
  mark_stale now offline_after = do devs ← ask out.list; mark_listed now offline_after devs

  unfoldable pub apply_all : ℕ → List Found → Act (Sweep S) (List String)
  apply_all now [] = done []
  apply_all now (f ∷ found) = do
    e ← apply_device out now f
    errs ← apply_all now found
    done (joined_errors e errs)

  unfoldable pub record_found :
      Sweeper → ℕ → List Found → Option String → Act (Sweep S) (List String)
  record_found s now found (some text) = done (text ∷ [])
  record_found s now found none = do
    errs ← apply_all now found
    stale ← mark_stale now (offline_after_of s)
    done (errs ++ stale)

  -- A sweep of the targets; the result is the joined errors. After a cancelled context what was found is
  -- not used, so that the probes that it cuts off do not matter. No targets stand for no more fuel.
  unfoldable pub run_targets :
      Sweeper → Option (Result String (List String)) → Act (Sweep S) (List String)
  run_targets s none = done []
  run_targets s (some (err text)) = done (text ∷ [])
  run_targets s (some (ok hosts)) = do
    now ← ask out.now
    found ← probe_all (out.order (hosts ++ s.extra_hosts))
    cancelled ← ask out.cancelled
    record_found s now found cancelled

  unfoldable pub run_once : Sweeper → Act (Sweep S) (List String)
  run_once s = run_targets s (expand_cidrs s.cidrs)
