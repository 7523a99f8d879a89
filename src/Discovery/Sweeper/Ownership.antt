-- ===== src/Discovery/Sweeper/Ownership.antt =====
-- What a sweep writes to the API: its own fields only, and a device as offline only when long unseen.
use shelly_operator.Base.{
  ℕ, ◌+◌, ◌≤◌, Bool, true, false, String, Option, none, some, List, [], ◌∷◌, ◌≡◌, ◌⊎◌, inl, inr,
  refl, not, ◌||◌, ◌++◌, Result, ok, err, All, arith, Bool-cases,
}
use shelly_operator.Base.Assoc.{Assoc}
use shelly_operator.Api.Device.{ShellyDevice, ShellyDeviceSpec, FirmwareUpdateAttempt, Condition}
use shelly_operator.Api.Server.{ApiError, not_found, conflict, other, Act, ◌>>=◌}
use shelly_operator.Discovery.Store.{
  CreateError, already_exists, not_created, Write, created, relabelled, status_written, Outside,
  Names, Sweep, ask, write,
}
use shelly_operator.Discovery.Upsert.{
  Found, has_labels, device_labels, write_status, created_answer, relabelled_answer, apply_found,
  apply_device,
}
use shelly_operator.Discovery.Cidr.{Netip, expand_cidrs}
use shelly_operator.Discovery.Sweeper.{
  Sweeper, second, offline_after_of, probe_all, seen_after, mark_device, mark_all, mark_listed,
  mark_stale, apply_all, record_found, run_targets, run_once,
}

-- What belongs to the users and to the reconciler.
abbrev pub others :
    ShellyDevice
    → String
      × Assoc String
      × ShellyDeviceSpec
      × String
      × Bool
      × Option FirmwareUpdateAttempt
      × String
      × List String
      × Option Condition
others dev =
    let st = dev.status in
    (
      dev.name, dev.annotations, dev.spec, st.available_firmware, st.restart_required,
      st.last_firmware_update, st.matched_profile, st.drifted_sections, st.in_sync,
    )

-- Last seen at least so long before now.
abbrev pub LongUnseen : ℕ → ℕ → Option ℕ → Type 0
LongUnseen now after none = ⊥
LongUnseen now after (some seen) = seen + after ≤ now

-- The device is as seen now, or it is online no more after it was not seen for long.
abbrev pub Observed : ℕ → ℕ → (base dev : ShellyDevice) → Type 0
Observed now after base dev =
    ((dev.status.online ≡ true) × (dev.status.last_seen ≡ some now))
    ⊎ ((dev.status.online ≡ false)
        × (dev.status.last_seen ≡ base.status.last_seen)
        × LongUnseen now after base.status.last_seen)

abbrev pub Owned : ℕ → ℕ → Write → Type 0
Owned now after (created dev) =
    (dev.spec ≡ record { paused = false; display_name = ""; profile_ref = "" })
    × (dev.annotations ≡ [])
Owned now after (relabelled base dev) = (others base ≡ others dev) × (base.status ≡ dev.status)
Owned now after (status_written base dev) =
    (others base ≡ others dev) × (base.labels ≡ dev.labels) × Observed now after base dev

module _ {S : Type 0} (P : Write → Type 0) where
  abbrev Keeps : {A : Type 0} → Act (Sweep S) A → Type 0
  Keeps m = (w : Sweep S) → All P w.log → All P (m w).1.log

module _ {S : Type 0} (P : Write → Type 0) where
  Keeps-bind :
      {A B : Type 0} (m : Act (Sweep S) A) (f : A → Act (Sweep S) B)
      → Keeps P m
      → ((a : A) → Keeps P (f a))
      → Keeps P (m >>= f)
  unfolding ◌>>=◌
  Keeps-bind m f h k w l = k (m w).0 (m w).1 (h w l)

  Keeps-ask : {A : Type 0} (op : Act S A) → Keeps P (ask op)
  unfolding ask
  Keeps-ask op w l = l

  Keeps-write : {A : Type 0} (e : Write) (op : Act S A) → P e → Keeps P (write e op)
  unfolding write
  Keeps-write e op p w l = (p, l)

stale_unseen :
    (now after : ℕ) (online : Bool) (seen : Option ℕ)
    → not online || seen_after now after seen ≡ false
    → LongUnseen now after seen
stale_unseen now after true none h = absurd (cc h)
stale_unseen now after false none h = absurd (cc h)
stale_unseen now after online (some seen) h = ground (arith, h)

module _ {S : Type 0} ⦃names : Names⦄ (out : Outside S) (now after : ℕ) where
  abbrev Owns : Write → Type 0
  Owns = Owned now after

  abbrev Keeping : {A : Type 0} → Act (Sweep S) A → Type 0
  Keeping m = Keeps Owns m

  module _ (f : Found) where
    write_status-Keeps :
        (name : String) (dev : ShellyDevice) → Keeping (write_status out now f name dev)
    unfolding write_status
    write_status-Keeps name dev =
        Keeps-bind Owns (write _ (out.status_update _)) _
          (Keeps-write Owns _ (out.status_update _) (refl, refl, inl (refl, refl))) (λ a w l. l)

    created_answer-Keeps :
        (name : String) (r : Result CreateError ShellyDevice)
        → Keeping (created_answer out now f name r)
    unfolding created_answer
    created_answer-Keeps name (ok dev) = write_status-Keeps name dev
    created_answer-Keeps name (err (already_exists text)) = λ w l. l
    created_answer-Keeps name (err (not_created text)) = λ w l. l

    relabelled_answer-Keeps :
        (name : String) (r : Result ApiError ShellyDevice)
        → Keeping (relabelled_answer out now f name r)
    unfolding relabelled_answer
    relabelled_answer-Keeps name (ok dev) = write_status-Keeps name dev
    relabelled_answer-Keeps name (err e) = λ w l. l

    apply_found-Keeps :
        (name : String) (r : Result ApiError ShellyDevice) → Keeping (apply_found out now f name r)
    unfolding apply_found
    apply_found-Keeps name (err (not_found text)) =
        Keeps-bind Owns (write _ (out.create _)) _ (Keeps-write Owns _ (out.create _) (refl, refl))
          (created_answer-Keeps name)
    apply_found-Keeps name (err (conflict text)) = λ w l. l
    apply_found-Keeps name (err (other text)) = λ w l. l
    apply_found-Keeps name (ok dev) = λ w l.
        elim (Bool-cases (has_labels dev.labels (device_labels f.info))) [
          | inl e ↦ rw e (write_status-Keeps name dev w l)
          | inr e ↦ rw e (
              Keeps-bind Owns (write _ (out.update _)) _
                (Keeps-write Owns _ (out.update _) (refl, refl)) (relabelled_answer-Keeps name) w l)
        ]

    apply_device-Keeps : Keeping (apply_device out now f)
    unfolding apply_device
    apply_device-Keeps =
        Keeps-bind Owns (ask (out.get _)) _ (Keeps-ask Owns (out.get _)) (apply_found-Keeps _)

  module _ ⦃netip : Netip⦄ where
    apply_all-Keeps : (found : List Found) → Keeping (apply_all out now found)
    unfolding apply_all
    apply_all-Keeps [] = λ w l. l
    apply_all-Keeps (f ∷ found) =
        Keeps-bind Owns (apply_device out now f) _ (apply_device-Keeps f)
          (λ e. Keeps-bind Owns (apply_all out now found) _ (apply_all-Keeps found) (λ errs w l. l))

    mark_device-Keeps : (dev : ShellyDevice) → Keeping (mark_device out now after dev)
    unfolding mark_device
    mark_device-Keeps dev w l =
        elim (Bool-cases (not dev.status.online || seen_after now after dev.status.last_seen)) [
          | inl e ↦ rw e l
          | inr e ↦ rw e (
              Keeps-bind Owns (write _ (out.status_update _)) _
                (Keeps-write Owns _ (out.status_update _) (
                  refl,
                  refl,
                  inr (refl, refl, stale_unseen now after dev.status.online dev.status.last_seen e),
                ))
                (λ a. λ w l. l) w l)
        ]

    mark_all-Keeps : (devs : List ShellyDevice) → Keeping (mark_all out now after devs)
    unfolding mark_all
    mark_all-Keeps [] = λ w l. l
    mark_all-Keeps (dev ∷ devs) =
        Keeps-bind Owns (mark_device out now after dev) _ (mark_device-Keeps dev) (λ e.
          Keeps-bind Owns (mark_all out now after devs) _ (mark_all-Keeps devs) (λ errs w l. l))

    mark_listed-Keeps :
        (r : Result ApiError (List ShellyDevice)) → Keeping (mark_listed out now after r)
    unfolding mark_listed
    mark_listed-Keeps (err e) = λ w l. l
    mark_listed-Keeps (ok devs) = mark_all-Keeps devs

    mark_stale-Keeps : Keeping (mark_stale out now after)
    unfolding mark_stale
    mark_stale-Keeps = Keeps-bind Owns (ask out.list) _ (Keeps-ask Owns out.list) mark_listed-Keeps

module _ {S : Type 0} ⦃names : Names⦄ ⦃netip : Netip⦄ (out : Outside S) (P : Write → Type 0) where
  probe_all-Keeps : (targets : List String) → Keeps P (probe_all out targets)
  unfolding probe_all
  probe_all-Keeps [] = λ w l. l
  probe_all-Keeps (target ∷ targets) =
      Keeps-bind P (ask (out.probe target)) _ (Keeps-ask P (out.probe target))
        (λ a. Keeps-bind P (probe_all out targets) _ (probe_all-Keeps targets) (λ found w l. l))

module _ {S : Type 0} ⦃names : Names⦄ ⦃netip : Netip⦄ (out : Outside S) (s : Sweeper) where
  record_found-Keeps :
      (now : ℕ) (found : List Found) (cancelled : Option String)
      → Keeps (Owned now (offline_after_of s)) (record_found out s now found cancelled)
  unfolding record_found
  record_found-Keeps now found (some text) = λ w l. l
  record_found-Keeps now found none =
      let Owns = Owned now (offline_after_of s) in
      Keeps-bind Owns (apply_all out now found) _
        (apply_all-Keeps out now (offline_after_of s) found)
        (λ errs.
          Keeps-bind Owns (mark_stale out now (offline_after_of s)) _
            (mark_stale-Keeps out now (offline_after_of s)) (λ stale w l. l))

  probed-Keeps :
      (now : ℕ) (targets : List String)
      → Keeps (Owned now (offline_after_of s)) (
          probe_all out targets >>= λ found.
          ask out.cancelled >>= λ cancelled. record_found out s now found cancelled)
  probed-Keeps now targets =
      let Owns = Owned now (offline_after_of s) in
      Keeps-bind Owns (probe_all out targets)
        (λ found. ask out.cancelled >>= λ cancelled. record_found out s now found cancelled)
        (probe_all-Keeps out Owns targets)
        (λ found.
          Keeps-bind Owns (ask out.cancelled) (λ cancelled. record_found out s now found cancelled)
            (Keeps-ask Owns out.cancelled) (record_found-Keeps now found))

  -- The writes of a run on a world without any.
  abbrev pub Writes : S → (Write → Type 0) → Act (Sweep S) (List String) → Type 0
  Writes outside P m = All P (m (record { outside = outside; log = [] })).1.log

  run_targets-Owned :
      (r : Option (Result String (List String))) (outside : S)
      → Writes outside (Owned (out.now outside).0 (offline_after_of s)) (run_targets out s r)
  unfolding run_targets ◌>>=◌ ask
  run_targets-Owned none outside = tt
  run_targets-Owned (some (err text)) outside = tt
  run_targets-Owned (some (ok hosts)) outside =
      probed-Keeps (out.now outside).0 (out.order (hosts ++ s.extra_hosts))
        (record { outside = (out.now outside).1; log = [] }) tt

  offline_after-bound : second ≤ offline_after_of s
  unfolding offline_after_of
  offline_after-bound = ground arith

  -- All that a sweep writes to the API: new objects without a spec, labels of an object whose other fields
  -- stay, and statuses that keep the spec, the labels, the annotations and the reconciler's fields. Each
  -- status says either that the device is online and was seen at the start of this sweep, or that it is
  -- offline and as last seen, at least the offline time before the start; this time is one second or more.
  pub run_once-Owned :
      (outside : S)
      → (second ≤ offline_after_of s)
        × Writes outside (Owned (out.now outside).0 (offline_after_of s)) (run_once out s)
  unfolding run_once
  run_once-Owned outside = (offline_after-bound, run_targets-Owned (expand_cidrs s.cidrs) outside)
