-- ===== src/Controller/Reconcile/Safety.antt =====
-- Reconcile seen through its log.
use mathlib.Core.Path.{subst}
use shelly_operator.Base.{
  ℕ, Bool, true, false, String, Option, none, some, List, [], ◌∷◌, ◌++◌, ◌≡◌, ◌⊎◌, inl, inr, refl,
  sym, ap, ◌∙◌, not, ◌==◌, eq_iff, ok, Memᴰ, All, All-append, All-mem, Bool-cases, some_inj,
}
use shelly_operator.Json.{Floats}
use shelly_operator.Api.Profile.{ShellyProfile, is_enforce}
use shelly_operator.Api.Device.{ShellyDevice, Condition}
use shelly_operator.Api.Server.{◌>>=◌}
use shelly_operator.Fleet.Registry.{Decoding}
use shelly_operator.Drift.Match.{Selectors, match_profile}
use shelly_operator.Drift.Match.Laws.{match_profile-best}
use shelly_operator.Drift.Match.Pinned.{match_profile-pinned}
use shelly_operator.Shelly.Methods.{Texts}
use shelly_operator.Controller.Schedule.{Codec}
use shelly_operator.Controller.Window.{Zones}
use shelly_operator.Controller.Update.{update_in_flight}
use shelly_operator.Controller.World.{
  Effect, probed, called, status_patched, object_patched, event_recorded, World, Env, ask,
}
use shelly_operator.Controller.World.Logs.{LogLaw, Adds, Adds-when}
use shelly_operator.Controller.World.Policy.{
  Policy, Notes, discovered, IsAttempt, update_method, last-not_update,
}
use shelly_operator.Drift.Diff.{Finding}
use shelly_operator.Controller.Reconcile.Status.{finish}
use shelly_operator.Controller.Reconcile.Status.Logs.{finish-Logs}
use shelly_operator.Controller.Reconcile.Stamp.{LabelRules}
use shelly_operator.Controller.Reconcile.Findings.{Format, Settings}
use shelly_operator.Controller.Reconcile.Run.{with_device, unless_in_flight, reconcile}
use shelly_operator.Controller.Reconcile.Run.Logs.{Leave, ListedLeave, reconcile-Logs}

match_profile-mem :
    {F Sel : Type 0} ⦃s : Selectors Sel⦄ (dev : ShellyDevice) (ps : List (ShellyProfile F Sel))
    (p : ShellyProfile F Sel)
    → (match_profile dev ps).0 ≡ some p
    → Memᴰ p ps
match_profile-mem dev ps p h = elim (Bool-cases (dev.spec.profile_ref == "")) [
  | inl e ↦ (match_profile-best dev ps p ((eq_iff _ _).0 e) h).0
  | inr e ↦ elim (match_profile-pinned dev ps (λ k. cc ((eq_iff dev.spec.profile_ref "").1 k))) [
    | inl (q, m, there, name) ↦
        let same : q ≡ p = some_inj (sym (ap (λ r. r.0) m) ∙ h) in subst (λ x. Memᴰ x ps) same there
    | inr (m, none_there) ↦ cc (ap (λ r. r.0) m)
  ]
]

All-LogLaw : (P : Effect → Type 0) → LogLaw (All P)
All-LogLaw P = record { none_done = tt; joined = All-append P }

-- A call that reads.
abbrev pub IsReading : String → Type 0
IsReading method =
    (method ≡ "Shelly.GetConfig") ⊎ ((method ≡ "Sys.GetStatus") ⊎ (method ≡ "Schedule.List"))

-- Nothing is written to a device.
abbrev pub IsPassive : Effect → Type 0
IsPassive (called c method) = IsReading method
IsPassive (probed host) = ⊥
IsPassive (status_patched base dev b) = Unit
IsPassive (object_patched base dev b) = Unit
IsPassive (event_recorded warning reason) = Unit

passive : Policy (All IsPassive) ⊥
passive = record {
  law = All-LogLaw IsPassive;
  config_read = λ c. (inl refl, tt);
  status_read = λ c. (inr (inl refl), tt);
  jobs_read = λ c. (inr (inr refl), tt);
  event = λ warning reason. (tt, tt);
  object = λ base dev b. (tt, tt);
  status = λ base dev b h. (tt, tt);
  probe = λ may host. absurd may;
  write = λ may c method h. absurd may;
  update = λ may c base dev h a. absurd may;
}

-- A patch that leaves the fields of discovery alone.
abbrev pub IsModest : Effect → Type 0
IsModest (called c method) = Unit
IsModest (probed host) = Unit
IsModest (status_patched base dev b) = discovered base ≡ discovered dev
IsModest (object_patched base dev b) = Unit
IsModest (event_recorded warning reason) = Unit

modest : Policy (All IsModest) Unit
modest = record {
  law = All-LogLaw IsModest;
  config_read = λ c. (tt, tt);
  status_read = λ c. (tt, tt);
  jobs_read = λ c. (tt, tt);
  event = λ warning reason. (tt, tt);
  object = λ base dev b. (tt, tt);
  status = λ base dev b h. (h, tt);
  probe = λ may host. (tt, tt);
  write = λ may c method h. (tt, tt);
  update = λ may c base dev h a. (tt, (h, tt));
}

-- The newest effect is a status patch that succeeded, of a device with an unanswered attempt.
abbrev pub Persisted : List Effect → Type 0
Persisted [] = ⊥
Persisted (status_patched base dev true ∷ rest) = IsAttempt dev
Persisted (_ ∷ rest) = ⊥

-- Each request to update came right after such a patch.
abbrev pub Prepared : List Effect → Type 0
Prepared [] = Unit
Prepared (called c method ∷ rest) = (method ≡ update_method → Persisted rest) × Prepared rest
Prepared (_ ∷ rest) = Prepared rest

Persisted-append : (xs ys : List Effect) → Persisted xs → Persisted (xs ++ ys)
Persisted-append [] ys h = absurd h
Persisted-append (status_patched base dev true ∷ rest) ys h = h
Persisted-append (status_patched base dev false ∷ rest) ys h = absurd h
Persisted-append (probed host ∷ rest) ys h = absurd h
Persisted-append (called c method ∷ rest) ys h = absurd h
Persisted-append (object_patched base dev b ∷ rest) ys h = absurd h
Persisted-append (event_recorded warning reason ∷ rest) ys h = absurd h

Prepared-append : (xs ys : List Effect) → Prepared xs → Prepared ys → Prepared (xs ++ ys)
Prepared-append [] ys h k = k
Prepared-append (called c method ∷ rest) ys (h, hs) k =
    (λ e. Persisted-append rest ys (h e), Prepared-append rest ys hs k)
Prepared-append (probed host ∷ rest) ys h k = Prepared-append rest ys h k
Prepared-append (status_patched base dev b ∷ rest) ys h k = Prepared-append rest ys h k
Prepared-append (object_patched base dev b ∷ rest) ys h k = Prepared-append rest ys h k
Prepared-append (event_recorded warning reason ∷ rest) ys h k = Prepared-append rest ys h k

prepared : Policy Prepared Unit
prepared = record {
  law = record { none_done = tt; joined = Prepared-append };
  config_read = λ c. (λ e. absurd (last-not_update _ refl e), tt);
  status_read = λ c. (λ e. absurd (last-not_update _ refl e), tt);
  jobs_read = λ c. (λ e. absurd (last-not_update _ refl e), tt);
  event = λ warning reason. tt;
  object = λ base dev b. tt;
  status = λ base dev b h. tt;
  probe = λ may host. tt;
  write = λ may c method h. (λ e. absurd (h e), tt);
  update = λ may c base dev h a. (λ e. a, tt);
}

-- No device is called.
abbrev pub IsCluster : Effect → Type 0
IsCluster (called c method) = ⊥
IsCluster (probed host) = ⊥
IsCluster (status_patched base dev b) = Unit
IsCluster (object_patched base dev b) = Unit
IsCluster (event_recorded warning reason) = Unit

quiet : Notes (All IsCluster)
quiet = record {
  law = All-LogLaw IsCluster;
  event = λ warning reason. (tt, tt);
  status = λ base dev b h. (tt, tt);
}

module _ {F Sel S Z : Type 0} ⦃n : Floats F⦄ ⦃t : Texts⦄ ⦃codec : Codec F⦄ ⦃sel : Selectors Sel⦄
    ⦃rules : LabelRules⦄ ⦃dec : Decoding⦄ (fmt : Format F) (env : Env F Sel S) (zones : Zones ℕ Z)
    (settings : Settings) where
  -- If none of the profiles that the list of the namespace can return enforces, then whatever the
  -- devices and the API answer, one run of Reconcile sends no device anything but the methods that read:
  -- Shelly.GetConfig, Sys.GetStatus and Schedule.List.
  pub reconcile-observes :
      ((s : S) (profiles : List (ShellyProfile F Sel))
        → (env.list_profiles s).0 ≡ ok profiles
        → All (λ p. is_enforce p ≡ false) profiles)
      → (name : String) (w : World S)
      → (new : List Effect) × ((reconcile fmt env zones settings name w).1.log ≡ new ++ w.log)
        × All IsPassive new
  reconcile-observes h name = reconcile-Logs passive fmt env zones settings name leave
    where
      denied :
          (profiles : List (ShellyProfile F Sel)) (o : Option (ShellyProfile F Sel))
          → All (λ p. is_enforce p ≡ false) profiles
          → ((p : ShellyProfile F Sel) → o ≡ some p → Memᴰ p profiles)
          → Leave passive fmt env zones settings o
      denied profiles none all mem = tt
      denied profiles (some p) all mem = λ e. cc (All-mem _ all (mem p refl))

      leave : ListedLeave passive fmt env zones settings
      leave dev s profiles e =
          denied profiles (match_profile dev profiles).0 (h s profiles e)
            (match_profile-mem dev profiles)

  allowed :
      {Q : List Effect → Type 0} (p : Policy Q Unit) (o : Option (ShellyProfile F Sel))
      → Leave p fmt env zones settings o
  allowed p none = tt
  allowed p (some profile) = λ e. tt

  -- Whatever the devices and the API answer, in one run of Reconcile each Shelly.Update that is sent
  -- comes right after a status patch that succeeded and whose status holds an update attempt that is
  -- neither refused nor failed.
  pub reconcile-Prepared :
      (name : String) (w : World S)
      → (new : List Effect) × ((reconcile fmt env zones settings name w).1.log ≡ new ++ w.log)
        × Prepared new
  reconcile-Prepared name =
      reconcile-Logs prepared fmt env zones settings name (λ dev s profiles e. allowed prepared _)

  -- Whatever the devices and the API answer, no status patch of a run of Reconcile changes a field that
  -- discovery writes: the address, the MAC, the model, the app, the generation, the firmware, whether
  -- authentication is enabled, the device's name, whether it is online, and when it was last seen.
  pub reconcile-IsModest :
      (name : String) (w : World S)
      → (new : List Effect) × ((reconcile fmt env zones settings name w).1.log ≡ new ++ w.log)
        × All IsModest new
  reconcile-IsModest name =
      reconcile-Logs modest fmt env zones settings name (λ dev s profiles e. allowed modest _)

  unless_idle :
      (dev : ShellyDevice) (b : Bool) (wait : ℕ) (w : World S)
      → b ≡ true
      → Adds (All IsCluster) w (unless_in_flight fmt env zones settings dev (b, wait) w).1
  unfolding unless_in_flight
  unless_idle dev true wait w h = ([], refl, tt)
  unless_idle dev false wait w h = cc

  -- The device is paused, or offline, or it installs an update at the given time.
  abbrev pub IsIdle : ShellyDevice → ℕ → Type 0
  IsIdle dev now =
      (dev.spec.paused ≡ true)
      ⊎ ((dev.status.online ≡ false) ⊎ ((update_in_flight dev now).0 ≡ true))

  abbrev no_findings : List (Finding F)
  no_findings = []

  finish_idle :
      (dev : ShellyDevice) (now : Condition) (matched : String) (w : World S)
      → Adds (All IsCluster) w (finish env settings.interval dev now no_findings matched w).1
  finish_idle dev now matched w = finish-Logs quiet env _ dev now no_findings matched w

  still_installing :
      (dev : ShellyDevice) (now : ℕ)
      → IsIdle dev now
      → dev.spec.paused ≡ false
      → not dev.status.online ≡ false
      → (update_in_flight dev now).0 ≡ true
  still_installing dev now (inl h) e k = cc
  still_installing dev now (inr (inl h)) e k = cc
  still_installing dev now (inr (inr h)) e k = h

  with_device-idle :
      (dev : ShellyDevice) (w : World S)
      → IsIdle dev (env.now w.outside).0
      → Adds (All IsCluster) w (with_device fmt env zones settings (ok dev) w).1
  unfolding with_device ◌>>=◌ ask
  with_device-idle dev w h =
      Adds-when _ _ dev.spec.paused w (λ e. finish_idle dev _ _ w)
        λ e.
          Adds-when _ _ (not dev.status.online) w (λ k. finish_idle dev _ _ w)
            (λ k. unless_idle dev _ _ _ (still_installing dev _ h e k))

  -- If the device that Reconcile reads is paused, or is offline, or has an update in flight at the time
  -- that the clock then shows, the run calls no device: all that it adds to the log are patches and
  -- events.
  pub reconcile-idle :
      (name : String) (w : World S) (dev : ShellyDevice)
      → (env.get_device name w.outside).0 ≡ ok dev
      → IsIdle dev (env.now (env.get_device name w.outside).1).0
      → (new : List Effect) × ((reconcile fmt env zones settings name w).1.log ≡ new ++ w.log)
        × All IsCluster new
  unfolding reconcile ◌>>=◌ ask
  reconcile-idle name w dev e idle =
      let w₁ : World S = record w { outside = (env.get_device name w.outside).1 } in
      rw e (with_device-idle dev w₁ idle)
