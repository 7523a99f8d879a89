-- ===== src/Controller/Update/Attempt/Logs.antt =====
-- What updateIfAvailable adds to the log.
use shelly_operator.Base.{
  ℕ, ℤ, Bool, true, false, String, Option, none, some, List, [], ◌∷◌, ◌++◌, ◌≡◌, refl, ◌&&◌, not,
  ◌==◌, Result, ok, err, ◌∙◌, ap,
}
use shelly_operator.Api.Profile.{ShellyProfile, RebootWindow, is_enforce}
use shelly_operator.Api.Device.{ShellyDevice, FirmwareUpdateAttempt}
use shelly_operator.Api.Server.{ApiError, ◌>>=◌}
use shelly_operator.Shelly.Errors.{CallError}
use shelly_operator.Shelly.Methods as Methods
use shelly_operator.Shelly.Methods.{Client}
use shelly_operator.Controller.Window.{Zones, WindowError}
use shelly_operator.Controller.World.{
  Effect, World, Env, status_patched, called, logged, perform, patch_status, record_event,
  is_success, ask,
}
use shelly_operator.Controller.World.Logs.{
  Adds, Logs, Logs-still, Logs-bind, Logs-if, Logs-when, Adds-run, Logs-ask, Logs-event, Adds-trans,
}
use shelly_operator.Controller.World.Policy.{
  Policy, IsAttempt, Logs-status, notes_of, discovered, update_method, opted_in,
}
use shelly_operator.Controller.Update.Attempt.{
  SysRead, with_attempt, not_recorded, recorded_fresh, record_on_fresh, recorded_first,
  record_update_attempt, take_slot, claim_among, claim_slot, attempted_lately, update_answered,
  send_update, start_update, update_unless, update_when_open, update_in_window, update_if_available,
}

-- A run of recordUpdateAttempt ends right after the patch that succeeded, or without success.
abbrev pub Recorded : {S : Type 0} → (List Effect → Type 0) → World S → Bool → World S → Type 0
Recorded Q w true w' =
    (rest : List Effect) × (base : ShellyDevice) × (dev : ShellyDevice) × (w'.log
      ≡ status_patched base dev true ∷ (rest ++ w.log))
    × (discovered base ≡ discovered dev)
    × IsAttempt dev
    × Q rest
Recorded Q w false w' = Adds Q w w'

module _ {F Sel S : Type 0} {Q : List Effect → Type 0} {May : Type 0} (p : Policy Q May)
    (env : Env F Sel S) where
  not_recorded-Logs : (dev : ShellyDevice) → Logs Q (not_recorded env dev)
  unfolding not_recorded
  not_recorded-Logs dev =
      Logs-bind p.law _ _ (Logs-event p.law env _ _ (p.event _ _)) (λ _. Logs-still p.law)

  not_recorded-Recorded :
      (dev : ShellyDevice) (w w₁ : World S)
      → Adds Q w w₁
      → let r = not_recorded env dev w₁ in Recorded Q w r.0.0 r.1
  unfolding not_recorded ◌>>=◌
  not_recorded-Recorded dev w w₁ a =
      Adds-run p.law (record_event env true "FirmwareUpdateNotRecorded") w w₁ a
        (Logs-event p.law env _ _ (p.event _ _))

  recorded_fresh-log :
      (dev fresh : ShellyDevice) (attempt : FirmwareUpdateAttempt)
      → attempt.refused ≡ false
      → attempt.error ≡ ""
      → (a : Result ApiError ShellyDevice) (w w₁ w₂ : World S) → Adds Q w w₁
      → w₂.log ≡ status_patched fresh (with_attempt (some attempt) fresh) (is_success a) ∷ w₁.log
      → let r = recorded_fresh env dev attempt a w₂ in Recorded Q w r.0.0 r.1
  unfolding recorded_fresh
  recorded_fresh-log dev fresh attempt h k (ok server) w w₁ w₂ (xs, e, q) l =
      let sent = with_attempt (some attempt) fresh in
      (
        xs,
        fresh,
        sent,
        l ∙ ap (λ ys. status_patched fresh sent true ∷ ys) e,
        refl,
        (attempt, refl, h, k),
        q,
      )
  recorded_fresh-log dev fresh attempt h k (err e) w w₁ w₂ a l =
      not_recorded-Recorded dev w w₂
        (Adds-trans p.law w w₁ w₂ a (_ ∷ [], l, p.status fresh _ false refl))

  record_on_fresh-log :
      (dev : ShellyDevice) (attempt : FirmwareUpdateAttempt)
      → attempt.refused ≡ false
      → attempt.error ≡ ""
      → (r : Result ApiError ShellyDevice) (w w₁ : World S) → Adds Q w w₁
      → let x = record_on_fresh env dev attempt r w₁ in Recorded Q w x.0.0 x.1
  unfolding record_on_fresh patch_status perform ◌>>=◌
  record_on_fresh-log dev attempt h k (err e) w w₁ a = not_recorded-Recorded dev w w₁ a
  record_on_fresh-log dev attempt h k (ok fresh) w w₁ a =
      recorded_fresh-log dev fresh attempt h k
        (env.patch_status fresh (with_attempt (some attempt) fresh) w₁.outside).0 w w₁ _ a refl

  recorded_first-log :
      (dev : ShellyDevice) (attempt : FirmwareUpdateAttempt)
      → attempt.refused ≡ false
      → attempt.error ≡ ""
      → (a : Result ApiError ShellyDevice) (w w₁ : World S)
      → w₁.log ≡ status_patched dev (with_attempt (some attempt) dev) (is_success a) ∷ w.log
      → let x = recorded_first env dev attempt a w₁ in Recorded Q w x.0.0 x.1
  unfolding recorded_first ask ◌>>=◌
  recorded_first-log dev attempt h k (ok server) w w₁ l =
      ([], dev, with_attempt (some attempt) dev, l, refl, (attempt, refl, h, k), p.law.none_done)
  recorded_first-log dev attempt h k (err e) w w₁ l =
      record_on_fresh-log dev attempt h k (env.get_device dev.name w₁.outside).0 w _
        (_ ∷ [], l, p.status dev _ false refl)

  record-Recorded :
      (dev : ShellyDevice) (attempt : FirmwareUpdateAttempt)
      → attempt.refused ≡ false
      → attempt.error ≡ ""
      → (w : World S) → let x = record_update_attempt env dev attempt w in Recorded Q w x.0.0 x.1
  unfolding record_update_attempt patch_status perform ◌>>=◌
  record-Recorded dev attempt h k w =
      recorded_first-log dev attempt h k
        (env.patch_status dev (with_attempt (some attempt) dev) w.outside).0 w _ refl

  recorded_fresh-Logs :
      (dev : ShellyDevice) (attempt : FirmwareUpdateAttempt) (a : Result ApiError ShellyDevice)
      → Logs Q (recorded_fresh env dev attempt a)
  unfolding recorded_fresh
  recorded_fresh-Logs dev attempt (ok server) = Logs-still p.law
  recorded_fresh-Logs dev attempt (err e) = not_recorded-Logs dev

  record_on_fresh-Logs :
      (dev : ShellyDevice) (attempt : FirmwareUpdateAttempt) (r : Result ApiError ShellyDevice)
      → Logs Q (record_on_fresh env dev attempt r)
  unfolding record_on_fresh
  record_on_fresh-Logs dev attempt (err e) = not_recorded-Logs dev
  record_on_fresh-Logs dev attempt (ok fresh) =
      Logs-bind p.law _ _ (Logs-status (notes_of p) env fresh _ refl)
        (recorded_fresh-Logs dev attempt)

  recorded_first-Logs :
      (dev : ShellyDevice) (attempt : FirmwareUpdateAttempt) (a : Result ApiError ShellyDevice)
      → Logs Q (recorded_first env dev attempt a)
  unfolding recorded_first
  recorded_first-Logs dev attempt (ok server) = Logs-still p.law
  recorded_first-Logs dev attempt (err e) =
      Logs-bind p.law _ _ (Logs-ask p.law _) (record_on_fresh-Logs dev attempt)

  -- With an attempt of any kind.
  record-Logs :
      (dev : ShellyDevice) (attempt : FirmwareUpdateAttempt)
      → Logs Q (record_update_attempt env dev attempt)
  unfolding record_update_attempt
  record-Logs dev attempt =
      Logs-bind p.law _ _ (Logs-status (notes_of p) env dev _ refl)
        (recorded_first-Logs dev attempt)

  take_slot-Logs :
      (spacing : ℤ) (devs : List ShellyDevice) (now : ℕ) → Logs Q (take_slot env spacing devs now)
  unfolding take_slot
  take_slot-Logs spacing devs now w = ([], refl, p.law.none_done)

  claim_among-Logs :
      (spacing : ℤ) (r : Result ApiError (List ShellyDevice)) → Logs Q (claim_among env spacing r)
  unfolding claim_among
  claim_among-Logs spacing (err e) = Logs-still p.law
  claim_among-Logs spacing (ok devs) =
      Logs-bind p.law _ _ (Logs-ask p.law _) (take_slot-Logs spacing devs)

  claim_slot-Logs : (spacing : ℤ) → Logs Q (claim_slot env spacing)
  unfolding claim_slot
  claim_slot-Logs spacing = Logs-bind p.law _ _ (Logs-ask p.law _) (claim_among-Logs spacing)

  attempted_lately-Logs :
      (last : Option FirmwareUpdateAttempt) (target : String)
      → Logs Q (attempted_lately env last target)
  unfolding attempted_lately
  attempted_lately-Logs none target = Logs-still p.law
  attempted_lately-Logs (some last) target =
      Logs-if _ _ _ (Logs-still p.law)
        (Logs-bind p.law _ _ (Logs-ask p.law _) (λ now. Logs-still p.law))

  update_answered-Logs :
      (dev : ShellyDevice) (attempt : FirmwareUpdateAttempt) (r : Result CallError (Unit {0}))
      → Logs Q (update_answered env dev attempt r)
  unfolding update_answered
  update_answered-Logs dev attempt (ok u) =
      Logs-bind p.law _ _ (Logs-event p.law env _ _ (p.event _ _)) (λ _. Logs-still p.law)
  update_answered-Logs dev attempt (err e) =
      Logs-bind p.law _ _ (Logs-event p.law env _ _ (p.event _ _))
        λ _. Logs-bind p.law _ _ (record-Logs dev _) (λ r. Logs-still p.law)

  -- The call follows the patch that recorded the attempt.
  send_update-Adds :
      May
      → (c : Client) (attempt : FirmwareUpdateAttempt) (b : Bool) (dev : ShellyDevice)
        (w w₁ : World S)
      → Recorded Q w b w₁
      → Adds Q w (send_update env c attempt (b, dev) w₁).1
  unfolding send_update Methods.update logged perform ◌>>=◌
  send_update-Adds may c attempt false dev w w₁ a = a
  send_update-Adds may c attempt true dev w w₁ (rest, base, sent, e, same, is, q) =
      let w₂ = (Methods.update (logged env.calls) c "stable" w₁).1 in
      Adds-run p.law (update_answered env dev attempt _) w w₂
        (
          called c update_method ∷ status_patched base sent true ∷ rest,
          ap (λ l. called c update_method ∷ l) e,
          p.law.joined (_ ∷ _ ∷ []) rest (p.update may c base sent same is) q,
        )
        (update_answered-Logs dev attempt _)

  start_update-Logs :
      May
      → (c : Client) (dev : ShellyDevice) (target : String) (b : Bool)
      → Logs Q (start_update env c dev target b)
  unfolding start_update ◌>>=◌ ask
  start_update-Logs may c dev target false = Logs-still p.law
  start_update-Logs may c dev target true =
      λ w. send_update-Adds may c _ _ _ w _ (record-Recorded dev _ refl refl _)

  update_unless-Logs :
      May
      → (spacing : ℤ) (c : Client) (dev : ShellyDevice) (target : String) (b : Bool)
      → Logs Q (update_unless env spacing c dev target b)
  unfolding update_unless
  update_unless-Logs may spacing c dev target true = Logs-still p.law
  update_unless-Logs may spacing c dev target false =
      Logs-bind p.law _ _ (claim_slot-Logs spacing) (start_update-Logs may c dev target)

  update_when_open-Logs :
      May
      → (spacing : ℤ) (c : Client) (dev : ShellyDevice) (target : String)
        (r : Result WindowError Bool)
      → Logs Q (update_when_open env spacing c dev target r)
  unfolding update_when_open
  update_when_open-Logs may spacing c dev target (err e) =
      Logs-bind p.law _ _ (Logs-event p.law env _ _ (p.event _ _)) (λ _. Logs-still p.law)
  update_when_open-Logs may spacing c dev target (ok false) = Logs-still p.law
  update_when_open-Logs may spacing c dev target (ok true) =
      Logs-bind p.law _ _ (attempted_lately-Logs _ target)
        (update_unless-Logs may spacing c dev target)

  module _ {Z : Type 0} (zones : Zones ℕ Z) (spacing : ℤ) where
    update_in_window-Logs :
        May
        → (c : Client) (dev : ShellyDevice) (target : String) (window : Option RebootWindow)
        → Logs Q (update_in_window env zones spacing c dev target window)
    unfolding update_in_window
    update_in_window-Logs may c dev target none = Logs-still p.law
    update_in_window-Logs may c dev target (some window) =
        Logs-bind p.law _ _ (Logs-ask p.law _)
          λ now. update_when_open-Logs may spacing c dev target _

    pub update_if_available-Logs :
        (c : Client) (dev : ShellyDevice) (profile : ShellyProfile F Sel) (sys : SysRead)
        → (is_enforce profile ≡ true → May)
        → Logs Q (update_if_available env zones spacing c dev profile sys)
    unfolding update_if_available
    update_if_available-Logs c dev profile sys may =
        Logs-when _ _ (not (profile.spec.update_when_available && is_enforce profile))
          (λ e. Logs-still p.law)
          (λ e.
            Logs-if _ _ (not (sys.fresh && not (sys.available_firmware == ""))) (Logs-still p.law)
              (update_in_window-Logs (may (opted_in _ _ e)) c dev _ _))
