-- ===== src/Controller/Window.antt =====
-- internal/controller/rebootwindow.go: whether an instant lies in a daily window.
pub mod Laws
use shelly_operator.Base.{
  ℕ, zero, suc, ◌+◌, ◌-◌, ◌*◌, Bool, true, false, String, Option, none, some, List, [], ◌∷◌, ◌&&◌,
  ◌||◌, ◌==◌, not, ltb, leb, eqb, codes, Result, ok, err, ◌>>=◌, if◌then◌else◌,
}
use shelly_operator.Api.Profile.{RebootWindow}

-- time.LoadLocation and the local hour and minute of an instant, of package time.
pub record Zones (T Z : Type 0) : Type 0 where
  pub utc : Z
  pub load_location : String → Option Z
  pub hour : T → Z → ℕ
  pub minute : T → Z → ℕ

-- Each error names what it was found in.
pub data WindowError : Type 0 where
  bad_time_zone bad_start bad_end never_opens : WindowError

abbrev pub is_digit : ℕ → Bool
is_digit c = leb 48 c && leb c 57

-- The rest after the hour: a colon, a minute of two digits below 60, and no more text.
unfoldable pub parse_minute : ℕ → List ℕ → Option ℕ
parse_minute hour (colon ∷ a ∷ b ∷ []) =
    let mins = 10 * (a - 48) + (b - 48) in
    if eqb colon 58 && (is_digit a && is_digit b) && ltb hour 24 && ltb mins 60
    then some (hour * 60 + mins)
    else none
parse_minute hour _ = none

-- time.Parse("15:04", s): an hour below 24 of one or two digits, a colon, a minute. The hour takes
-- two digits where the second character is a digit.
unfoldable pub parse_codes : List ℕ → Option ℕ
unfolding parse_minute
parse_codes (a ∷ b ∷ rest) =
    if not (is_digit a)
    then none
    else if is_digit b
    then parse_minute (10 * (a - 48) + (b - 48)) rest
    else parse_minute (a - 48) (b ∷ rest)
parse_codes _ = none

unfoldable pub parse_hhmm : String → Option ℕ
unfolding parse_codes
parse_hhmm s = parse_codes (codes s)

-- An error of its own in place of none.
abbrev pub or_err : {A : Type 0} → WindowError → Option A → Result WindowError A
or_err e none = err e
or_err e (some a) = ok a

-- The comparisons at the end of withinRebootWindow.
unfoldable pub within_bounds : ℕ → ℕ → ℕ → Result WindowError Bool
within_bounds start finish mins =
    if eqb start finish
    then err never_opens
    else if ltb start finish
    then ok (leb start mins && ltb mins finish)
    else ok (leb start mins || ltb mins finish)

module _ {T Z : Type 0} (zones : Zones T Z) where
  unfoldable pub zone_of : String → Option Z
  zone_of name = if not (name == "") then zones.load_location name else some zones.utc

  abbrev pub local_minute : T → Z → ℕ
  local_minute now z = zones.hour now z * 60 + zones.minute now z

  unfoldable pub within_reboot_window : T → Option RebootWindow → Result WindowError Bool
  unfolding within_bounds zone_of parse_hhmm
  within_reboot_window now none = ok true
  within_reboot_window now (some w) = do
    loc ← or_err bad_time_zone (zone_of w.time_zone)
    start ← or_err bad_start (parse_hhmm w.start)
    finish ← or_err bad_end (parse_hhmm w.end_time)
    within_bounds start finish (local_minute now loc)
