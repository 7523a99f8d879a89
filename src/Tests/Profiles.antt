-- ===== src/Tests/Profiles.antt =====
-- Matching a device to a profile.
use shelly_operator.Base.{
  ℤ, pos, String, none, some, List, [], ◌∷◌, ◌≡◌, ◌≢◌, ◌↔◌, ◌⊎◌, refl, Memᴰ, All,
}
use shelly_operator.Base.Assoc
use shelly_operator.Base.Sort
use shelly_operator.Base.{ltz, eqz}
use shelly_operator.Api.Profile.{ShellyProfile}
use shelly_operator.Drift.Match.{match_profile, ref_not_found}
use shelly_operator.Drift.Match.Laws.{
  SelectedBy, Precedes, match_profile-best, match_profile-none_iff,
}
use shelly_operator.Drift.Match.Pinned.{match_profile-pinned}
use shelly_operator.Tests.Fixtures.{by_room, profile, device}

abbrev kitchen : ShellyProfile ℤ String
kitchen = profile "kitchen" (pos 10) (some "kitchen")

abbrev profiles : List (ShellyProfile ℤ String)
profiles =
    profile "base" (pos 1) (some "kitchen") ∷ kitchen ∷ profile "hall" (pos 90) (some "hall") ∷ []

kitchen_wins : (match_profile (device "kitchen" "") profiles).0 ≡ some kitchen
unfolding match_profile Sort.sort Assoc.get eqz ltz
kitchen_wins = refl

match_profile-best_example :
    Memᴰ kitchen profiles
    × SelectedBy (device "kitchen" "").labels kitchen
    × ((q : ShellyProfile ℤ String)
        → Memᴰ q profiles
        → SelectedBy (device "kitchen" "").labels q
        → Precedes kitchen q)
match_profile-best_example =
    match_profile-best (device "kitchen" "") profiles kitchen refl kitchen_wins

match_profile-none_iff_example :
    ((match_profile (device "attic" "") profiles).0 ≡ none)
    ↔ ((q : ShellyProfile ℤ String) → Memᴰ q profiles → ¬ SelectedBy (device "attic" "").labels q)
match_profile-none_iff_example = match_profile-none_iff (device "attic" "") profiles refl

match_profile-pinned_example :
    ((p : ShellyProfile ℤ String) × (match_profile (device "kitchen" "hall") profiles
        ≡ (some p, []))
      × Memᴰ p profiles
      × (p.name ≡ "hall"))
    ⊎ ((match_profile (device "kitchen" "hall") profiles ≡ (none, ref_not_found "hall" ∷ []))
        × All (λ (p : ShellyProfile ℤ String). p.name ≢ "hall") profiles)
match_profile-pinned_example = match_profile-pinned (device "kitchen" "hall") profiles (λ e. cc)
