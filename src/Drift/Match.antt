-- ===== src/Drift/Match.antt =====
-- internal/drift/match.go: which profile governs a device.
pub mod Laws
pub mod Pinned
use shelly_operator.Base.{
  Bool, String, Option, none, some, List, [], ◌∷◌, not, ◌==◌, eqz, ltz, str_ltb, if◌then◌else◌,
}
use shelly_operator.Base.Assoc.{Assoc}
use shelly_operator.Base.Sort.{sort}
use shelly_operator.Api.Profile.{ShellyProfile}
use shelly_operator.Api.Device.{ShellyDevice}

-- metav1.LabelSelectorAsSelector: the compiled selector's Matches, or the error's text.
pub data Compiled : Type 0 where
  matches : (Assoc String → Bool) → Compiled
  invalid : String → Compiled

pub record Selectors (Sel : Type 0) : Type 0 where
  pub compile : Sel → Compiled

-- The warnings, without their wording.
pub data Warning : Type 0 where
  ref_not_found : String → Warning
  invalid_selector : (profile reason : String) → Warning

module _ {F Sel : Type 0} where
  -- The comparison passed to sort.SliceStable.
  unfoldable pub profile_less : ShellyProfile F Sel → ShellyProfile F Sel → Bool
  profile_less a b =
      if not (eqz a.spec.priority b.spec.priority)
      then ltz b.spec.priority a.spec.priority
      else str_ltb a.name b.name

  unfoldable pub find_named : String → List (ShellyProfile F Sel) → Option (ShellyProfile F Sel)
  find_named ref [] = none
  find_named ref (p ∷ ps) = if p.name == ref then some p else find_named ref ps

  -- The result for a pinned device.
  unfoldable pub pinned :
      String → Option (ShellyProfile F Sel) → Option (ShellyProfile F Sel) × List Warning
  pinned ref (some p) = (some p, [])
  pinned ref none = (none, ref_not_found ref ∷ [])

  unfoldable pub first : List (ShellyProfile F Sel) → Option (ShellyProfile F Sel)
  first [] = none
  first (p ∷ ps) = some p

  module _ ⦃s : Selectors Sel⦄ where
    -- One round of the loop that collects the candidates and the warnings.
    unfoldable pub consider :
        ShellyProfile F Sel
        → Option Compiled
        → Assoc String
        → List (ShellyProfile F Sel) × List Warning
        → List (ShellyProfile F Sel) × List Warning
    consider p none labels (cs, ws) = (cs, ws)
    consider p (some (invalid e)) labels (cs, ws) = (cs, invalid_selector p.name e ∷ ws)
    consider p (some (matches m)) labels (cs, ws) = (if m labels then p ∷ cs else cs, ws)

    unfoldable pub compiled : ShellyProfile F Sel → Option Compiled
    compiled p = elim p.spec.selector [ none ↦ none | some sel ↦ some (s.compile sel) ]

    unfoldable pub candidates :
        Assoc String → List (ShellyProfile F Sel) → List (ShellyProfile F Sel) × List Warning
    unfolding consider compiled
    candidates labels [] = ([], [])
    candidates labels (p ∷ ps) = consider p (compiled p) labels (candidates labels ps)

    unfoldable pub match_profile :
        ShellyDevice → List (ShellyProfile F Sel) → Option (ShellyProfile F Sel) × List Warning
    unfolding pinned find_named first candidates profile_less
    match_profile dev profiles =
        if not (dev.spec.profile_ref == "")
        then pinned dev.spec.profile_ref (find_named dev.spec.profile_ref profiles)
        else let (cs, ws) = candidates dev.labels profiles in (first (sort profile_less cs), ws)
