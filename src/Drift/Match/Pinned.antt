-- ===== src/Drift/Match/Pinned.antt =====
-- What MatchProfile returns for a device that is pinned to a profile.
use shelly_operator.Base.{
  String, none, some, List, [], ◌∷◌, ◌≡◌, ◌≢◌, ◌⊎◌, inl, inr, sym, ap, ◌∙◌, Memᴰ, All, eq_iff, ◌==◌,
  Bool-cases, Option-cases, some_inj,
}
use shelly_operator.Api.Profile.{ShellyProfile}
use shelly_operator.Api.Device.{ShellyDevice}
use shelly_operator.Drift.Match.{Selectors, ref_not_found, find_named, match_profile}

module _ {F Sel : Type 0} where
  find_named-some :
      (ref : String) (ps : List (ShellyProfile F Sel)) {p : ShellyProfile F Sel}
      → find_named ref ps ≡ some p
      → Memᴰ p ps × (p.name ≡ ref)
  unfolding find_named
  find_named-some ref [] h = cc
  find_named-some ref (q ∷ ps) {p} h = elim (Bool-cases (q.name == ref)) [
    | inl e ↦
        let h' : some q ≡ some p = rw e at h in
        let same : p ≡ q = sym (some_inj h') in
        (Memᴰ.head same, ap (λ (x : ShellyProfile F Sel). x.name) same ∙ (eq_iff _ _).0 e)
    | inr e ↦ let (m, n) = find_named-some ref ps (rw e at h) in (Memᴰ.tail m, n)
  ]

  find_named-none :
      (ref : String) (ps : List (ShellyProfile F Sel))
      → find_named ref ps ≡ none
      → All (λ (p : ShellyProfile F Sel). p.name ≢ ref) ps
  unfolding find_named
  find_named-none ref [] h = tt
  find_named-none ref (q ∷ ps) h = elim (Bool-cases (q.name == ref)) [
    | inl e ↦ cc (rw e at h)
    | inr e ↦ ((λ n. cc ((eq_iff q.name ref).1 n)), find_named-none ref ps (rw e at h))
  ]

  -- For a device with a pin, MatchProfile returns a profile of the list that has the pinned name, and
  -- no warning; or no profile of the list has that name, and it returns none and the one warning that
  -- the pinned profile was not found.
  pub match_profile-pinned :
      ⦃s : Selectors Sel⦄ (dev : ShellyDevice) (ps : List (ShellyProfile F Sel))
      → dev.spec.profile_ref ≢ ""
      → ((p : ShellyProfile F Sel) × (match_profile dev ps ≡ (some p, []))
          × Memᴰ p ps
          × (p.name ≡ dev.spec.profile_ref))
        ⊎ ((match_profile dev ps ≡ (none, ref_not_found dev.spec.profile_ref ∷ []))
            × All (λ (p : ShellyProfile F Sel). p.name ≢ dev.spec.profile_ref) ps)
  unfolding match_profile
  match_profile-pinned dev ps h = elim (Bool-cases (dev.spec.profile_ref == "")) [
    | inl e ↦ absurd (h ((eq_iff _ _).0 e))
    | inr e ↦ elim (Option-cases (find_named dev.spec.profile_ref ps)) [
      | inl n ↦ inr (rw (e, n), find_named-none _ ps n)
      | inr (p, q) ↦ let (m, name) = find_named-some _ ps q in inl (p, rw (e, q), m, name)
    ]
  ]
