-- ===== src/Drift/Report.antt =====
-- internal/drift/diff.go: Sections and Summarize, the reports on a list of findings.
pub mod Laws
use Prim.Native.String.{◌++◌ as str_append}
use shelly_operator.Base.{
  ℕ, suc, ◌-◌, Bool, true, false, String, List, [], ◌∷◌, not, ◌==◌, any, eqb, str_ltb, length, itoa,
  if◌then◌else◌,
}
use shelly_operator.Base.Sort.{sort}
use shelly_operator.Json.{Value}
use shelly_operator.Drift.Diff.{Finding}

-- The keys of the set `seen`.
unfoldable pub distinct : List String → List String
distinct [] = []
distinct (s ∷ ss) = let rest = distinct ss in if any (λ x. x == s) ss then rest else s ∷ rest

abbrev pub sections_of : {F : Type 0} → List (Finding F) → List String
sections_of [] = []
sections_of (f ∷ fs) = f.section ∷ sections_of fs

unfoldable pub sections : {F : Type 0} → List (Finding F) → List String
unfolding distinct
sections findings = sort str_ltb (distinct (sections_of findings))

abbrev pub max_summarized : ℕ
max_summarized = 5

-- strings.Join(parts, sep)
unfoldable pub join_strings : String → List String → String
join_strings sep [] = ""
join_strings sep (p ∷ []) = p
join_strings sep (p ∷ q ∷ ps) = str_append p (str_append sep (join_strings sep (q ∷ ps)))

-- `show` is the verb %v of fmt.
module _ {F : Type 0} (show : Value F → String) where
  unfoldable pub part : Finding F → String
  part f =
      let loc =
        if not (f.path == "") then str_append f.section (str_append "." f.path) else f.section in
      str_append loc
        (str_append ": want " (str_append (show f.want) (str_append ", have " (show f.have))))

  -- The loop of Summarize, from index `i`, over `total` findings.
  unfoldable pub parts : ℕ → ℕ → List (Finding F) → List String
  unfolding part
  parts total i [] = []
  parts total i (f ∷ fs) =
      let rest = parts total (suc i) fs in
      if eqb i max_summarized
      then str_append "(+" (str_append (itoa (total - max_summarized)) " more)") ∷ []
      else part f ∷ rest

  unfoldable pub summarize : List (Finding F) → String
  unfolding parts join_strings
  summarize findings = join_strings "; " (parts (length findings) 0 findings)
