-- ===== src/Fleet/Sanitize.antt =====
-- internal/fleet/sanitize.go and sanitizeLabelValue of api/v1alpha1/device_helpers.go: texts as values
-- of Kubernetes labels. A text is the list of its code points. What is cut to 63 bytes is ASCII there,
-- so that its bytes are its code points.
pub mod Laws
use shelly_operator.Base.{
  ℕ, Bool, List, [], ◌∷◌, ◌++◌, ◌&&◌, ◌||◌, not, map, eqb, leb, take, if◌then◌else◌,
}
use shelly_operator.Base.Trim.{trim}

abbrev pub is_upper : ℕ → Bool
is_upper r = leb 65 r && leb r 90

-- isAlnum of fleet/sanitize.go: lower case only
abbrev pub is_alnum : ℕ → Bool
is_alnum r = (leb 97 r && leb r 122) || (leb 48 r && leb r 57)

-- isAlnum of sanitizeLabelValue
abbrev pub is_any_alnum : ℕ → Bool
is_any_alnum r = is_upper r || is_alnum r

-- '.' and '_'
abbrev pub is_dot_or_underscore : ℕ → Bool
is_dot_or_underscore r = eqb r 46 || eqb r 95

abbrev pub max_label : ℕ
max_label = 63

-- One round of the loop of SanitizeLabel: what is written, and the new `prev`.
unfoldable pub write_rune : ℕ → ℕ → List ℕ × ℕ
write_rune prev r =
    if is_alnum r || is_dot_or_underscore r
    then (r ∷ [], r)
    else if not (eqb prev 45)
    then (45 ∷ [], 45)
    else ([], prev)

unfoldable pub write_runes : ℕ → List ℕ → List ℕ
unfolding write_rune
write_runes prev [] = []
write_runes prev (r ∷ rs) = let (out, prev') = write_rune prev r in out ++ write_runes prev' rs

-- `lower` is unicode.ToLower, by which strings.ToLower maps each code point.
unfoldable pub sanitize_label : (ℕ → ℕ) → List ℕ → List ℕ
unfolding write_runes trim
sanitize_label lower [] = []
sanitize_label lower (c ∷ cs) = trim is_alnum (take max_label (write_runes 0 (map lower (c ∷ cs))))

-- The loop of sanitizeLabelValue.
unfoldable pub replace_rune : ℕ → ℕ
replace_rune r = if is_any_alnum r || (is_dot_or_underscore r || eqb r 45) then r else 95

unfoldable pub sanitize_label_value : List ℕ → List ℕ
unfolding replace_rune trim
sanitize_label_value s = trim is_any_alnum (take max_label (map replace_rune s))
