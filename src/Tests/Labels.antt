-- ===== src/Tests/Labels.antt =====
-- Texts as values of labels.
use shelly_operator.Base.{ℕ, ◌+◌, true, List, ◌≡◌, refl, arith, codes, if◌then◌else◌}
use shelly_operator.Fleet.Sanitize.{is_upper, sanitize_label, sanitize_label_value}
use shelly_operator.Fleet.Sanitize.Laws.{IsLabelValue, is_kept}
use shelly_operator.Fleet.Sanitize.Laws.Labels.{
  sanitize_label-IsLabelValue, sanitize_label_value-IsLabelValue, sanitize_label_idem,
}

-- Lower case on ASCII.
abbrev ascii_lower : ℕ → ℕ
ascii_lower r = if is_upper r then r + 32 else r

abbrev media : List ℕ
media = codes "AV / Media"

av_media : sanitize_label ascii_lower media ≡ codes "av-media"
unfolding sanitize_label
av_media = refl

sanitize_label-IsLabelValue_example : IsLabelValue (sanitize_label ascii_lower media)
sanitize_label-IsLabelValue_example = sanitize_label-IsLabelValue ascii_lower media

sanitize_label_value-IsLabelValue_example : IsLabelValue (sanitize_label_value media)
sanitize_label_value-IsLabelValue_example = sanitize_label_value-IsLabelValue media

ascii_lower_fixed : (r : ℕ) → is_kept r ≡ true → ascii_lower r ≡ r
ascii_lower_fixed r h = ground arith

sanitize_label_idem_example :
    sanitize_label ascii_lower (sanitize_label ascii_lower media) ≡ sanitize_label ascii_lower media
sanitize_label_idem_example = sanitize_label_idem ascii_lower media ascii_lower_fixed
