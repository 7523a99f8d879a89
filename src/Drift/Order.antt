-- ===== src/Drift/Order.antt =====
-- internal/drift/order.go: the order in which drifted sections are written.
pub mod Laws
use shelly_operator.Base.{
  ℕ, Bool, String, List, not, ◌==◌, has_prefix, ends_with, ltb, eqb, str_ltb, if◌then◌else◌,
}
use shelly_operator.Base.Sort.{sort}

-- The `rank` closure of ApplyOrder.
unfoldable pub rank : String → ℕ
rank s =
    if s == "sys"
    then 0
    else if has_prefix s "switch:"
    then 1
    else if ends_with s "_ui"
    then 1
    else if s == "mqtt"
    then 2
    else if s == "cloud"
    then 3
    else if s == "ble"
    then 3
    else if s == "ws"
    then 3
    else if s == "firmware"
    then 4
    else if s == "schedule"
    then 4
    else if s == "auth"
    then 100
    else if s == "wifi"
    then 200
    else 50

-- The comparison passed to sort.SliceStable.
unfoldable pub section_less : String → String → Bool
section_less a b = if not (eqb (rank a) (rank b)) then ltb (rank a) (rank b) else str_ltb a b

unfoldable pub apply_order : List String → List String
unfolding section_less
apply_order sections = sort section_less sections
