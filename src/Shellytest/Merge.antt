-- ===== src/Shellytest/Merge.antt =====
-- The deep merge of shellytest/server.go, which is what a device does with a partial SetConfig.
pub mod Laws
use shelly_operator.Base.{String, Option, none, some}
use shelly_operator.Json.{
  Value, Fields, null, bool, num, str, arr, obj, end, field, get, put, as_map,
}

module _ {F : Type 0} where
  -- Maps are merged recursively, all else is replaced.
  unfoldable mutual
    pub merge_value : Option (Value F) → Value F → Value F
    merge_value d (obj sm) = obj (merge (as_map d) sm)
    merge_value d null = null
    merge_value d (bool b) = bool b
    merge_value d (num x) = num x
    merge_value d (str s) = str s
    merge_value d (arr xs) = arr xs

    pub merge : Fields F → Fields F → Fields F
    merge dst end = dst
    merge dst (field k v rest) = merge (put k (merge_value (get k dst) v) dst) rest
