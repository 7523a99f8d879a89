-- ===== src/Base/Text.antt =====
-- Go's order and suffix test on strings. Go compares bytes; on valid UTF-8 the order of the bytes
-- is the order of the code points, by which `str_ltb` compares.
use Prim.Native.Nat.{ℕ, ◌-◌, compare, Ordering}
use Prim.Native.Char.{code}
use Prim.Native.String.{String, len, slice}
use mathlib.Core.Path.{◌≡◌, refl, ap₂}
use mathlib.Core.Bool.{Bool, true, false, ◌&&◌}
use mathlib.Core.List.{List, [], ◌∷◌}
use native.Mathlib.Omega.{arith}
use text.Mathlib.Text.{◌==◌, starts_with}
use text.Mathlib.TextEquality.{Char-path}
use shelly_operator.Base.Tests.{leb}

-- Go's `s < t` on strings.
unfoldable pub str_ltb : String → String → Bool
str_ltb String.[] String.[] = false
str_ltb String.[] (String.◌∷◌ d t) = true
str_ltb (String.◌∷◌ c s) String.[] = false
str_ltb (String.◌∷◌ c s) (String.◌∷◌ d t) = elim (compare (code c) (code d)) [
  | Ordering.lt ↦ true
  | Ordering.eq ↦ str_ltb s t
  | Ordering.gt ↦ false
]

pub str_ltb_irrefl : (s : String) → str_ltb s s ≡ false
unfolding str_ltb
str_ltb_irrefl String.[] = refl
str_ltb_irrefl (String.◌∷◌ c s) = ground (arith, str_ltb_irrefl s)

pub str_ltb_asymm : (s t : String) → str_ltb s t ≡ true → str_ltb t s ≡ false
unfolding str_ltb
str_ltb_asymm String.[] String.[] h = refl
str_ltb_asymm String.[] (String.◌∷◌ d t) h = refl
str_ltb_asymm (String.◌∷◌ c s) String.[] h = cc
str_ltb_asymm (String.◌∷◌ c s) (String.◌∷◌ d t) h = ground (arith, str_ltb_asymm s t)

-- The order is total: what is not below and not above is equal.
pub str_ltb_connex : (s t : String) → str_ltb s t ≡ false → str_ltb t s ≡ false → s ≡ t
unfolding str_ltb
str_ltb_connex String.[] String.[] h k = refl
str_ltb_connex String.[] (String.◌∷◌ d t) h k = cc
str_ltb_connex (String.◌∷◌ c s) String.[] h k = cc
str_ltb_connex (String.◌∷◌ c s) (String.◌∷◌ d t) h k =
    let e : code c ≡ code d = ground arith in
    ap₂ String.◌∷◌ (Char-path c d e) (str_ltb_connex s t (ground arith) (ground arith))

pub str_ltb_cotrans :
    (s t u : String) → str_ltb t s ≡ false → str_ltb u t ≡ false → str_ltb u s ≡ false
unfolding str_ltb
str_ltb_cotrans String.[] String.[] String.[] h k = refl
str_ltb_cotrans String.[] String.[] (String.◌∷◌ e u) h k = refl
str_ltb_cotrans String.[] (String.◌∷◌ d t) String.[] h k = refl
str_ltb_cotrans String.[] (String.◌∷◌ d t) (String.◌∷◌ e u) h k = refl
str_ltb_cotrans (String.◌∷◌ c s) String.[] String.[] h k = cc
str_ltb_cotrans (String.◌∷◌ c s) String.[] (String.◌∷◌ e u) h k = cc
str_ltb_cotrans (String.◌∷◌ c s) (String.◌∷◌ d t) String.[] h k = cc
str_ltb_cotrans (String.◌∷◌ c s) (String.◌∷◌ d t) (String.◌∷◌ e u) h k =
    ground (arith, str_ltb_cotrans s t u)

-- `strings.HasPrefix(s, t)`.
unfoldable pub has_prefix : String → String → Bool
has_prefix s t = starts_with s t

-- `strings.HasSuffix(s, t)`.
unfoldable pub ends_with : String → String → Bool
ends_with s t = leb (len t) (len s) && (slice s (len s - len t) (len s) == t)

-- The code points of a text, which `range s` walks.
abbrev pub codes : String → List ℕ
codes String.[] = []
codes (String.◌∷◌ first rest) = code first ∷ codes rest
