-- ===== src/Exporter/Laws.antt =====
-- The hosts that the exporter's configuration lists.
use mathlib.Core.List.{Memᴰ}
use shelly_operator.Base.{
  Bool, true, false, String, List, [], ◌∷◌, ◌++◌, ◌≡◌, ◌⊎◌, inl, inr, refl, sym, ap, ◌∙◌, ◌==◌,
  eq_iff, All, str_ltb, str_ltb_asymm, str_ltb_connex, str_ltb_cotrans, Bool-cases, arith,
  if◌then◌else◌,
}
use mathlib.Core.Path.{subst}
use shelly_operator.Base.Sort.{sort, IsSorted}
use shelly_operator.Base.Sort.Laws.{mem-sort, mem-sort_of, sort-IsSorted}
use shelly_operator.Api.Device.{ShellyDevice}
use shelly_operator.Drift.Report.Laws.{IsAscending, str_ltb-StrictWeak}
use shelly_operator.Exporter.{
  addresses, compact_after, compact, hosts, is_listed, exporter_config, Options, is_relevant,
}

mem-if :
    {s : String} (a : String) (rest : List String) (b : Bool)
    → Memᴰ s (if b then a ∷ rest else rest)
    → ((b ≡ true) × (a ≡ s)) ⊎ Memᴰ s rest
mem-if a rest true (Memᴰ.head h) = inl (refl, sym h)
mem-if a rest true (Memᴰ.tail t) = inr t
mem-if a rest false m = inr m

mem-addresses :
    {s : String} (devs : List ShellyDevice)
    → Memᴰ s (addresses devs)
    → (dev : ShellyDevice) × Memᴰ dev devs × (is_listed dev ≡ true) × (dev.status.address ≡ s)
unfolding addresses
mem-addresses [] m = elim m [ ]
mem-addresses (dev ∷ devs) m = elim (mem-if dev.status.address (addresses devs) (is_listed dev) m) [
  | inl (e, a) ↦ (dev, Memᴰ.head refl, e, a)
  | inr t ↦ let (d, i, l, a) = mem-addresses devs t in (d, Memᴰ.tail i, l, a)
]

if_first :
    (a : String) (rest : List String) (b : Bool) → b ≡ true → Memᴰ a (if b then a ∷ rest else rest)
if_first a rest true h = Memᴰ.head refl
if_first a rest false h = absurd (cc h)

if_rest :
    {s : String} (a : String) (rest : List String) (b : Bool)
    → Memᴰ s rest
    → Memᴰ s (if b then a ∷ rest else rest)
if_rest a rest true m = Memᴰ.tail m
if_rest a rest false m = m

mem-addresses_of :
    {dev : ShellyDevice} (devs : List ShellyDevice)
    → Memᴰ dev devs
    → is_listed dev ≡ true
    → Memᴰ dev.status.address (addresses devs)
unfolding addresses
mem-addresses_of [] m h = elim m [ ]
mem-addresses_of {dev} (d ∷ devs) (Memᴰ.head e) h =
    subst (λ x. Memᴰ x.status.address (addresses (d ∷ devs))) (sym e)
      (if_first d.status.address (addresses devs) (is_listed d)
        (subst (λ x. is_listed x ≡ true) e h))
mem-addresses_of (d ∷ devs) (Memᴰ.tail m) h =
    if_rest d.status.address (addresses devs) (is_listed d) (mem-addresses_of devs m h)

mem-else :
    {s : String} (a : String) (rest : List String) (b : Bool)
    → Memᴰ s (if b then rest else a ∷ rest)
    → (s ≡ a) ⊎ Memᴰ s rest
mem-else a rest true m = inr m
mem-else a rest false (Memᴰ.head h) = inl h
mem-else a rest false (Memᴰ.tail t) = inr t

mem-compact_after :
    {s : String} (x : String) (ys : List String) → Memᴰ s (compact_after x ys) → Memᴰ s ys
unfolding compact_after
mem-compact_after x [] m = elim m [ ]
mem-compact_after x (y ∷ ys) m = elim (mem-else y (compact_after y ys) (y == x) m) [
  | inl e ↦ Memᴰ.head e
  | inr t ↦ Memᴰ.tail (mem-compact_after y ys t)
]

mem-compact : {s : String} (xs : List String) → Memᴰ s (compact xs) → Memᴰ s xs
unfolding compact
mem-compact [] m = elim m [ ]
mem-compact (x ∷ xs) (Memᴰ.head e) = Memᴰ.head e
mem-compact (x ∷ xs) (Memᴰ.tail m) = Memᴰ.tail (mem-compact_after x xs m)

kept_else :
    {s : String} (x y : String) (rest : List String) (b : Bool)
    → (b ≡ true → y ≡ x)
    → (s ≡ y) ⊎ Memᴰ s rest
    → (s ≡ x) ⊎ Memᴰ s (if b then rest else y ∷ rest)
kept_else x y rest true h (inl e) = inl (e ∙ h refl)
kept_else x y rest true h (inr m) = inr m
kept_else x y rest false h (inl e) = inr (Memᴰ.head e)
kept_else x y rest false h (inr m) = inr (Memᴰ.tail m)

mem-compact_after_of :
    {s : String} (x : String) (ys : List String) → Memᴰ s ys → (s ≡ x) ⊎ Memᴰ s (compact_after x ys)
unfolding compact_after
mem-compact_after_of x [] m = elim m [ ]
mem-compact_after_of x (y ∷ ys) (Memᴰ.head e) =
    kept_else x y (compact_after y ys) (y == x) (λ h. (eq_iff y x).0 h) (inl e)
mem-compact_after_of x (y ∷ ys) (Memᴰ.tail m) =
    kept_else x y (compact_after y ys) (y == x) (λ h. (eq_iff y x).0 h)
      (mem-compact_after_of y ys m)

mem-compact_of : {s : String} (xs : List String) → Memᴰ s xs → Memᴰ s (compact xs)
unfolding compact
mem-compact_of [] m = elim m [ ]
mem-compact_of (x ∷ xs) (Memᴰ.head e) = Memᴰ.head e
mem-compact_of (x ∷ xs) (Memᴰ.tail m) = elim (mem-compact_after_of x xs m) [
  | inl e ↦ Memᴰ.head e
  | inr t ↦ Memᴰ.tail t
]

-- A sorted list with what stands before it loses its repetitions.
above_all :
    (x y : String) (zs : List String)
    → str_ltb x y ≡ true
    → All (λ z. str_ltb y z ≡ true) zs
    → All (λ z. str_ltb x z ≡ true) zs
above_all x y [] h a = tt
above_all x y (z ∷ zs) h a =
    (ground (arith, h, a.0, str_ltb_asymm y z, str_ltb_cotrans y z x), above_all x y zs h a.1)

compact_after-IsAscending :
    (x : String) (ys : List String)
    → IsSorted str_ltb (x ∷ ys)
    → All (λ z. str_ltb x z ≡ true) (compact_after x ys) × IsAscending (compact_after x ys)
unfolding compact_after
compact_after-IsAscending x [] s = (tt, tt)
compact_after-IsAscending x (y ∷ ys) s =
    let (above, rest) = compact_after-IsAscending y ys s.1 in
    elim (Bool-cases (y == x)) [
      | inl e ↦ rw e (
        subst (λ w. All (λ z. str_ltb w z ≡ true) (compact_after y ys)) ((eq_iff y x).0 e) above,
        rest,
      )
      | inr e ↦
          let below : str_ltb x y ≡ true =
            ground (arith, s.0.0, e, eq_iff y x, str_ltb_connex y x) in
          rw e ((below, above_all x y (compact_after y ys) below above), (above, rest))
    ]

compact-IsAscending : (xs : List String) → IsSorted str_ltb xs → IsAscending (compact xs)
unfolding compact
compact-IsAscending [] s = tt
compact-IsAscending (x ∷ xs) s = compact_after-IsAscending x xs s

-- RenderConfig lists the addresses, none empty, of the devices that are online, all of them, each once
-- and in ascending order.
pub hosts_lem :
    (devs : List ShellyDevice)
    → ((s : String)
        → Memᴰ s (hosts devs)
        → (dev : ShellyDevice) × Memᴰ dev devs × (is_listed dev ≡ true) × (dev.status.address ≡ s))
      × ((dev : ShellyDevice)
          → Memᴰ dev devs
          → is_listed dev ≡ true
          → Memᴰ dev.status.address (hosts devs))
      × IsAscending (hosts devs)
unfolding hosts
hosts_lem devs = (
  λ s m. mem-addresses devs (mem-sort str_ltb _ (mem-compact _ m)),
  λ dev m l. mem-compact_of _ (mem-sort_of str_ltb _ (mem-addresses_of devs m l)),
  compact-IsAscending _ (sort-IsSorted str_ltb str_ltb-StrictWeak (addresses devs)),
)

hosts_eq :
    (xs ys : List ShellyDevice) (old new : ShellyDevice)
    → is_relevant old new ≡ false
    → addresses (xs ++ old ∷ ys) ≡ addresses (xs ++ new ∷ ys)
unfolding addresses is_relevant
hosts_eq [] ys old new h = ground (arith, h, eq_iff old.status.address new.status.address)
hosts_eq (x ∷ xs) ys old new h =
    ap (λ r. if is_listed x then x.status.address ∷ r else r) (hosts_eq xs ys old new h)

-- A device update that the predicate of SetupWithManager drops leaves the exporter's configuration as it
-- is, wherever the device stands in the list.
pub exporter_config-dropped :
    (xs ys : List ShellyDevice) (old new : ShellyDevice) (opts : Options)
    → is_relevant old new ≡ false
    → exporter_config (xs ++ old ∷ ys) opts ≡ exporter_config (xs ++ new ∷ ys) opts
unfolding exporter_config hosts
exporter_config-dropped xs ys old new opts h =
    ap
      (λ l. record {
        listen_address = opts.listen_address;
        debug = opts.debug;
        device_update_interval = opts.device_update_interval;
        devices = compact (sort str_ltb l);
      })
      (hosts_eq xs ys old new h)
