-- ===== src/Discovery/Cidr/Ranges.antt =====
-- The expansion of CIDRs without its loops: ranges of addresses.
use mathlib.Core.List.{append_assoc, append-nil}
use native.Mathlib.Nat.{one-le-pow, pow-le-pow_right}
use Prim.Native.String.{◌++◌ as str_append}
use shelly_operator.Base.{
  ℕ, zero, suc, ◌+◌, ◌-◌, ◌⊎◌, ◌≤◌, ◌<◌, Bool, true, false, String, Option, some, List, [], ◌∷◌,
  ◌++◌, ◌≡◌, refl, ap, ◌∙◌, not, ltb, length, length-append, Result, ok, err, if◌then◌else◌,
  Bool-cases, arith, inl, inr,
}
use shelly_operator.Discovery.Cidr.{
  Prefix, Netip, size, masked, contains, max_sweep_hosts, is_last_in_prefix, too_many, is_skipped,
  sweep, sweep_fuel, sweep_prefix, expand_next, parsed, expand, expand_cidrs,
}

-- The texts of so many addresses from one on.
abbrev pub range : ⦃n : Netip⦄ → ℕ → ℕ → List String
range zero a = []
range ⦃n = n⦄ (suc k) a = n.addr_text a ∷ range k (suc a)

-- The addresses of a prefix, without the first and the last of a prefix shorter than /31.
abbrev pub hosts_of : ⦃n : Netip⦄ → Prefix → List String
hosts_of p = if ltb p.bits 31 then range (size p - 2) (suc p.addr) else range (size p) p.addr

-- The whole ranges are appended, up to the limit.
abbrev pub limited : List String → Result String (List String)
limited hosts = if ltb max_sweep_hosts (length hosts) then err too_many else ok hosts

module _ ⦃n : Netip⦄ where
  length-range : (k a : ℕ) → length (range k a) ≡ k
  length-range zero a = omega arith
  length-range (suc k) a = omega (arith, length-range k (suc a))

  -- An address that the loop appends.
  abbrev Inner : Prefix → ℕ → Type 0
  Inner p a = (contains p a ≡ true) × (is_skipped p a ≡ false)

  sweep-Inner :
      (fuel : ℕ) (p : Prefix) (a : ℕ) (hosts : List String)
      → Inner p a
      → length hosts < max_sweep_hosts
      → sweep (suc fuel) p a hosts ≡ sweep fuel p (suc a) (hosts ++ n.addr_text a ∷ [])
  unfolding sweep
  sweep-Inner fuel p a hosts (c, s) l =
      let bound : ltb max_sweep_hosts (length (hosts ++ n.addr_text a ∷ [])) ≡ false =
        ground (arith, length-append hosts (n.addr_text a ∷ []), l) in
      rw c (rw s (rw bound refl))

  sweep-full :
      (fuel : ℕ) (p : Prefix) (a : ℕ) (hosts : List String)
      → Inner p a
      → length hosts ≡ max_sweep_hosts
      → sweep (suc fuel) p a hosts ≡ some (err too_many)
  unfolding sweep
  sweep-full fuel p a hosts (c, s) l =
      let bound : ltb max_sweep_hosts (length (hosts ++ n.addr_text a ∷ [])) ≡ true =
        ground (arith, length-append hosts (n.addr_text a ∷ []), l) in
      rw c (rw s (rw bound refl))

  -- From an address on, all up to `stop` are appended; the loop ends there within two rounds.
  sweep-range :
      (k fuel : ℕ) (p : Prefix) (a stop : ℕ) (hosts : List String)
      → stop ≡ k + a
      → ((b : ℕ) → a ≤ b → b < stop → Inner p b)
      → ((fuel' : ℕ) (hs : List String) → 2 ≤ fuel' → sweep fuel' p stop hs ≡ some (ok hs))
      → length hosts ≤ max_sweep_hosts
      → max_sweep_hosts + 2 < fuel + length hosts
      → sweep fuel p a hosts ≡ some (limited (hosts ++ range k a))
  sweep-range zero fuel p a stop hosts e inner tail l h =
      let bound : ltb max_sweep_hosts (length hosts) ≡ false = ground (arith, l) in
      let here : a ≡ stop = omega (arith, e) in
      rw (here, append-nil hosts, bound, tail fuel hosts (omega arith)) refl
  sweep-range (suc k) zero p a stop hosts e inner tail l h = absurd (omega arith)
  sweep-range (suc k) (suc fuel) p a stop hosts e inner tail l h =
      let x = n.addr_text a ∷ [] in
      let first = inner a (omega arith) (omega arith) in
      let more = length-append hosts x in
      elim (Bool-cases (ltb (length hosts) max_sweep_hosts)) [
        | inl b ↦
            let lower : length hosts < max_sweep_hosts = ground (arith, b) in
            sweep-Inner fuel p a hosts first lower
            ∙ sweep-range k fuel p (suc a) stop (hosts ++ x) (omega arith)
                (λ c f. inner c (omega arith)) tail (omega arith) (omega arith)
            ∙ ap (λ hs. some (limited hs)) (append_assoc hosts x (range k (suc a)))
        | inr b ↦
            let equal : length hosts ≡ max_sweep_hosts = ground (arith, b, l) in
            let bound : ltb max_sweep_hosts (length (hosts ++ range (suc k) a)) ≡ true =
              ground (arith, length-append hosts (range (suc k) a), equal) in
            sweep-full fuel p a hosts first equal ∙ rw bound refl
      ]

  -- Outside of the prefix the loop ends.
  sweep-outside :
      (fuel : ℕ) (p : Prefix) (a : ℕ) (hosts : List String)
      → contains p a ≡ false
      → 1 ≤ fuel
      → sweep fuel p a hosts ≡ some (ok hosts)
  unfolding sweep
  sweep-outside zero p a hosts c h = absurd (omega arith)
  sweep-outside (suc fuel) p a hosts c h = rw c refl

  sweep-skip :
      (fuel : ℕ) (p : Prefix) (a : ℕ) (hosts : List String)
      → contains p a ≡ true
      → is_skipped p a ≡ true
      → sweep (suc fuel) p a hosts ≡ sweep fuel p (suc a) hosts
  unfolding sweep
  sweep-skip fuel p a hosts c s = rw c (rw s refl)

  size-positive : (p : Prefix) → 1 ≤ size p
  size-positive p = one-le-pow (32 - p.bits) 2 (omega arith)

  size-four : (p : Prefix) → p.bits < 31 → 4 ≤ size p
  size-four p h = pow-le-pow_right {n = 2} (omega arith) {i = 2} {j = 32 - p.bits} (omega arith)

  -- A prefix of /31 or /32: each of its addresses.
  short-Inner :
      (p : Prefix) (b : ℕ) → ltb p.bits 31 ≡ false → p.addr ≤ b → b < size p + p.addr → Inner p b
  unfolding is_skipped
  short-Inner p b h f g = (ground (arith, f, g), rw h refl)

  sweep_prefix-short :
      (p : Prefix) (hosts : List String)
      → ltb p.bits 31 ≡ false
      → length hosts ≤ max_sweep_hosts
      → sweep_prefix p hosts ≡ some (limited (hosts ++ range (size p) p.addr))
  unfolding sweep_prefix
  sweep_prefix-short p hosts h l =
      sweep-range (size p) sweep_fuel p p.addr (size p + p.addr) hosts refl
        (λ b f g. short-Inner p b h f g)
        (λ fuel hs f. sweep-outside fuel p (size p + p.addr) hs (ground arith) (omega arith)) l
        (omega arith)

  -- A shorter prefix: without its first and its last address.
  abbrev last_of : Prefix → ℕ
  last_of p = (size p + p.addr) - 1

  edge-skipped :
      (p : Prefix) (b : ℕ)
      → ltb p.bits 31 ≡ true
      → (b ≡ p.addr) ⊎ (b ≡ last_of p)
      → (contains p b ≡ true) × (is_skipped p b ≡ true)
  unfolding is_skipped is_last_in_prefix
  edge-skipped p b h e =
      let four = size-four p (ground (arith, h)) in
      (ground (arith, four, e), rw h (ground (arith, four, e)))

  long-Inner :
      (p : Prefix) (b : ℕ) → ltb p.bits 31 ≡ true → suc p.addr ≤ b → b < last_of p → Inner p b
  unfolding is_skipped is_last_in_prefix
  long-Inner p b h f g = (ground (arith, f, g), rw h (ground (arith, f, g)))

  sweep-last :
      (fuel : ℕ) (p : Prefix) (hosts : List String)
      → ltb p.bits 31 ≡ true
      → 2 ≤ fuel
      → sweep fuel p (last_of p) hosts ≡ some (ok hosts)
  sweep-last zero p hosts h f = absurd (omega arith)
  sweep-last (suc fuel) p hosts h f =
      let (c, s) = edge-skipped p (last_of p) h (inr refl) in
      sweep-skip fuel p (last_of p) hosts c s
      ∙ sweep-outside fuel p (suc (last_of p)) hosts
          (ground (arith, size-four p (ground (arith, h)))) (omega arith)

  sweep_prefix-long :
      (p : Prefix) (hosts : List String)
      → ltb p.bits 31 ≡ true
      → length hosts ≤ max_sweep_hosts
      → sweep_prefix p hosts ≡ some (limited (hosts ++ range (size p - 2) (suc p.addr)))
  unfolding sweep_prefix
  sweep_prefix-long p hosts h l =
      let (c, s) = edge-skipped p p.addr h (inl refl) in
      let four = size-four p (ground (arith, h)) in
      sweep-skip (max_sweep_hosts + 3) p p.addr hosts c s
      ∙ sweep-range (size p - 2) (max_sweep_hosts + 3) p (suc p.addr) (last_of p) hosts
          (omega (arith, four)) (λ b f g. long-Inner p b h f g)
          (λ fuel hs f. sweep-last fuel p hs h f) l (omega arith)

  sweep_prefix_lem :
      (p : Prefix) (hosts : List String)
      → length hosts ≤ max_sweep_hosts
      → sweep_prefix p hosts ≡ some (limited (hosts ++ hosts_of p))
  sweep_prefix_lem p hosts l = elim (Bool-cases (ltb p.bits 31)) [
    | inl e ↦ sweep_prefix-long p hosts e l ∙ rw e refl
    | inr e ↦ sweep_prefix-short p hosts e l ∙ rw e refl
  ]

  -- The expansion by ranges: an error of the first bad CIDR, or of too many hosts.
  abbrev pub joined :
      (List String → Result String (List String))
      → Result String (List String)
      → Result String (List String)
  joined rest (err e) = err e
  joined rest (ok hosts) = rest hosts

  abbrev pub expanded :
      (List String → Result String (List String))
      → String
      → Result String Prefix
      → List String
      → Result String (List String)
  expanded rest c (err e) hosts =
      err (str_append "discovery: bad CIDR " (str_append (n.quoted c) (str_append ": " e)))
  expanded rest c (ok p) hosts =
      if not p.is4
      then err (str_append "discovery: only IPv4 CIDRs supported, got " (n.quoted c))
      else joined rest (limited (hosts ++ hosts_of (masked p)))

  abbrev pub expand_ranges : List String → List String → Result String (List String)
  expand_ranges [] hosts = ok hosts
  expand_ranges (c ∷ cs) hosts = expanded (expand_ranges cs) c (n.parse_prefix c) hosts

  next-limited :
      (rest : List String → Option (Result String (List String)))
      (ranges : List String → Result String (List String)) (hosts : List String)
      → ((hs : List String) → length hs ≤ max_sweep_hosts → rest hs ≡ some (ranges hs))
      → expand_next rest (some (limited hosts)) ≡ some (joined ranges (limited hosts))
  unfolding expand_next
  next-limited rest ranges hosts h = elim (Bool-cases (ltb max_sweep_hosts (length hosts))) [
    | inl e ↦ rw e refl
    | inr e ↦ rw e (h hosts (ground (arith, e)))
  ]

  refused_or :
      (b : Bool) (text : String) (m : Option (Result String (List String)))
      (r : Result String (List String))
      → m ≡ some r
      → (if b then some (err text) else m) ≡ some (if b then err text else r)
  refused_or true text m r h = refl
  refused_or false text m r h = h

  parsed_lem :
      (rest : List String → Option (Result String (List String)))
      (ranges : List String → Result String (List String)) (c : String) (r : Result String Prefix)
      (hosts : List String)
      → ((hs : List String) → length hs ≤ max_sweep_hosts → rest hs ≡ some (ranges hs))
      → length hosts ≤ max_sweep_hosts
      → parsed rest c r hosts ≡ some (expanded ranges c r hosts)
  unfolding parsed
  parsed_lem rest ranges c (err e) hosts h l = refl
  parsed_lem rest ranges c (ok p) hosts h l =
      refused_or (not p.is4) _ (expand_next rest (sweep_prefix (masked p) hosts)) _ (
        ap (expand_next rest) (sweep_prefix_lem (masked p) hosts l)
        ∙ next-limited rest ranges (hosts ++ hosts_of (masked p)) h)

  expand_lem :
      (cs hosts : List String)
      → length hosts ≤ max_sweep_hosts
      → expand cs hosts ≡ some (expand_ranges cs hosts)
  unfolding expand
  expand_lem [] hosts l = refl
  expand_lem (c ∷ cs) hosts l =
      parsed_lem (expand cs) (expand_ranges cs) c (n.parse_prefix c) hosts
        (λ hs k. expand_lem cs hs k) l

  -- The loops of ExpandCIDRs return, with what its specification by ranges of addresses says: in order,
  -- each prefix's addresses, without the first and the last of a prefix shorter than /31; or the error of
  -- the first CIDR that is bad or with which there are more than 4096 hosts.
  pub expand_cidrs-Refines :
      (cidrs : List String) → expand_cidrs cidrs ≡ some (expand_ranges cidrs [])
  unfolding expand_cidrs
  expand_cidrs-Refines cidrs = expand_lem cidrs [] (omega arith)
