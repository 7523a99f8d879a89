-- ===== src/Discovery/Cidr.antt =====
-- internal/discovery/cidr.go: the addresses that a sweep probes.
pub mod Ranges
use Prim.Native.String.{◌++◌ as str_append}
use shelly_operator.Base.{
  ℕ, zero, suc, ◌+◌, ◌-◌, ◌%◌, ◌^◌, Bool, true, false, String, Option, none, some, List, [], ◌∷◌,
  ◌++◌, ◌&&◌, ◌||◌, not, eqb, ltb, leb, length, itoa, Result, ok, err, if◌then◌else◌,
}

-- netip.Prefix: an IPv4 address is a number below 2^32, and 2^32 stands for the invalid address, which is
-- Next of the last one and which no prefix contains. Of a prefix of IPv6 only that it is one is kept.
pub record Prefix : Type 0 where
  pub is4 : Bool
  pub addr : ℕ
  pub bits : ℕ

-- Package net/netip, whose parser gives at most 32 bits for IPv4, and the verb %q.
pub record Netip : Type 0 where
  pub parse_prefix : String → Result String Prefix
  pub addr_text : ℕ → String
  pub quoted : String → String

-- The number of addresses of a prefix.
abbrev pub size : Prefix → ℕ
size p = 2 ^ (32 - p.bits)

abbrev pub masked : Prefix → Prefix
masked p = record p { addr = p.addr - p.addr % size p }

abbrev pub contains : Prefix → ℕ → Bool
contains p a = leb p.addr a && ltb a (p.addr + size p)

abbrev pub max_sweep_hosts : ℕ
max_sweep_hosts = 4096

unfoldable pub is_last_in_prefix : ℕ → Prefix → Bool
is_last_in_prefix a p = not (contains p (suc a))

abbrev pub too_many : String
too_many =
    str_append "discovery: CIDRs expand to more than " (str_append (itoa max_sweep_hosts) " hosts")

-- What the loop over the addresses returns: the hosts, or that there are too many. None stands for no
-- more fuel.
module _ ⦃n : Netip⦄ where
  unfoldable pub is_skipped : Prefix → ℕ → Bool
  unfolding is_last_in_prefix
  is_skipped p a = ltb p.bits 31 && (eqb a p.addr || is_last_in_prefix a p)

  unfoldable pub sweep : ℕ → Prefix → ℕ → List String → Option (Result String (List String))
  unfolding is_skipped
  sweep zero p a hosts = none
  sweep (suc fuel) p a hosts =
      let again = sweep fuel p (suc a) in
      let more = hosts ++ n.addr_text a ∷ [] in
      if not (contains p a)
      then some (ok hosts)
      else if is_skipped p a
      then again hosts
      else if ltb max_sweep_hosts (length more)
      then some (err too_many)
      else again more

  -- Every round but two appends a host, and no more than one host too many is appended.
  abbrev pub sweep_fuel : ℕ
  sweep_fuel = max_sweep_hosts + 4

  unfoldable pub sweep_prefix : Prefix → List String → Option (Result String (List String))
  unfolding sweep
  sweep_prefix p hosts = sweep sweep_fuel p p.addr hosts

  unfoldable pub expand_next :
      (List String → Option (Result String (List String)))
      → Option (Result String (List String))
      → Option (Result String (List String))
  expand_next rest none = none
  expand_next rest (some (err e)) = some (err e)
  expand_next rest (some (ok hosts)) = rest hosts

  unfoldable pub parsed :
      (List String → Option (Result String (List String)))
      → String
      → Result String Prefix
      → List String
      → Option (Result String (List String))
  unfolding expand_next sweep_prefix
  parsed rest c (err e) hosts =
      some (err (str_append "discovery: bad CIDR " (str_append (n.quoted c) (str_append ": " e))))
  parsed rest c (ok p) hosts =
      if not p.is4
      then some (err (str_append "discovery: only IPv4 CIDRs supported, got " (n.quoted c)))
      else expand_next rest (sweep_prefix (masked p) hosts)

  -- The loop over the CIDRs.
  unfoldable pub expand : List String → List String → Option (Result String (List String))
  unfolding parsed
  expand [] hosts = some (ok hosts)
  expand (c ∷ cs) hosts = parsed (expand cs) c (n.parse_prefix c) hosts

  unfoldable pub expand_cidrs : List String → Option (Result String (List String))
  unfolding expand
  expand_cidrs cidrs = expand cidrs []
