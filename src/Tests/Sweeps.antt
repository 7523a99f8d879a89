-- ===== src/Tests/Sweeps.antt =====
-- A sweep of a prefix of four addresses, in a namespace with a device that was long not seen.
use shelly_operator.Base.{
  int32, refl, negsuc, ◌-◌, ◌^◌, ℕ, suc, ◌*◌, ◌≡◌, pos, true, false, none, some, [], ◌∷◌, ◌==◌, ok,
  err, itoa, if◌then◌else◌, ◌≤◌,
}
use shelly_operator.Api.Server.{not_found}
use shelly_operator.Api.Device.{ShellyDevice}
use shelly_operator.Discovery.Cidr.{Netip, expand_cidrs}
use shelly_operator.Discovery.Cidr.Ranges.{expand_cidrs-Refines}
use shelly_operator.Discovery.Store.{DeviceInfo, Outside, Names}
use shelly_operator.Discovery.Upsert.{new_device}
use shelly_operator.Discovery.Sweeper.{Sweeper, second, offline_after_of, run_once}
use shelly_operator.Discovery.Sweeper.Ownership.{Owned, Writes, run_once-Owned}

instance abbrev netip : Netip
netip = record {
  parse_prefix = λ c. ok (record { is4 = true; addr = 10; bits = 30 });
  addr_text = λ a. itoa a;
  quoted = λ c. c;
}

instance abbrev names : Names
names = record { lower = λ s. s; itoa = λ g. "2" }

abbrev info : DeviceInfo
info = record {
  name = "plug";
  mac = "AA:BB";
  model = "Plug";
  gen = pos 2;
  firmware = "1.0";
  app = "Plug";
  auth_enabled = false;
}

abbrev old_device : ShellyDevice
old_device =
    let dev = new_device "old" [] in
    record dev { status = record dev.status { online = true; last_seen = some 5 } }

-- Of the hosts 9 and 10 the first answers; the API server keeps nothing. The state counts the steps.
abbrev outside : Outside ℕ
outside = record {
  probe = λ host s. (if host == "9" then ok info else err "timeout", suc s);
  order = λ hosts. hosts;
  now = λ s. (1000 * second, suc s);
  cancelled = λ s. (none, suc s);
  get = λ name s. (err (not_found name), suc s);
  list = λ s. (ok (old_device ∷ []), suc s);
  create = λ dev s. (ok dev, suc s);
  update = λ dev s. (ok dev, suc s);
  status_update = λ dev s. (ok dev, suc s);
}

abbrev sweeper : Sweeper
sweeper = record {
  cidrs = "10.0.0.10/30" ∷ [];
  extra_hosts = [];
  interval = pos 0;
  offline_after = pos 0;
}

expand_cidrs-Refines_example : expand_cidrs ("10.0.0.10/30" ∷ []) ≡ some (ok ("9" ∷ "10" ∷ []))
unfolding itoa
expand_cidrs-Refines_example = expand_cidrs-Refines ("10.0.0.10/30" ∷ [])

run_once-Owned_example :
    (second ≤ offline_after_of sweeper)
    × Writes outside sweeper 0
        (Owned (1000 * second) (offline_after_of sweeper))
        (run_once outside sweeper)
run_once-Owned_example = run_once-Owned outside sweeper 0

-- A generation that 32 bits do not hold wraps around.
wrapped_gen : int32 (pos (2 ^ 31)) ≡ negsuc (2 ^ 31 - 1)
unfolding int32
wrapped_gen = refl

kept_gen : int32 (negsuc 4) ≡ negsuc 4
unfolding int32
kept_gen = refl
