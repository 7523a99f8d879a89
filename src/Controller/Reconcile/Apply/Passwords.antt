-- ===== src/Controller/Reconcile/Apply/Passwords.antt =====
-- wifiPayload: what the passwords change.
use mathlib.Core.Path.{subst}
use shelly_operator.Base.{
  ap, ◌∙◌, true, false, String, Option, none, some, ◌≡◌, refl, ◌==◌, if◌then◌else◌, eq_iff, arith,
  Bool-cases, inl, inr,
}
use shelly_operator.Json as Json
use shelly_operator.Json.{Value, Fields, obj, str, null, bool, num, arr, get-put}
use shelly_operator.Controller.Reconcile.Apply.{inject_into, inject, wifi_payload}

module _ {F : Type 0} where
  -- A network's map with its password, where there is one; anything else is left as it is.
  abbrev pub with_pass : String → Option (Value F) → Option (Value F)
  with_pass pass (some (obj m)) =
      if pass == "" then some (obj m) else some (obj (Json.put "pass" (str pass) m))
  with_pass pass v = v

  into-get :
      (key k pass : String) (v : Option (Value F)) (out : Fields F)
      → (pass == "") ≡ false
      → Json.get key out ≡ v
      → Json.get k (inject_into key pass v out)
        ≡ (if key == k then with_pass pass v else Json.get k out)
  unfolding inject_into
  into-get key k pass (some (obj m)) out e h = rw (get-put key k _ out) (rw e refl)
  into-get key k pass none out e h = ground (arith, eq_iff key k, h)
  into-get key k pass (some null) out e h = ground (arith, eq_iff key k, h)
  into-get key k pass (some (bool b)) out e h = ground (arith, eq_iff key k, h)
  into-get key k pass (some (num x)) out e h = ground (arith, eq_iff key k, h)
  into-get key k pass (some (str s)) out e h = ground (arith, eq_iff key k, h)
  into-get key k pass (some (arr xs)) out e h = ground (arith, eq_iff key k, h)

  without_pass : (pass : String) (v : Option (Value F)) → (pass == "") ≡ true → with_pass pass v ≡ v
  without_pass pass (some (obj m)) e = rw e refl
  without_pass pass none e = refl
  without_pass pass (some null) e = refl
  without_pass pass (some (bool b)) e = refl
  without_pass pass (some (num x)) e = refl
  without_pass pass (some (str s)) e = refl
  without_pass pass (some (arr xs)) e = refl

  inject-get :
      (key k pass : String) (out : Fields F)
      → Json.get k (inject key pass out)
        ≡ (if key == k then with_pass pass (Json.get k out) else Json.get k out)
  unfolding inject
  inject-get key k pass out = elim (Bool-cases (pass == "")) [
    | inl e ↦ rw e (ground (arith, without_pass pass (Json.get k out) e))
    | inr e ↦ rw e (ground (arith, eq_iff key k, into-get key k pass (Json.get key out) out e refl))
  ]

  -- wifiPayload changes at most the entries "sta" and "sta1": where one is a map and its password is not
  -- empty, the password is added as "pass", in place of any value there; every other entry is as rendered.
  pub wifi_payload-get :
      (rendered : Fields F) (sta sta1 k : String)
      → Json.get k (wifi_payload rendered (sta, sta1)) ≡ (
          if "sta" == k
          then with_pass sta (Json.get k rendered)
          else if "sta1" == k
          then with_pass sta1 (Json.get k rendered)
          else Json.get k rendered)
  unfolding wifi_payload
  wifi_payload-get rendered sta sta1 k = elim (Bool-cases ("sta1" == k)) [
    | inl e ↦ subst Holds ((eq_iff "sta1" k).0 e) at_sta1
    | inr e ↦
        let there = inject-get "sta1" k sta1 (inject "sta" sta rendered) in
        rw e ((rw e at there) ∙ inject-get "sta" k sta rendered)
  ]
    where
      Holds : String → Type 0
      Holds j = Json.get j (inject "sta1" sta1 (inject "sta" sta rendered)) ≡ (
          if "sta" == j
          then with_pass sta (Json.get j rendered)
          else if "sta1" == j
          then with_pass sta1 (Json.get j rendered)
          else Json.get j rendered)

      at_sta1 : Holds "sta1"
      at_sta1 =
          inject-get "sta1" "sta1" sta1 (inject "sta" sta rendered)
          ∙ ap (with_pass sta1) (inject-get "sta" "sta1" sta rendered)
