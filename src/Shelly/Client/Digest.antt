-- ===== src/Shelly/Client/Digest.antt =====
-- The nonce counts that a client sends.
use mathlib.Core.Path.{subst}
use shelly_operator.Base.{
  ℕ, zero, suc, ◌+◌, ◌%◌, Bool, true, false, String, Option, none, some, List, [], ◌∷◌, ◌≡◌, ◌⊎◌,
  inl, inr, refl, ◌∙◌, not, eqb, ◌==◌, ◌||◌, Result, ok, err, arith, Bool-cases, if◌then◌else◌,
}
use shelly_operator.Base.Assoc
use shelly_operator.Api.Server.{Act, ◌>>=◌}
use shelly_operator.Shelly.Errors.{CallError}
use shelly_operator.Shelly.Methods.{Client, Texts}
use shelly_operator.Shelly.Client.{
  DigestState, Http, Wire, Target, Response, Authorization, set_challenge, authorize, auth_header,
  send_with, send, send_again, after_send, post, is_final, wait_retry, retry_or, after_post,
  post_loop, post_retrying, call, nc_bound, challenge_fields, field_of,
}

-- The newest header that was sent.
abbrev pub latest : List (Option Authorization) → Option Authorization
latest [] = none
latest (none ∷ sent) = latest sent
latest (some a ∷ sent) = some a

-- The next header under the same nonce.
abbrev pub Continues : Option Authorization → Authorization → Type 0
Continues none a = ⊥
Continues (some b) a = (a.nonce ≡ b.nonce) × (a.nc ≡ (b.nc + 1) % nc_bound)

-- Each header has count one, or continues the one before.
abbrev pub Counted : List (Option Authorization) → Type 0
Counted [] = Unit
Counted (none ∷ sent) = Counted sent
Counted (some a ∷ sent) = ((a.nc ≡ 1) ⊎ Continues (latest sent) a) × Counted sent

-- The cached challenge is new, or it is that of the newest header.
abbrev pub Cached : Option DigestState → Option Authorization → Type 0
Cached none last = Unit
Cached (some s) none = s.nc ≡ 0
Cached (some s) (some a) = (s.nc ≡ 0) ⊎ ((s.nonce ≡ a.nonce) × (s.nc ≡ a.nc))

abbrev pub Tracked : {S : Type 0} → Wire S → Type 0
Tracked w = Counted w.sent × Cached w.auth (latest w.sent)

Cached-new : (s : DigestState) (last : Option Authorization) → s.nc ≡ 0 → Cached (some s) last
Cached-new s none h = h
Cached-new s (some a) h = inl h

Cached-next :
    (s : DigestState) (last : Option Authorization) (a : Authorization)
    → a.nonce ≡ s.nonce
    → a.nc ≡ (s.nc + 1) % nc_bound
    → Cached (some s) last
    → (a.nc ≡ 1) ⊎ Continues last a
Cached-next s none a n h k = inl (omega arith)
Cached-next s (some b) a n h (inl k) = inl (omega arith)
Cached-next s (some b) a n h (inr (m, k)) = inr (n ∙ m, omega arith)

module _ {S A : Type 0} where
  abbrev Keeps : Act (Wire S) A → Type 0
  Keeps m = (w : Wire S) → Tracked w → Tracked (m w).1

Keeps-bind :
    {S A B : Type 0} (m : Act (Wire S) A) (f : A → Act (Wire S) B)
    → Keeps m
    → ((a : A) → Keeps (f a))
    → Keeps (m >>= f)
unfolding ◌>>=◌
Keeps-bind m f h k w kept = k (m w).0 (m w).1 (h w kept)

module _ {F S : Type 0} ⦃t : Texts⦄ (http : Http F S) (c : Client) where
  set_kept :
      (b : Bool) (e : CallError) (s : DigestState) (w : Wire S)
      → s.nc ≡ 0
      → Tracked w
      → Tracked
          (if◌then◌else◌ {A = Option CallError × Wire S} b
            (some e, w)
            (none, record w { auth = some s })).1
  set_kept true e s w h kept = kept
  set_kept false e s w h (counted, cached) = (counted, Cached-new s (latest w.sent) h)

  challenge-Keeps : (header : String) → Keeps (set_challenge http c header)
  unfolding set_challenge
  challenge-Keeps header w kept =
      let f = challenge_fields (http.submatches header) [] in
      let realm = field_of (Assoc.get "realm" f) in
      let nonce = field_of (Assoc.get "nonce" f) in
      set_kept (realm == "" || nonce == "") _ (record { realm = realm; nonce = nonce; nc = 0 }) w
        refl kept

  -- A request with the header of the cached challenge.
  send_from :
      (payload : String) (s : Option DigestState) (w : Wire S)
      → Counted w.sent
      → Cached s (latest w.sent)
      → s ≡ w.auth
      → let (a, w') = authorize http c s w in Tracked (send_with http c payload a w').1
  unfolding authorize send_with
  send_from payload none w counted cached e =
      (counted, subst (λ s. Cached s (latest w.sent)) e cached)
  send_from payload (some s) w counted cached e = elim (Bool-cases (c.password == "")) [
    | inl p ↦ rw p (counted, subst (λ x. Cached x (latest w.sent)) e cached)
    | inr p ↦ rw p ((Cached-next s (latest w.sent) _ refl refl cached, counted), inr (refl, refl))
  ]

  send-Keeps : (payload : String) → Keeps (send http c payload)
  unfolding send auth_header ◌>>=◌
  send-Keeps payload w (counted, cached) = send_from payload w.auth w counted cached refl

  again-Keeps : (payload : String) (e : Option CallError) → Keeps (send_again http c payload e)
  unfolding send_again
  again-Keeps payload (some e) w kept = kept
  again-Keeps payload none w kept = send-Keeps payload w kept

  after_send-Keeps :
      (payload : String) (r : Result CallError Response) → Keeps (after_send http c payload r)
  unfolding after_send
  after_send-Keeps payload (err e) w kept = kept
  after_send-Keeps payload (ok resp) w kept =
      elim (Bool-cases (not (eqb resp.code 401) || c.password == "")) [
        | inl e ↦ rw e kept
        | inr e ↦ rw e (
            Keeps-bind (set_challenge http c resp.challenge) (send_again http c payload)
              (challenge-Keeps resp.challenge) (again-Keeps payload) w kept)
      ]

  post-Keeps : (payload : String) → Keeps (post http c payload)
  unfolding post
  post-Keeps payload =
      Keeps-bind (send http c payload) (after_send http c payload) (send-Keeps payload)
        (after_send-Keeps payload)

  wait-Keeps : Keeps (wait_retry http c)
  unfolding wait_retry
  wait-Keeps w kept = kept

  abbrev Looped : Type 0
  Looped = Act (Wire S) (Option (Result CallError Response))

  retry-Keeps : (again : Looped) (b : Option String) → Keeps again → Keeps (retry_or http c again b)
  unfolding retry_or
  retry-Keeps again (some text) h w kept = kept
  retry-Keeps again none h w kept = h w kept

  after_post-Keeps :
      (again : Looped) (attempt : ℕ) (r : Result CallError Response)
      → Keeps again
      → Keeps (after_post http c again attempt r)
  unfolding after_post
  after_post-Keeps again attempt r h w kept = elim (Bool-cases (is_final http c attempt r)) [
    | inl e ↦ rw e kept
    | inr e ↦ rw e (
        Keeps-bind (wait_retry http c) (retry_or http c again) wait-Keeps
          (λ b. retry-Keeps again b h) w kept)
  ]

  post_loop-Keeps :
      (fuel attempt : ℕ) (payload : String) → Keeps (post_loop http c fuel attempt payload)
  unfolding post_loop
  post_loop-Keeps zero attempt payload w kept = kept
  post_loop-Keeps (suc fuel) attempt payload w kept =
      let again = post_loop http c fuel (suc attempt) payload in
      Keeps-bind (post http c payload) (after_post http c again attempt) (post-Keeps payload)
        (λ r. after_post-Keeps again attempt r (post_loop-Keeps fuel (suc attempt) payload)) w kept

  -- Where each digest header that the client has sent has nonce count one or continues the one before, with
  -- the same nonce and the next count in 32 bits, and the cached challenge is new or that of the newest
  -- header, this holds after one more Client.Call, whatever the device answers.
  pub call-Tracked :
      {A : Type 0} (target : Target F A) (method : String) (payload : Result String String)
      (w : Wire S)
      → Tracked w
      → Tracked (call http c target method payload w).1
  unfolding call post_retrying ◌>>=◌
  call-Tracked target method (err text) w kept = kept
  call-Tracked target method (ok payload) w kept = post_loop-Keeps 3 0 payload w kept
