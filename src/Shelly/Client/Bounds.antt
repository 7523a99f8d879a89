-- ===== src/Shelly/Client/Bounds.antt =====
-- How many requests a call sends.
use shelly_operator.Base.{
  ℕ, zero, suc, ◌+◌, ◌*◌, ◌≤◌, ◌<◌, false, String, Option, none, some, ◌≡◌, refl, ap, not, eqb,
  ◌==◌, ◌||◌, Result, ok, err, length, arith, Bool-cases, inl, inr,
}
use shelly_operator.Api.Server.{Act, ◌>>=◌}
use shelly_operator.Shelly.Errors.{CallError}
use shelly_operator.Shelly.Methods.{Client, Texts}
use shelly_operator.Shelly.Client.{
  DigestState, Http, Wire, Target, Response, set_challenge, authorize, auth_header, send_with, send,
  send_again, after_send, post, is_final, wait_retry, retry_or, after_post, post_loop,
  post_retrying, read_response, call,
}

module _ {F S : Type 0} ⦃t : Texts⦄ (http : Http F S) (c : Client) where
  authorize-sent : (s : Option DigestState) (w : Wire S) → (authorize http c s w).1.sent ≡ w.sent
  unfolding authorize
  authorize-sent none w = refl
  authorize-sent (some s) w = elim (Bool-cases (c.password == "")) [
    | inl e ↦ rw e refl
    | inr e ↦ rw e refl
  ]

  challenge-sent : (header : String) (w : Wire S) → (set_challenge http c header w).1.sent ≡ w.sent
  unfolding set_challenge
  challenge-sent header w = ground arith

  send-length :
      (payload : String) (w : Wire S) → length (send http c payload w).1.sent ≡ suc (length w.sent)
  unfolding send auth_header send_with ◌>>=◌
  send-length payload w = ap (λ l. suc (length l)) (authorize-sent w.auth w)

  again-length :
      (payload : String) (e : Option CallError) (w : Wire S)
      → length (send_again http c payload e w).1.sent ≤ suc (length w.sent)
  unfolding send_again
  again-length payload (some e) w = omega arith
  again-length payload none w = omega (arith, send-length payload w)

  after_send-length :
      (payload : String) (r : Result CallError Response) (w : Wire S)
      → length (after_send http c payload r w).1.sent ≤ suc (length w.sent)
  unfolding after_send ◌>>=◌
  after_send-length payload (err e) w = omega arith
  after_send-length payload (ok resp) w =
      elim (Bool-cases (not (eqb resp.code 401) || c.password == "")) [
        | inl e ↦ rw e (omega arith)
        | inr e ↦
            let challenged = set_challenge http c resp.challenge w in
            let kept = ap length (challenge-sent resp.challenge w) in
            rw e (omega (arith, again-length payload challenged.0 challenged.1, kept))
      ]

  -- A request, and one more after a challenge.
  post-length :
      (payload : String) (w : Wire S) → length (post http c payload w).1.sent ≤ 2 + length w.sent
  unfolding post ◌>>=◌
  post-length payload w =
      let first = send http c payload w in
      omega (arith, after_send-length payload first.0 first.1, send-length payload w)

  -- The run has a result, and sent at most so many requests.
  abbrev pub Ends : {A : Type 0} → ℕ → Wire S → Option A × Wire S → Type 0
  Ends {A = A} n w p = (x : A) × (p.0 ≡ some x) × (length p.1.sent ≤ n + length w.sent)

  abbrev Looped : Type 0
  Looped = Act (Wire S) (Option (Result CallError Response))

  retry-Ends :
      (n : ℕ) (again : Looped) (cancelled : Option String) (w : Wire S)
      → Ends n w (again w)
      → Ends n w (retry_or http c again cancelled w)
  unfolding retry_or
  retry-Ends n again (some text) w h = (_, refl, omega arith)
  retry-Ends n again none w h = h

  after_post-Ends :
      (n attempt : ℕ) (again : Looped) (r : Result CallError Response) (w : Wire S)
      → (is_final http c attempt r ≡ false → (v : Wire S) → Ends n v (again v))
      → Ends n w (after_post http c again attempt r w)
  unfolding after_post wait_retry ◌>>=◌
  after_post-Ends n attempt again r w h = elim (Bool-cases (is_final http c attempt r)) [
    | inl e ↦ rw e (r, refl, omega arith)
    | inr e ↦
        let waited = wait_retry http c w in
        rw e (retry-Ends n again waited.0 waited.1 (h e waited.1))
  ]

  not_final :
      (attempt : ℕ) (r : Result CallError Response)
      → is_final http c attempt r ≡ false
      → attempt < 2
  unfolding is_final
  not_final attempt (err e) h = cc
  not_final attempt (ok resp) h = ground arith

  post_loop-Ends :
      (fuel attempt : ℕ) (payload : String) (w : Wire S)
      → attempt ≤ 2
      → 2 < fuel + attempt
      → Ends (2 * fuel) w (post_loop http c fuel attempt payload w)
  unfolding post_loop ◌>>=◌
  post_loop-Ends zero attempt payload w a b = absurd (omega arith)
  post_loop-Ends (suc fuel) attempt payload w a b =
      let posted = post http c payload w in
      let (x, e, l) =
        after_post-Ends (2 * fuel) attempt (post_loop http c fuel (suc attempt) payload) posted.0
          posted.1
          (λ h v.
            let small = not_final attempt posted.0 h in
            post_loop-Ends fuel (suc attempt) payload v (omega arith) (omega arith)) in
      (x, e, omega (arith, l, post-length payload w))

  -- Client.Call returns, whatever the device answers, and sends at most six requests: three attempts,
  -- with one more request for a digest challenge in each.
  pub call-Ends :
      {A : Type 0} (target : Target F A) (method : String) (payload : Result String String)
      (w : Wire S)
      → Ends 6 w (call http c target method payload w)
  unfolding call post_retrying ◌>>=◌
  call-Ends target method (err text) w = (_, refl, omega arith)
  call-Ends target method (ok payload) w =
      let (x, e, l) = post_loop-Ends 3 0 payload w (omega arith) (omega arith) in
      (read_response http c target method x, rw e refl, l)
