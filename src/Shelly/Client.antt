-- ===== src/Shelly/Client.antt =====
-- shelly/client.go and digest.go: one RPC over HTTP, with the answer to a digest challenge and the
-- retries on status 429.
pub mod Bounds
pub mod Digest
use Prim.Native.String.{◌++◌ as str_append}
use shelly_operator.Base.{
  ℕ, zero, suc, ◌+◌, ◌%◌, ◌^◌, ℤ, Bool, true, false, String, Option, none, some, List, [], ◌∷◌,
  ◌==◌, ◌&&◌, ◌||◌, not, eqb, leb, Result, ok, err, if◌then◌else◌,
}
use shelly_operator.Base.Assoc
use shelly_operator.Base.Assoc.{Assoc}
use shelly_operator.Json.{Value}
use shelly_operator.Api.Server.{Act, done, ◌>>=◌, ◌>>◌}
use shelly_operator.Shelly.Errors.{
  CallError, rpc_error, auth_error, status_error, transport, invalid, wrapped, is_auth_error,
}
use shelly_operator.Shelly.Methods.{Client, Texts}

-- The cached challenge: nc counts the requests sent under its nonce, in 32 bits.
pub record DigestState : Type 0 where
  pub realm : String
  pub nonce : String
  pub nc : ℕ

-- The fields of the Authorization header that the cached challenge and the password determine, and
-- cnonce; the others are constants.
pub record Authorization : Type 0 where
  pub realm : String
  pub nonce : String
  pub nc : ℕ
  pub cnonce : String
  pub response : String

-- Of an answer, what the client reads: the status, the header WWW-Authenticate and the body.
pub record Response : Type 0 where
  pub code : ℕ
  pub status : String
  pub challenge : String
  pub body : String

-- The device's JSON-RPC answer: an error, or a result where it holds one.
pub data RpcResponse (F : Type 0) : Type 0 where
  failed : ℤ → String → RpcResponse F
  answered : Option (Value F) → RpcResponse F

-- What the pointer `result` of a call leads to: its value before the call, and Unmarshal into it, with the
-- text of an error. A nil pointer takes no value and gives no error.
pub record Target (F A : Type 0) : Type 0 where
  pub initial : A
  pub unmarshal : Value F → Result String A

-- Packages net/http, encoding/json, regexp, crypto/rand and the context: a request to the device, which
-- gets an answer or the text of an error; the wait before a retry, and the context's error where it was
-- done before the wait ended; the submatches of digestFieldRe; the eight hexadecimal digits of a number;
-- the verb %q; and the part of a body that a reader limited to 512 bytes gives.
pub record Http (F S : Type 0) : Type 0 where
  pub send : String → Option Authorization → Act S (Result String Response)
  pub wait : Act S (Option String)
  pub random_hex : Act S String
  pub decode : String → Result String (RpcResponse F)
  pub submatches : String → List (String × String × String)
  pub hex8 : ℕ → String
  pub quoted : String → String
  pub limited : String → String

-- The client's cached challenge beside the surroundings, and the headers that were sent, the newest
-- first; a request without one is none.
pub record Wire (S : Type 0) : Type 0 where
  pub outside : S
  pub auth : Option DigestState
  pub sent : List (Option Authorization)

abbrev pub too_many_requests_retries : ℕ
too_many_requests_retries = 2

-- The loop of setChallenge over the submatches.
unfoldable pub challenge_fields : List (String × String × String) → Assoc String → Assoc String
challenge_fields [] f = f
challenge_fields ((name, quoted, plain) ∷ ms) f =
    challenge_fields ms (Assoc.put name (if quoted == "" then plain else quoted) f)

abbrev pub field_of : Option String → String
field_of none = ""
field_of (some v) = v

abbrev pub nc_bound : ℕ
nc_bound = 2 ^ 32

module _ {F S : Type 0} ⦃t : Texts⦄ (http : Http F S) (c : Client) where
  unfoldable pub set_challenge : String → Act (Wire S) (Option CallError)
  unfolding challenge_fields
  set_challenge header w =
      let f = challenge_fields (http.submatches header) [] in
      let realm = field_of (Assoc.get "realm" f) in
      let nonce = field_of (Assoc.get "nonce" f) in
      if realm == "" || nonce == ""
      then (
        some (
            invalid (
              str_append "shelly: " (
                str_append c.host
                  (str_append ": unsupported auth challenge " (http.quoted header))))),
        w,
      )
      else (none, record w { auth = some (record { realm = realm; nonce = nonce; nc = 0 }) })

  -- The response of the digest: a hash of hashes.
  unfoldable pub digest_response : DigestState → String → String
  digest_response s cnonce =
      let ha1 =
        t.sha256hex (str_append "admin:" (str_append s.realm (str_append ":" c.password))) in
      let ha2 = t.sha256hex "POST:/rpc" in
      t.sha256hex (
        str_append ha1 (
          str_append ":" (
            str_append s.nonce (
              str_append ":" (
                str_append (http.hex8 s.nc)
                  (str_append ":" (str_append cnonce (str_append ":auth:" ha2))))))))

  unfoldable pub authorize : Option DigestState → Act (Wire S) (Option Authorization)
  unfolding digest_response
  authorize none w = (none, w)
  authorize (some s) w =
      if c.password == ""
      then (none, w)
      else let next = record s { nc = (s.nc + 1) % nc_bound } in
        let (cnonce, outside) = http.random_hex w.outside in
        (
          some (record {
            realm = s.realm;
            nonce = s.nonce;
            nc = next.nc;
            cnonce = cnonce;
            response = digest_response next cnonce;
          }),
          record w { outside = outside; auth = some next },
        )

  unfoldable pub auth_header : Act (Wire S) (Option Authorization)
  auth_header w = authorize w.auth w

  -- hc.Do with the header that was computed.
  unfoldable pub send_with :
      String → Option Authorization → Act (Wire S) (Result CallError Response)
  send_with payload header w =
      let (r, s) = http.send payload header w.outside in
      (
        elim r [ ok resp ↦ ok resp | err text ↦ err (transport text) ],
        record w { outside = s; sent = header ∷ w.sent },
      )

  unfoldable pub send : String → Act (Wire S) (Result CallError Response)
  send payload = do header ← auth_header; send_with payload header

  unfoldable pub send_again : String → Option CallError → Act (Wire S) (Result CallError Response)
  send_again payload (some e) = done (err e)
  send_again payload none = send payload

  unfoldable pub after_send :
      String → Result CallError Response → Act (Wire S) (Result CallError Response)
  after_send payload (err e) = done (err e)
  after_send payload (ok resp) =
      if not (eqb resp.code 401) || c.password == ""
      then done (ok resp)
      else (do problem ← set_challenge resp.challenge; send_again payload problem)

  unfoldable pub post : String → Act (Wire S) (Result CallError Response)
  post payload = do r ← send payload; after_send payload r

  -- err != nil || resp.StatusCode != 429 || attempt >= tooManyRequestsRetries
  unfoldable pub is_final : ℕ → Result CallError Response → Bool
  is_final attempt (err e) = true
  is_final attempt (ok resp) = not (eqb resp.code 429) || leb too_many_requests_retries attempt

  unfoldable pub wait_retry : Act (Wire S) (Option String)
  wait_retry w = let (cancelled, s) = http.wait w.outside in (cancelled, record w { outside = s })

  -- What the loop does after an answer; `again` is the next round.
  unfoldable pub retry_or :
      Act (Wire S) (Option (Result CallError Response))
      → Option String
      → Act (Wire S) (Option (Result CallError Response))
  retry_or again (some text) = done (some (err (transport text)))
  retry_or again none = again

  unfoldable pub after_post :
      Act (Wire S) (Option (Result CallError Response))
      → ℕ
      → Result CallError Response
      → Act (Wire S) (Option (Result CallError Response))
  after_post again attempt r =
      if is_final attempt r
      then done (some r)
      else (do cancelled ← wait_retry; retry_or again cancelled)

  -- The loop of postRetrying, on fuel.
  unfoldable pub post_loop : ℕ → ℕ → String → Act (Wire S) (Option (Result CallError Response))
  post_loop zero attempt payload = done none
  post_loop (suc fuel) attempt payload = do
    r ← post payload
    after_post (post_loop fuel (suc attempt) payload) attempt r

  unfoldable pub post_retrying : String → Act (Wire S) (Option (Result CallError Response))
  post_retrying = post_loop (suc too_many_requests_retries) 0

  abbrev located : String → CallError → CallError
  located method e = wrapped (str_append "shelly: " (str_append method (str_append " " c.host))) e

  unfoldable pub read_result :
      {A : Type 0} → Target F A → String → Option (Value F) → Result CallError A
  read_result target method none = ok target.initial
  read_result target method (some v) = elim (target.unmarshal v) [
    | ok a ↦ ok a
    | err text ↦ err (located method (transport (str_append "unmarshal result: " text)))
  ]

  unfoldable pub read_answer :
      {A : Type 0} → Target F A → String → Result String (RpcResponse F) → Result CallError A
  unfolding read_result
  read_answer target method (err text) =
      err (located method (transport (str_append "decode: " text)))
  read_answer target method (ok (failed code message)) =
      err (located method (rpc_error code message))
  read_answer target method (ok (answered r)) = read_result target method r

  unfoldable pub read_response :
      {A : Type 0} → Target F A → String → Result CallError Response → Result CallError A
  unfolding read_answer
  read_response target method (err e) =
      if is_auth_error e then err (auth_error c.host) else err (located method e)
  read_response target method (ok resp) =
      if eqb resp.code 401
      then err (auth_error c.host)
      else if not (eqb resp.code 200)
      then err (located method (status_error resp.status (http.limited resp.body)))
      else read_answer target method (http.decode resp.body)

  -- Client.Call with the payload that json.Marshal gives, or the text of its error; none only where the
  -- loop's fuel runs out.
  unfoldable pub call :
      {A : Type 0}
      → Target F A
      → String
      → Result String String
      → Act (Wire S) (Option (Result CallError A))
  call target method (err text) = done (some (err (invalid text)))
  call target method (ok payload) = do
    r ← post_retrying payload
    done (elim r [ none ↦ none | some x ↦ some (read_response target method x) ])
