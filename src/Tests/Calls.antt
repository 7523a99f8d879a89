-- ===== src/Tests/Calls.antt =====
-- The client against a device that asks for a digest, and one that is busy. The state counts answers.
use shelly_operator.Base.{
  ℕ, suc, ℤ, Bool, true, false, none, some, ◌≡◌, refl, err, [], ◌∷◌, ok, eqb, if◌then◌else◌,
}
use shelly_operator.Json.{bool}
use shelly_operator.Shelly.Methods.{Client}
use shelly_operator.Shelly.Client.{
  Http, Wire, Target, Response, answered, set_challenge, authorize, auth_header, send_with, send,
  send_again, after_send, post, is_final, after_post, post_loop, post_retrying, read_response, call,
}
use shelly_operator.Base.Assoc
use shelly_operator.Api.Server.{◌>>=◌}
use shelly_operator.Shelly.Client.Bounds.{Ends, call-Ends}
use shelly_operator.Shelly.Client.Digest.{Tracked, call-Tracked}
use shelly_operator.Tests.Reconcile.{texts}

abbrev response : ℕ → Response
response code = record { code = code; status = "answer"; challenge = "nonce"; body = "" }

-- The first answer asks for a digest; every later one has the given status.
abbrev http : ℕ → Http ℤ ℕ
http code = record {
  send = λ payload header s. (ok (response (if eqb s 0 then 401 else code)), suc s);
  wait = λ s. (none, s);
  random_hex = λ s. ("00", s);
  decode = λ body. ok (answered (some (bool true)));
  submatches = λ header. ("realm", "plug", "") ∷ ("nonce", "", header) ∷ [];
  hex8 = λ n. "00000001";
  quoted = λ s. s;
  limited = λ s. s;
}

abbrev client : Client
client = record { host = "10.0.0.7"; password = "secret" }

abbrev wire : Wire ℕ
wire = record { outside = 0; auth = none; sent = [] }

-- A result that is a Boolean.
abbrev flag : Target ℤ Bool
flag = record { initial = false; unmarshal = λ v. elim v [ bool b ↦ ok b | _ ↦ err "no Boolean" ] }

-- The device asks for a digest, and then answers.
flag_read : (call (http 200) client flag "Sys.GetStatus" (ok "{}") wire).0 ≡ some (ok true)
unfolding call ◌>>=◌ post_retrying post_loop after_post is_final post after_send send send_with
    auth_header authorize send_again set_challenge Assoc.get Assoc.put read_response
flag_read = refl

call-Ends_example :
    Ends (http 429) client 6 wire (call (http 429) client flag "Sys.GetStatus" (ok "{}") wire)
call-Ends_example = call-Ends (http 429) client flag "Sys.GetStatus" (ok "{}") wire

call-Tracked_example : Tracked (call (http 200) client flag "Sys.GetStatus" (ok "{}") wire).1
call-Tracked_example = call-Tracked (http 200) client flag "Sys.GetStatus" (ok "{}") wire (tt, tt)
