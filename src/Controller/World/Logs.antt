-- ===== src/Controller/World/Logs.antt =====
-- What a step adds to the log, for properties of a log that hold of two logs joined.
use mathlib.Core.List.{append_assoc}
use shelly_operator.Base.{
  Bool, true, false, if◌then◌else◌, List, [], ◌∷◌, ◌++◌, ◌≡◌, refl, sym, ◌∙◌, ap, String, Result,
  ok, err,
}
use shelly_operator.Shelly.Errors.{CallError}
use shelly_operator.Shelly.Rpc.{Rpc, wrap, ◌>>=◌ as rpc_bind, continue}
use shelly_operator.Api.Server.{Act, ◌>>=◌}
use shelly_operator.Controller.World.{
  Effect, World, ask, perform, Env, record_event, record_event_if, event_recorded,
}

-- A property of logs that holds of no step, and of two logs joined.
pub record LogLaw (Q : List Effect → Type 0) : Type 0 where
  pub none_done : Q []
  pub joined : (xs ys : List Effect) → Q xs → Q ys → Q (xs ++ ys)

module _ {S : Type 0} (Q : List Effect → Type 0) where
  -- What a run adds to the log of its world satisfies Q.
  abbrev pub Adds : World S → World S → Type 0
  Adds w w' = (new : List Effect) × (w'.log ≡ new ++ w.log) × Q new

  abbrev pub Logs : {A : Type 0} → Act (World S) A → Type 0
  Logs m = (w : World S) → Adds w (m w).1

module _ {S : Type 0} {Q : List Effect → Type 0} where
  pub Logs-if :
      {A : Type 0} (m n : Act (World S) A) (b : Bool)
      → Logs Q m
      → Logs Q n
      → Logs Q (if b then m else n)
  Logs-if m n true h k = h
  Logs-if m n false h k = k

  pub Adds-when :
      {A : Type 0} (m n : Act (World S) A) (b : Bool) (w : World S)
      → (b ≡ true → Adds Q w (m w).1)
      → (b ≡ false → Adds Q w (n w).1)
      → Adds Q w ((if b then m else n) w).1
  Adds-when m n true w h k = h refl
  Adds-when m n false w h k = k refl

  -- The same, where each branch knows how the test came out.
  pub Logs-when :
      {A : Type 0} (m n : Act (World S) A) (b : Bool)
      → (b ≡ true → Logs Q m)
      → (b ≡ false → Logs Q n)
      → Logs Q (if b then m else n)
  Logs-when m n true h k = h refl
  Logs-when m n false h k = k refl

module _ {S : Type 0} {Q : List Effect → Type 0} (law : LogLaw Q) where
  pub Adds-trans : (u v w : World S) → Adds Q u v → Adds Q v w → Adds Q u w
  Adds-trans u v w (xs, e, q) (ys, k, r) =
      (ys ++ xs, k ∙ ap (λ l. ys ++ l) e ∙ sym (append_assoc ys xs u.log), law.joined ys xs r q)

  -- A step that only returns.
  pub Logs-still : (w : World S) → Adds Q w w
  Logs-still w = ([], refl, law.none_done)

  -- A run after a run.
  pub Adds-run :
      {A : Type 0} (m : Act (World S) A) (w w₁ : World S)
      → Adds Q w w₁
      → Logs Q m
      → Adds Q w (m w₁).1
  Adds-run m w w₁ a h = Adds-trans w w₁ (m w₁).1 a (h w₁)

  pub Logs-bind :
      {A B : Type 0} (m : Act (World S) A) (f : A → Act (World S) B)
      → Logs Q m
      → ((a : A) → Logs Q (f a))
      → Logs Q (m >>= f)
  unfolding ◌>>=◌
  Logs-bind m f h k w = Adds-trans w (m w).1 (f (m w).0 (m w).1).1 (h w) (k (m w).0 (m w).1)

  pub Logs-ask : {A : Type 0} (op : Act S A) → Logs Q (ask op)
  unfolding ask
  Logs-ask op w = ([], refl, law.none_done)

  pub Logs-perform :
      {A : Type 0} (e : A → Effect) (op : Act S A)
      → ((a : A) → Q (e a ∷ []))
      → Logs Q (perform e op)
  unfolding perform
  Logs-perform e op h w = (e (op w.outside).0 ∷ [], refl, h (op w.outside).0)

  event_if :
      (there warning : Bool) (reason : String)
      → Q (event_recorded warning reason ∷ [])
      → Logs {S = S} Q (record_event_if there warning reason)
  unfolding record_event_if
  event_if false warning reason h w = ([], refl, law.none_done)
  event_if true warning reason h w = (event_recorded warning reason ∷ [], refl, h)

  pub Logs-event :
      {F Sel : Type 0} (env : Env F Sel S) (warning : Bool) (reason : String)
      → Q (event_recorded warning reason ∷ [])
      → Logs Q (record_event env warning reason)
  unfolding record_event
  Logs-event env = event_if env.recorder

  -- A call whose error is wrapped, and a sequence of calls that stops at the first error.
  pub Logs-wrap :
      {A : Type 0} (text : String) (m : Rpc (World S) A) → Logs Q m → Logs Q (wrap text m)
  Logs-wrap text m h = h

  Logs-continue :
      {A B : Type 0} (r : Result CallError A) (f : A → Rpc (World S) B)
      → ((a : A) → Logs Q (f a))
      → Logs Q (continue r f)
  Logs-continue (ok a) f k w = k a w
  Logs-continue (err e) f k w = ([], refl, law.none_done)

  pub Logs-rpc :
      {A B : Type 0} (m : Rpc (World S) A) (f : A → Rpc (World S) B)
      → Logs Q m
      → ((a : A) → Logs Q (f a))
      → Logs Q (rpc_bind m f)
  Logs-rpc m f h k w =
      Adds-trans w (m w).1 (continue (m w).0 f (m w).1).1 (h w) (Logs-continue (m w).0 f k (m w).1)
