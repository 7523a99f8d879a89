-- ===== src/Api/Server.antt =====
-- The Kubernetes API server, as the code's clients see it: errors, and steps that change a state.
use shelly_operator.Base.{String, Result}
use shelly_operator.Base.Assoc.{Assoc}

-- An error of the Kubernetes API: apierrors.IsNotFound, apierrors.IsConflict, or another, with the
-- text of Error().
pub data ApiError : Type 0 where
  not_found conflict other : String → ApiError

abbrev pub api_error_text : ApiError → String
api_error_text (not_found text) = text
api_error_text (conflict text) = text
api_error_text (other text) = text

abbrev pub Act : Type 0 → Type 0 → Type 0
Act W A = W → A × W

module _ {W A : Type 0} where
  abbrev pub done : A → Act W A
  done a w = (a, w)

module _ {W A B : Type 0} where
  infixl 10 ◌>>=◌ ◌>>◌
  unfoldable pub ◌>>=◌ : Act W A → (A → Act W B) → Act W B
  ◌>>=◌ m f w = let (a, w') = m w in f a w'

  abbrev pub ◌>>◌ : Act W A → Act W B → Act W B
  m >> n = m >>= λ _. n

-- client.Reader, for the ConfigMaps and the Secrets of the device's namespace, by name: their data.
pub record Reader (W : Type 0) : Type 0 where
  pub config_map : String → Act W (Result ApiError (Assoc String))
  pub secret : String → Act W (Result ApiError (Assoc String))
