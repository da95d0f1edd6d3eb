-- ===== src/Api/Auth.antt =====
-- crates/api/src/auth.rs: the bearer token. A token and a header are texts, which agree exactly when their
-- bytes do; a header that is no text counts as missing.

pub mod Decides
mod Examples
use Prim.Native.Char.{code}
use Prim.Native.String.{String}
use indexer_rs.Base.Text.{trim}
use indexer_rs.Base.{
  ◌≡◌, refl, Bool, true, false, ◌&&◌, ◌||◌, Option, none, some, leb, nat_beq, ◌==◌, string_eq,
  if◌then◌else◌,
}

-- `s.strip_prefix(prefix)`.
unfoldable pub strip_prefix : String → String → Option String
strip_prefix String.[] s = some s
strip_prefix (String.◌∷◌ p prefix) String.[] = none
strip_prefix (String.◌∷◌ p prefix) (String.◌∷◌ c s) =
    let rest = strip_prefix prefix s in if nat_beq (code p) (code c) then rest else none

-- `AuthState`: none if the API is open.
abbrev pub AuthState : Type 0
AuthState = Option String

unfoldable pub is_open : AuthState → Bool
is_open none = true
is_open (some token) = false

-- The path and the Authorization header of a request.
pub record Request : Type 0 where
  pub path : String
  pub authorization : Option String

pub data Decision : Type 0 where
  runs unauthorized : Decision

abbrev pub trimmed : Option String → Option String
trimmed none = none
trimmed (some t) = some (trim t)

abbrev pub presented : Option String → Option String
presented none = none
presented (some header) = trimmed (strip_prefix "Bearer " header)

abbrev pub matches : String → Option String → Decision
matches expected none = unauthorized
matches expected (some token) = if token == expected then runs else unauthorized

-- Whether the request goes on to its handler.
unfoldable pub require_bearer : AuthState → Request → Decision
unfolding strip_prefix
require_bearer state req =
    if req.path == "/health"
    then runs
    else elim state [ none ↦ runs | some expected ↦ matches expected (presented req.authorization) ]

padded_token :
    require_bearer (some "abc") (record { path = "/blocks"; authorization = some "Bearer  abc " })
    ≡ runs
unfolding require_bearer trim
padded_token = refl
