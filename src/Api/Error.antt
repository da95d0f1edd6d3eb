-- ===== src/Api/Error.antt =====
-- crates/api/src/error.rs: the errors of the handlers and what a client sees of them; and `clamp_limit` of
-- routes/mod.rs.
use indexer_rs.Base.{ℕ, ℤ, pos, String, Option, none, some, Result, ltb_ℤ, min_ℤ, if◌then◌else◌}
use Prim.Native.String.{◌++◌}
use indexer_rs.Base.Text.{parse_i64}
use indexer_rs.Db.Schema.{DbError}

-- `Db` and `Sqlx` differ in the log only.
pub data ApiError : Type 0 where
  invalid_query not_found : String → ApiError
  db_failed : DbError → ApiError

abbrev pub ApiResult : Type 0 → Type 0
ApiResult A = Result ApiError A

unfoldable pub error_code : ApiError → String
error_code (invalid_query msg) = "invalid_query"
error_code (not_found what) = "not_found"
error_code (db_failed e) = "internal"

unfoldable pub error_status : ApiError → ℕ
error_status (invalid_query msg) = 400
error_status (not_found what) = 404
error_status (db_failed e) = 500

unfoldable pub user_message : ApiError → String
user_message (invalid_query msg) = msg
user_message (not_found what) = what ++ " not found"
user_message (db_failed e) = "internal server error"

-- `into_response`: the status, the message and the code.
unfoldable pub into_response : ApiError → ℕ × String × String
unfolding error_code error_status user_message
into_response e = (error_status e, user_message e, error_code e)

abbrev pub default_limit : ℤ
default_limit = pos 25

abbrev pub max_limit : ℤ
max_limit = pos 100

abbrev pub clamped : Option ℤ → ℤ
clamped none = default_limit
clamped (some n) = if ltb_ℤ (pos 0) n then min_ℤ n max_limit else default_limit

abbrev pub parsed : Option String → Option ℤ
parsed none = none
parsed (some s) = parse_i64 s

unfoldable pub clamp_limit : Option String → ℤ
clamp_limit raw = clamped (parsed raw)
