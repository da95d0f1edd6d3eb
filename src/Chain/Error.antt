-- ===== src/Chain/Error.antt =====
-- crates/chain/src/error.rs: the client's errors, and the hint that the retry loop reads.
use indexer_rs.Base.{ℕ, String, Bool, true, false, ◌||◌, Result}

-- The gRPC status codes that the source names, and any other by its number.
pub data GrpcCode : Type 0 where
  unavailable deadline_exceeded resource_exhausted aborted internal : GrpcCode
  other_code : ℕ → GrpcCode

-- What `is_transient` reads of an HTTP client's error.
pub record RestFailure : Type 0 where
  pub is_timeout : Bool
  pub is_connect : Bool
  pub server_error : Bool

pub data ChainError : Type 0 where
  rpc : String → ChainError
  grpc : GrpcCode → ChainError
  grpc_transport : ChainError
  rest : RestFailure → ChainError
  decode : String → ChainError
  not_found : String → ChainError
  invalid_argument : String → ChainError

abbrev pub ChainResult {ℓ} : Type ℓ → Type ℓ
ChainResult A = Result ChainError A

unfoldable pub is_transient_code : GrpcCode → Bool
is_transient_code (other_code n) = false
is_transient_code unavailable = true
is_transient_code deadline_exceeded = true
is_transient_code resource_exhausted = true
is_transient_code aborted = true
is_transient_code internal = true

unfoldable pub is_transient : ChainError → Bool
unfolding is_transient_code
is_transient (rpc m) = true
is_transient (grpc c) = is_transient_code c
is_transient grpc_transport = true
is_transient (rest e) = e.is_timeout || e.is_connect || e.server_error
is_transient (decode m) = false
is_transient (not_found m) = false
is_transient (invalid_argument m) = false
