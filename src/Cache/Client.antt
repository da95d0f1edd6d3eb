-- ===== src/Cache/Client.antt =====
-- crates/cache/src/client.rs, and `get_or_load` of crates/api/src/cached.rs. What Redis answers to a call is
-- a parameter; a call is given the times that its breaker reads before and after it.
pub mod Fallback
mod Examples
use indexer_rs.Base.{ℕ, ℤ, pos, String, Bool, true, false, Option, none, some, Result, ok, err}
use Prim.Native.String.{◌++◌}
use indexer_rs.Cache.Breaker.{CircuitBreaker, is_open, record_success, record_failure}

pub data CacheError : Type 0 where
  redis : String → CacheError
  encoding : String → CacheError
  circuit_open : CacheError

abbrev pub CacheResult : Type 0 → Type 0
CacheResult A = Result CacheError A

pub data Tier : Type 0 where
  chain_tier address_tier detail_tier : Tier

unfoldable pub ttl_secs : Tier → ℤ
ttl_secs chain_tier = pos 60
ttl_secs address_tier = pos 300
ttl_secs detail_tier = pos 3600

unfoldable pub full_key : String → String → String
full_key namespace k = namespace ++ (":" ++ k)

-- A Redis call and its record in the breaker.
abbrev pub recorded :
    {A : Type 0} → ℕ → Result String A → CircuitBreaker → CacheResult A × CircuitBreaker
recorded later (ok a) b = (ok a, record_success b)
recorded later (err e) b = (err (redis e), record_failure later b)

-- A call behind the breaker: while it is open, Redis is not asked.
unfoldable pub guarded :
    {A : Type 0} → ℕ → ℕ → Result String A → CircuitBreaker → CacheResult A × CircuitBreaker
guarded now later reply b =
    let (opened, b') = is_open now b in
    elim opened [ true ↦ (err circuit_open, b') | false ↦ recorded later reply b' ]

abbrev pub decoded :
    {T : Type 0} → (String → Result String T) → CacheResult (Option String) → CacheResult (Option T)
decoded decode (err e) = err e
decoded decode (ok none) = ok none
decoded decode (ok (some s)) = elim (decode s) [ ok v ↦ ok (some v) | err e ↦ err (encoding e) ]

-- `CacheClient::get`: a value that cannot be decoded is an error, but no failure of Redis.
unfoldable pub cache_get :
    {T : Type 0}
    → (String → Result String T)
    → ℕ
    → ℕ
    → Result String (Option String)
    → CircuitBreaker
    → CacheResult (Option T) × CircuitBreaker
cache_get decode now later reply b =
    let (raw, b') = guarded now later reply b in (decoded decode raw, b')

-- `CacheClient::set`: the value is encoded once the breaker has let the call through.
unfoldable pub cache_set :
    Result String String
    → ℕ
    → ℕ
    → Result String (Unit {0})
    → CircuitBreaker
    → CacheResult (Unit {0}) × CircuitBreaker
cache_set encoded now later reply b =
    let (opened, b') = is_open now b in
    elim opened [
      | true ↦ (err circuit_open, b')
      | false ↦ elim encoded [ err e ↦ (err (encoding e), b') | ok body ↦ recorded later reply b' ]
    ]

-- One request: the times and the answers of its two cache calls.
pub record Exchange : Type 0 where
  pub read_at : ℕ
  pub read_done : ℕ
  pub read_reply : Result String (Option String)
  pub write_at : ℕ
  pub write_done : ℕ
  pub write_reply : Result String (Unit {0})

module _ {T E : Type 0} (decode : String → Result String T)
    (encode : T → Result String String) where
  -- After a miss or a cache error: the loader, then the write, whose error is dropped.
  pub load : Exchange → Result E T → CircuitBreaker → Result E T × CircuitBreaker
  load x (err e) b = (err e, b)
  load x (ok v) b = (ok v, (cache_set (encode v) x.write_at x.write_done x.write_reply b).1)

  pub after_read :
      Exchange → Result E T → CacheResult (Option T) × CircuitBreaker → Result E T × CircuitBreaker
  unfolding load
  after_read x loader (ok (some hit), b) = (ok hit, b)
  after_read x loader (ok none, b) = load x loader b
  after_read x loader (err e, b) = load x loader b

  -- `state.cache` is an option; `loader` is what the loader brings if it is run.
  unfoldable pub get_or_load :
      Exchange → Result E T → Option CircuitBreaker → Result E T × Option CircuitBreaker
  unfolding after_read
  get_or_load x loader none = (loader, none)
  get_or_load x loader (some b) =
      let (r, b') = after_read x loader (cache_get decode x.read_at x.read_done x.read_reply b) in
      (r, some b')
