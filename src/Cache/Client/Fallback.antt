-- ===== src/Cache/Client/Fallback.antt =====
-- A request is never failed by the cache, and an open breaker keeps its calls from Redis.
use indexer_rs.Base.{◌≡◌, refl, ◌⊎◌, inl, inr, String, Option, none, some, Result, ok, err}
use indexer_rs.Cache.Breaker.{CircuitBreaker}
use indexer_rs.Cache.Client.{CacheResult, Exchange, cache_get, load, after_read, get_or_load}

module _ {T E : Type 0} (decode : String → Result String T)
    (encode : T → Result String String) where
  load-lem :
      (x : Exchange) (loader : Result E T) (b : CircuitBreaker)
      → (load decode encode x loader b).0 ≡ loader
  unfolding load
  load-lem x (ok v) b = refl
  load-lem x (err e) b = refl

  after_read-cases :
      (x : Exchange) (loader : Result E T) (r : CacheResult (Option T) × CircuitBreaker)
      → ((hit : T) × (r.0 ≡ ok (some hit)) × ((after_read decode encode x loader r).0 ≡ ok hit))
        ⊎ ((after_read decode encode x loader r).0 ≡ loader)
  unfolding after_read
  after_read-cases x loader (ok (some hit), b) = inl (hit, refl, refl)
  after_read-cases x loader (ok none, b) = inr (load-lem x loader b)
  after_read-cases x loader (err e, b) = inr (load-lem x loader b)

  -- Whatever Redis answers to the read and to the write, and without a cache too: a request either returns
  -- the value that the cache had under the key, or it returns exactly what the loader brings, its error
  -- included.
  pub get_or_load-cases :
      (x : Exchange) (loader : Result E T) (cache : Option CircuitBreaker)
      → ((b : CircuitBreaker) × (hit : T) × (cache ≡ some b)
          × ((cache_get decode x.read_at x.read_done x.read_reply b).0 ≡ ok (some hit))
          × ((get_or_load decode encode x loader cache).0 ≡ ok hit))
        ⊎ ((get_or_load decode encode x loader cache).0 ≡ loader)
  unfolding get_or_load
  get_or_load-cases x loader none = inr refl
  get_or_load-cases x loader (some b) =
      elim (after_read-cases x loader (cache_get decode x.read_at x.read_done x.read_reply b)) [
        | inl (hit, found, returned) ↦ inl (b, hit, refl, found, returned)
        | inr loaded ↦ inr loaded
      ]
