-- ===== src/Cache/Client/Examples.antt =====
-- closed_until_threshold of the unit tests of crates/cache/src/breaker.rs, and a request whose Redis fails.
use indexer_rs.Base.{◌≡◌, refl, String, true, false, some, Result, ok, err}
use indexer_rs.Cache.Breaker.{CircuitBreaker, new_breaker, is_open, record_failure}
use indexer_rs.Cache.Client.{Exchange, load, after_read, cache_get, cache_set, guarded, get_or_load}

abbrev three : CircuitBreaker
three = new_breaker 3 30

abbrev tripped : CircuitBreaker
tripped = record three { failures = 3; open_until = some 33 }

abbrev redis_down : Exchange
redis_down = record {
  read_at = 1;
  read_done = 2;
  read_reply = err "connection refused";
  write_at = 3;
  write_done = 4;
  write_reply = err "connection refused";
}

abbrev text : String → Result String String
text s = ok s

abbrev answer : Result String String
answer = (get_or_load text text redis_down (ok "from the database") (some three)).0

stays_closed :
    (is_open 3 (record_failure 2 (record_failure 1 three))) ≡ (false, record three { failures = 2 })
unfolding is_open record_failure
stays_closed = refl

opens_at_three : (is_open 4 tripped).0 ≡ true
unfolding is_open
opens_at_three = refl

answer_is_loaded : answer ≡ ok "from the database"
unfolding get_or_load load after_read cache_get guarded cache_set is_open record_failure
answer_is_loaded = refl
