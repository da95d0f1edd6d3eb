-- ===== src/Coinblast/Worker.antt =====
-- crates/coinblast/src/worker.rs, with crates/coinblast/src/events.rs: the scan for events of curves. Each
-- round of the loop is given what the chain answers in it and when the token is cancelled. A hash set is
-- the list of its elements, and `victim` is the element that its iterator brings first.
pub mod Frame
pub mod Recorded
pub mod Scan
pub mod Cursor
pub mod Chunk
pub mod Rounds
pub mod Created
mod Examples
use indexer_rs.Base.{
  ℕ, ℤ, pos, ◌+ℤ◌, ◌-ℤ◌, String, Bool, true, false, not, ◌||◌, ◌&&◌, Option, none, some, List, [],
  ◌∷◌, map, any, keep, length, leb, leb_ℤ, ltb_ℤ, min_ℤ, max_ℤ, Result, ok, err, ◌==◌, string_eq,
  nat_eq, list_eq, as_i64, saturating_add, saturating_sub, if◌then◌else◌,
}
use indexer_rs.Base.Text.{to_lowercase}
use indexer_rs.Base.Effects.{Exec, ◌>>=◌, ◌>>◌, pure, lift, for_each}
use indexer_rs.Domain.{BlockHeight, Hash}
use indexer_rs.Chain.Error.{ChainResult}
use indexer_rs.Chain.Retry.{BackoffConfig, default_backoff, retry_with_backoff, result_of}
use indexer_rs.Db.Schema.{Db, DbResult, CbToken}
use indexer_rs.Db.Session.{Session, Sql, query, execute}
use indexer_rs.Db.Meta.{meta_key_coinblast_cursor, get_i64, set_i64}
use indexer_rs.Sync.Convert.{RpcLog, hex_hash}
use indexer_rs.Sync.Ingest.{GetLogs, logs_in_range}
use indexer_rs.Coinblast.Handlers.{
  CoinblastError, Handled, Handler, Events, on_db, apply_buy, apply_sell, apply_graduated,
  apply_curve_created,
}
use indexer_rs.Coinblast.Orphan.{Views, called, try_adopt}

pub data Network : Type 0 where
  mainnet testnet : Network

unfoldable pub deploy_block : Network → ℕ
deploy_block mainnet = 1178667
deploy_block testnet = 1637883

pub record WorkerConfig : Type 0 where
  pub network : Network
  pub chunk_size : ℕ
  pub safe_lag : ℕ

abbrev pub for_network : Network → WorkerConfig
for_network network = record { network = network; chunk_size = 4000; safe_lag = 5 }

-- The signature hashes of the four events.
pub record Topics : Type 0 where
  pub curve_created : List ℕ
  pub buy : List ℕ
  pub sell : List ℕ
  pub graduated : List ℕ

-- The code's packages: the ABI's decoders and hashes, and the order of a hash set.
pub record Abi : Type 0 where
  pub events : Events
  pub topics : Topics
  pub victim : List String → Option String

-- What the chain answers during one round; `factory_logs` is `eth_getLogs` of the factory's logs.
pub record ChainView : Type 0 where
  pub block_number : ℕ → ChainResult BlockHeight
  pub factory_logs : GetLogs
  pub all_logs : GetLogs
  pub views : Views

pub record Worker : Type 0 where
  pub session : Session
  pub open session use *
  pub known_curves : List String
  pub known_non_curves : List String

abbrev pub Work : Type 0 → Type 0
Work A = Exec Worker CoinblastError A

unfoldable pub on_session : {A : Type 0} → Handler A → Work A
on_session m w = let r = m w.session in (r.0, record w { session = r.1 })

abbrev pub modify : (Worker → Worker) → Work (Unit {0})
modify f w = (ok tt, f w)

-- Runs a step whose error is handled by the caller.
abbrev pub attempt : {A : Type 0} → Work A → Work (Handled A)
attempt m w = let r = m w in (ok r.0, r.1)

abbrev pub contains : String → List String → Bool
contains x xs = any (λ (y : String). y == x) xs

abbrev pub insert_set : String → List String → List String
insert_set x xs = if contains x xs then xs else x ∷ xs

abbrev pub remove_set : Option String → List String → List String
remove_set none xs = xs
remove_set (some v) xs = keep (λ (y : String). not (y == v)) xs

abbrev pub known_non_curves_max : ℕ
known_non_curves_max = 10000

unfoldable pub cache_non_curve : Abi → String → List String → List String
cache_non_curve abi addr set =
    insert_set addr
      (if leb known_non_curves_max (length set) then remove_set (abi.victim set) set else set)

abbrev pub first_topic : RpcLog → Option (List ℕ)
first_topic l = elim l.topics [ [] ↦ none | t ∷ ts ↦ some t ]

abbrev pub has_topic : RpcLog → List ℕ → Bool
has_topic l topic = elim (first_topic l) [ none ↦ false | some t ↦ t == topic ]

abbrev pub emitter_of : Abi → RpcLog → String
emitter_of abi l = hex_hash abi.events.hex l.address

abbrev pub learn_curve : String → Work (Unit {0})
learn_curve addr =
    modify (λ (w : Worker). record w { known_curves = insert_set addr w.known_curves })

abbrev pub learn_non_curve : Abi → String → Work (Unit {0})
learn_non_curve abi addr =
    modify
      (λ (w : Worker). record w { known_non_curves = cache_non_curve abi addr w.known_non_curves })

-- Pass 1, one log of the factory. The address that it learns is the emitter of the log.
unfoldable pub factory_log : Abi → RpcLog → Work (Unit {0})
factory_log abi l =
    if has_topic l abi.topics.curve_created
    then (do on_session (apply_curve_created abi.events l); learn_curve (emitter_of abi l))
    else pure tt

abbrev pub or_zero : Option ℕ → ℕ
or_zero none = 0
or_zero (some n) = n

abbrev pub hash_or_empty : Abi → Option (List ℕ) → Hash
hash_or_empty abi none = ""
hash_or_empty abi (some x) = hex_hash abi.events.hex x

abbrev pub learn_adopted : Abi → String → Handled Bool → Work Bool
learn_adopted abi emitter (ok true) = do learn_curve emitter; pure true
learn_adopted abi emitter (ok false) = do learn_non_curve abi emitter; pure false
learn_adopted abi emitter (err e) = do learn_non_curve abi emitter; pure false

-- Whether the emitter is a curve; one that is not known yet is probed, and its answer kept.
unfoldable pub vet : Abi → ChainView → RpcLog → Work Bool
vet abi chain l w =
    let emitter = emitter_of abi l in
    if contains emitter w.known_curves
    then (ok true, w)
    else if contains emitter w.known_non_curves
    then (ok false, w)
    else (attempt (
            on_session (
              try_adopt abi.events.hex chain.views l.address (as_i64 (or_zero l.block_number))
                (hash_or_empty abi l.transaction_hash)))
          >>= learn_adopted abi emitter)
        w

-- The handler of a log of a curve, by its topic.
unfoldable pub dispatch : Abi → RpcLog → Work (Unit {0})
dispatch abi l =
    if has_topic l abi.topics.buy
    then (do on_session (apply_buy abi.events l); pure tt)
    else if has_topic l abi.topics.sell
    then (do on_session (apply_sell abi.events l); pure tt)
    else if has_topic l abi.topics.graduated
    then (do on_session (apply_graduated abi.events l); pure tt)
    else pure tt

abbrev pub is_curve_event : Abi → RpcLog → Bool
is_curve_event abi l =
    has_topic l abi.topics.buy || has_topic l abi.topics.sell || has_topic l abi.topics.graduated

-- Pass 2, one log of the range.
unfoldable pub curve_log : Abi → ChainView → RpcLog → Work (Unit {0})
curve_log abi chain l =
    if is_curve_event abi l
    then (do curve ← vet abi chain l; if curve then dispatch abi l else pure tt)
    else pure tt

abbrev pub retried : {A : Type 0} → (ℕ → ChainResult A) → Handled A
retried op = called (result_of (retry_with_backoff default_backoff op).ending)

unfoldable pub run_chunk : Abi → ChainView → BlockHeight → BlockHeight → Work (Unit {0})
run_chunk abi chain from to = do
  factory_logs ← lift (retried (logs_in_range chain.factory_logs from to))
  for_each (factory_log abi) factory_logs
  curve_logs ← lift (retried (logs_in_range chain.all_logs from to))
  for_each (curve_log abi chain) curve_logs

abbrev pub known_curve_addresses : Db → DbResult (List String)
known_curve_addresses db = ok (map (λ (r : CbToken). r.curve_address) db.cb_tokens)

unfoldable pub hydrate_known_curves : Work (Unit {0})
hydrate_known_curves = do
  curves ← on_session (on_db (query known_curve_addresses))
  modify
      (λ (w : Worker). record w { known_curves = map to_lowercase curves; known_non_curves = [] })

abbrev pub cursor_floor : Network → ℤ
cursor_floor network = pos (deploy_block network) -ℤ pos 1

abbrev pub at_least : ℤ → Option ℤ → ℤ
at_least floor none = floor
at_least floor (some v) = max_ℤ v floor

unfoldable pub read_cursor : Network → Work ℤ
read_cursor network = do
  v ← on_session (on_db (query (get_i64 meta_key_coinblast_cursor)))
  pure (at_least (cursor_floor network) v)

unfoldable pub write_cursor : BlockHeight → Work (Unit {0})
write_cursor to = on_session (on_db (execute (set_i64 meta_key_coinblast_cursor to (pos 0))))

-- A chunk that failed is tried again in a later round: the cursor stays.
abbrev pub finish_chunk : BlockHeight → Handled (Unit {0}) → Work (Unit {0})
finish_chunk to (ok u) = write_cursor to
finish_chunk to (err e) = pure tt

-- One round after the test of the token: a chunk if the cursor is behind.
unfoldable pub round : Abi → WorkerConfig → ChainView → Work (Unit {0})
round abi cfg chain = do
  cursor ← read_cursor cfg.network
  tip ← lift (retried chain.block_number)
  let target = saturating_sub tip (as_i64 cfg.safe_lag) in
      let to = min_ℤ (saturating_add cursor (as_i64 cfg.chunk_size)) target in
      if leb_ℤ target cursor
      then pure tt
      else (do done ← attempt (run_chunk abi chain (cursor +ℤ pos 1) to); finish_chunk to done)

pub record Round : Type 0 where
  pub cancelled_before : Bool
  pub chain : ChainView
  pub cancelled_asleep : Bool

pub data Exit : Type 0 where
  cancelled : Exit
  still_running : Exit

-- The loop, over the rounds that the environment lets it begin.
unfoldable pub run_rounds : Abi → WorkerConfig → List Round → Work Exit
run_rounds abi cfg [] = pure still_running
run_rounds abi cfg (r ∷ rounds) =
    let rest = run_rounds abi cfg rounds in
    if r.cancelled_before
    then pure cancelled
    else (do round abi cfg r.chain; if r.cancelled_asleep then pure cancelled else rest)

unfoldable pub run_coinblast_worker : Abi → WorkerConfig → List Round → Work Exit
run_coinblast_worker abi cfg rounds = do hydrate_known_curves; run_rounds abi cfg rounds
