-- ===== src/Coinblast/Worker/Examples.antt =====
-- One round over a buy of a known curve, a chunk whose factory creates a curve, and the theorems at them.
use indexer_rs.Base.{
  ◌≡◌, ◌≢◌, refl, inl, ℕ, ℤ, pos, ◌<ℤ◌, ◌≤ℤ◌, max_ℤ, min_ℤ, ◌==◌, ==_iff, String, true, false, none,
  some, List, [], ◌∷◌, arith, All, ok, err, string_eq, int_eq, nat_beq, nat_eq, list_eq,
  if◌then◌else◌, as_i64, saturating_add, saturating_sub, ◌+ℤ◌, ◌-ℤ◌,
}
use indexer_rs.Base.Text.{to_lowercase}
use indexer_rs.Base.Effects.{for_each}
use indexer_rs.Chain.Error.{ChainResult, rpc, is_transient, is_transient_code}
use indexer_rs.Chain.Retry.{retry_with_backoff, result_of}
use indexer_rs.Db.Schema.{Db, empty_db}
use indexer_rs.Db.Table.{has, find}
use indexer_rs.Db.Meta.{get_i64, set_i64, put_row}
use indexer_rs.Db.Session.{execute, execute_counted, query, round_trip, in_transaction, transaction}
use indexer_rs.Db.Runs.{healthy}
use indexer_rs.Db.Coinblast.{insert_token, insert_trade, bump_trade_aggregate}
use indexer_rs.Domain.{as_u64}
use indexer_rs.Sync.Convert.{Hex, RpcLog, hex_hash}
use indexer_rs.Sync.Ingest.{logs_in_range}
use indexer_rs.Coinblast.Handlers.{
  trade_of, token_of, apply_buy, apply_curve_created, on_db, trade_sql, write_trade,
  price_per_token, require_block_number, require_log_index, require_tx_hash,
}
use indexer_rs.Coinblast.Orphan.{Views, try_adopt, probe, call_token}
use indexer_rs.Coinblast.Worker.{
  mainnet, deploy_block, cursor_floor, for_network, Abi, ChainView, Worker, Round, on_session,
  contains, emitter_of, factory_log, vet, dispatch, curve_log, run_chunk, hydrate_known_curves,
  read_cursor, write_cursor, round, run_rounds, run_coinblast_worker, retried,
}
use indexer_rs.Coinblast.Worker.Cursor.{scan_cursor, Listed}
use indexer_rs.Coinblast.Worker.Chunk.{AnswersWhole}
use indexer_rs.Coinblast.Worker.Rounds.{hydrated, StoredTrade, run_coinblast_worker-NeverAhead}
use indexer_rs.Coinblast.Worker.Created.{run_chunk-skips_created, round_advances}

abbrev one_byte : List ℕ → String
one_byte bytes = elim bytes [ [] ↦ "" | b ∷ bs ↦ if nat_beq b 1 then "c1" else "fa" ]

abbrev hex : Hex
hex = record { encode = one_byte; decode = λ s. none; from_be_slice = λ bytes. 0 }

abbrev abi : Abi
abi = record {
  events = record {
    hex = hex;
    curve_created = λ l. some (record {
      curve = 1 ∷ [];
      token = 3 ∷ [];
      owner = 4 ∷ [];
      name = "One";
      symbol = "ONE";
      curve_supply = 1000;
      graduation_srx_threshold = 100;
    });
    buy_event = λ l. some (record { trader = 5 ∷ []; srx = 10; fee = 1; tokens = 5 });
    sell_event = λ l. none;
    graduated_event = λ l. none;
  };
  topics = record { curve_created = 10 ∷ []; buy = 11 ∷ []; sell = 12 ∷ []; graduated = 13 ∷ [] };
  victim = λ set. none;
}

abbrev bought : RpcLog
bought = record {
  block_number = some 1178667;
  log_index = some 0;
  transaction_hash = some (7 ∷ []);
  address = 1 ∷ [];
  topics = (11 ∷ []) ∷ [];
  payload = [];
}

abbrev created : RpcLog
created = record {
  block_number = some 1178667;
  log_index = some 1;
  transaction_hash = some (7 ∷ []);
  address = 2 ∷ [];
  topics = (10 ∷ []) ∷ [];
  payload = [];
}

abbrev no_views : Views
no_views = record {
  call = λ addr view. err (rpc "timed out");
  decode_address = λ raw. none;
  decode_string = λ raw. none;
}

abbrev chain : ChainView
chain = record {
  block_number = λ n. ok (pos 1178700);
  factory_logs = λ from to n. ok [];
  all_logs = λ from to n. ok (bought ∷ []);
  views = no_views;
}

abbrev with_curve : Db
with_curve = record empty_db {
  cb_tokens =
      record {
        curve_address = "0xc1";
        token_address = "0xt1";
        owner_address = "0xo1";
        name = "One";
        symbol = "ONE";
        curve_supply = 1000;
        graduation_threshold = 100;
        is_graduated = false;
        created_block = pos 1;
        created_tx_hash = "0x01";
        total_volume_srx = 0;
        trade_count = 0;
        last_price_srx = 0;
      }
      ∷ [];
}

abbrev worker : Worker
worker = record { session = healthy with_curve; known_curves = []; known_non_curves = [] }

abbrev rounds : List Round
rounds = record { cancelled_before = false; chain = chain; cancelled_asleep = false } ∷ []

abbrev Emitted : ℤ → RpcLog → Type 0
Emitted k l = (k ≡ pos 1178667) × (l ≡ bought)

moved :
    scan_cursor (run_coinblast_worker abi (for_network mainnet) rounds worker).1.db
    ≡ ok (some (pos 1178695))
unfolding run_coinblast_worker hydrate_known_curves on_session on_db query to_lowercase run_rounds
    round read_cursor get_i64 find deploy_block ◌-ℤ◌ ◌+ℤ◌ saturating_sub saturating_add as_i64
    retry_with_backoff result_of is_transient is_transient_code run_chunk for_each curve_log vet
    dispatch hex_hash apply_buy trade_of require_block_number require_log_index require_tx_hash
    write_trade trade_sql price_per_token transaction in_transaction round_trip execute
    execute_counted insert_trade has bump_trade_aggregate write_cursor set_i64 put_row logs_in_range
    as_u64
moved = refl

unstored : scan_cursor with_curve ≡ ok none
unfolding get_i64 find
unstored = refl

is_known : contains (emitter_of abi bought) (hydrated with_curve) ≡ true
unfolding hex_hash to_lowercase
is_known = refl

after_floor : (pos (deploy_block mainnet) -ℤ pos 1) <ℤ pos 1178667
unfolding deploy_block ◌-ℤ◌
after_floor = omega arith

before_last : pos 1178667 ≤ℤ max_ℤ (pos 1178695) (pos (deploy_block mainnet) -ℤ pos 1)
unfolding deploy_block ◌-ℤ◌
before_last = omega arith

answers :
    All
      (λ (r : Round).
        AnswersWhole abi (for_network mainnet) Emitted with_curve (hydrated with_curve) r.chain)
      rounds
answers = (λ from to n ls k l asked (at, is) low high. there ls l asked is, tt)
  where
    there :
        (ls : List RpcLog) (l : RpcLog)
        → ◌≡◌ {A = ChainResult (List RpcLog)} (ok (bought ∷ [])) (ok ls)
        → l ≡ bought
        → Listed l ls
    there [] l asked is = absurd (ground arith)
    there (x ∷ xs) l asked is = inl (ground (arith, asked, is))

run_coinblast_worker-NeverAhead_example :
    StoredTrade abi worker.db
      (run_coinblast_worker abi (for_network mainnet) rounds worker).1.db
      bought
run_coinblast_worker-NeverAhead_example =
    run_coinblast_worker-NeverAhead abi (for_network mainnet) Emitted rounds worker none
      (some (pos 1178695)) (pos 1178667) bought answers unstored moved (refl, refl) (is_known, refl)
      after_floor before_last

abbrev creating : ChainView
creating = record chain { factory_logs = λ from to n. ok (created ∷ []) }

abbrev fresh : Worker
fresh = record { session = healthy empty_db; known_curves = []; known_non_curves = [] }

abbrev h1 : ℤ
h1 = pos 1178667

created_asked : retried (logs_in_range creating.factory_logs h1 h1) ≡ ok (created ∷ [])
unfolding retry_with_backoff result_of is_transient is_transient_code logs_in_range as_u64
created_asked = refl

bought_asked : retried (logs_in_range creating.all_logs h1 h1) ≡ ok (bought ∷ [])
unfolding retry_with_backoff result_of is_transient is_transient_code logs_in_range as_u64
bought_asked = refl

created_stored : (for_each (factory_log abi) (created ∷ []) fresh).0 ≡ ok tt
unfolding for_each factory_log on_session apply_curve_created token_of require_block_number
    require_tx_hash hex_hash on_db execute insert_token has
created_stored = refl

another : emitter_of abi bought ≢ hex_hash abi.events.hex (2 ∷ [])
unfolding hex_hash
another h =
    let same : (emitter_of abi bought == hex_hash abi.events.hex (2 ∷ [])) ≡ true =
      (==_iff (emitter_of abi bought) _).1 h in
    cc

run_chunk-skips_created_example :
    let r = run_chunk abi creating h1 h1 fresh in
    (r.0 ≡ ok tt) × (r.1.db.cb_trades ≡ fresh.db.cb_trades)
run_chunk-skips_created_example =
    run_chunk-skips_created abi creating h1 h1 (2 ∷ []) (created ∷ []) (bought ∷ []) fresh
      created_asked (refl, tt) created_stored bought_asked
      (((refl, (rpc "timed out", refl)), another), tt)

tip_asked : retried chain.block_number ≡ ok (pos 1178700)
unfolding retry_with_backoff result_of is_transient is_transient_code
tip_asked = refl

unscanned : scan_cursor fresh.db ≡ ok none
unfolding get_i64 find
unscanned = refl

abbrev target : ℤ
target = saturating_sub (pos 1178700) (as_i64 5)

abbrev start : ℤ
start = cursor_floor mainnet

abbrev end_of_chunk : ℤ
end_of_chunk = min_ℤ (saturating_add start (as_i64 4000)) target

behind : start <ℤ target
unfolding deploy_block ◌-ℤ◌ saturating_sub as_i64
behind = omega arith

chunk_done :
    (run_chunk abi chain (start +ℤ pos 1) end_of_chunk (read_cursor mainnet fresh).1).0 ≡ ok tt
unfolding on_session on_db query read_cursor get_i64 find deploy_block ◌-ℤ◌ ◌+ℤ◌ saturating_sub
    saturating_add as_i64 retry_with_backoff result_of is_transient is_transient_code run_chunk
    for_each curve_log vet hex_hash try_adopt probe call_token logs_in_range as_u64
chunk_done = refl

round_done : (round abi (for_network mainnet) chain fresh).0 ≡ ok tt
unfolding on_session on_db query round read_cursor get_i64 find deploy_block ◌-ℤ◌ ◌+ℤ◌
    saturating_sub saturating_add as_i64 retry_with_backoff result_of is_transient is_transient_code
    run_chunk for_each curve_log vet hex_hash try_adopt probe call_token logs_in_range as_u64
    write_cursor execute set_i64 put_row
round_done = refl

round_advances_example :
    scan_cursor (round abi (for_network mainnet) chain fresh).1.db ≡ ok (some end_of_chunk)
round_advances_example =
    round_advances abi (for_network mainnet) chain fresh none (pos 1178700) unscanned tip_asked
      behind chunk_done round_done
