-- ===== src/Sync/Ingest.antt =====
-- crates/sync/src/backfill.rs: `fetch_one`, which asks the chain for one height, and `ingest_one`, which
-- also writes it. What the chain answers is a parameter.
pub mod Fetch
use indexer_rs.Base.{
  ℕ, ℤ, pos, String, Bool, true, false, Option, none, some, List, [], ◌∷◌, Result, ok, err, any,
  keep, ◌==◌, string_eq, ltb_ℤ, if◌then◌else◌,
}
use indexer_rs.Base.Effects.{and_then, ◌>>=◌, ◌>>◌, pure, lift}
use indexer_rs.Domain.{BlockHeight, Hash, Transaction, Log, TokenTransfer, as_u64}
use indexer_rs.Chain.Error.{ChainResult, invalid_argument}
use indexer_rs.Chain.Retry.{BackoffConfig, retry_with_backoff, result_of}
use indexer_rs.Sync.World.{SyncError, invalid, Io, sql}
use indexer_rs.Sync.Cursor.{write_cursor}
use indexer_rs.Sync.Convert.{
  Hex, RpcLog, NativeBlockResponse, Converted, to_domain_block_from_native,
  to_domain_txs_from_native, to_domain_logs,
}
use indexer_rs.Sync.TokenDecode.{decode_transfer}
use indexer_rs.Sync.BlockWriter.{BlockBundle, write_block}
use indexer_rs.Sync.Reorg.{chain_result}

-- `eth_getLogs` over a range of `u64` heights, by the attempt.
abbrev pub GetLogs : Type 0
GetLogs = ℕ → ℕ → ℕ → ChainResult (List RpcLog)

-- The chain's endpoints during one run: what each call brings, by its arguments and the attempt.
pub record Endpoints : Type 0 where
  pub block_number : ℕ → ChainResult BlockHeight
  pub block : BlockHeight → ℕ → ChainResult (Option NativeBlockResponse)
  pub get_logs : GetLogs
  pub hex : Hex

abbrev pub logs_between : GetLogs → Option ℕ → Option ℕ → ℕ → ChainResult (List RpcLog)
logs_between get_logs none to attempt = err (invalid_argument "logs_in_range: negative from")
logs_between get_logs (some from) none attempt = err (invalid_argument "logs_in_range: negative to")
logs_between get_logs (some from) (some to) attempt = get_logs from to attempt

-- `ChainProvider::logs_in_range`, with the filter's address in `get_logs`.
unfoldable pub logs_in_range : GetLogs → BlockHeight → BlockHeight → ℕ → ChainResult (List RpcLog)
logs_in_range get_logs from to attempt =
    if ltb_ℤ to from
    then err (invalid_argument "logs_in_range: to < from")
    else logs_between get_logs (as_u64 from) (as_u64 to) attempt

-- A call under the default retries; `?` wraps its error.
abbrev pub retried : {A : Type 0} → BackoffConfig → (ℕ → ChainResult A) → Result SyncError A
retried backoff op = chain_result (result_of (retry_with_backoff backoff op).ending)

-- `.map_err(|e| SyncError::Invalid(e.to_string()))`.
abbrev pub or_invalid : {A : Type 0} → Converted A → Result SyncError A
or_invalid (ok a) = ok a
or_invalid (err e) = err (invalid e)

abbrev pub backed_by : List Transaction → Hash → Bool
backed_by txs x = any (λ (t : Transaction). t.hash == x) txs

-- Drops the logs whose transaction is not in the bundle.
unfoldable pub drop_orphans : List Transaction → List Log → List Log
drop_orphans txs logs = keep (λ (l : Log). backed_by txs l.tx_hash) logs

abbrev pub cons_some : {A : Type 0} → Option A → List A → List A
cons_some none xs = xs
cons_some (some x) xs = x ∷ xs

-- `filter_map(decode_transfer)`.
unfoldable pub decode_transfers : Hex → List Log → List TokenTransfer
decode_transfers hex [] = []
decode_transfers hex (l ∷ logs) =
    let rest = decode_transfers hex logs in cons_some (decode_transfer hex l) rest

unfoldable pub bundle_of :
    Endpoints → NativeBlockResponse → List RpcLog → Result SyncError BlockBundle
unfolding drop_orphans decode_transfers
bundle_of api b rpc_logs =
    and_then (or_invalid (to_domain_block_from_native api.hex b)) (λ dom_block.
      and_then (or_invalid (to_domain_txs_from_native b)) (λ dom_txs.
        and_then (or_invalid (to_domain_logs api.hex rpc_logs)) (λ all_logs.
          let dom_logs = drop_orphans dom_txs all_logs in
          ok (record {
            block = dom_block;
            txs = dom_txs;
            logs = dom_logs;
            token_transfers = decode_transfers api.hex dom_logs;
          }))))

abbrev pub fetch_rest :
    Endpoints
    → BackoffConfig
    → BlockHeight
    → Option NativeBlockResponse
    → Result SyncError (Option BlockBundle)
fetch_rest api backoff h none = ok none
fetch_rest api backoff h (some b) =
    and_then (retried backoff (logs_in_range api.get_logs h h))
      (λ rpc_logs. and_then (bundle_of api b rpc_logs) (λ bundle. ok (some bundle)))

-- `fetch_one`; none is the 404 of a damaged block.
unfoldable pub fetch_one :
    Endpoints → BackoffConfig → BlockHeight → Result SyncError (Option BlockBundle)
unfolding bundle_of
fetch_one api backoff h =
    and_then (retried backoff (api.block h)) (λ block_opt. fetch_rest api backoff h block_opt)

-- The write of what was fetched: a gap advances the cursor alone.
unfoldable pub write_fetched : Bool → BlockHeight → Option BlockBundle → Io (Unit {0})
write_fetched analytics h none = sql (write_cursor h (pos 0))
write_fetched analytics h (some b) = write_block analytics b

-- `ingest_one`, whose fetch is that of `fetch_one`.
unfoldable pub ingest_one : Endpoints → BackoffConfig → Bool → BlockHeight → Io (Unit {0})
ingest_one api backoff analytics h = do
  fetched ← lift (fetch_one api backoff h)
  write_fetched analytics h fetched
