-- ===== src/Lib.antt =====
-- The block indexer of the Sentrix chain: it copies blocks, transactions, logs and token transfers from a
-- chain into Postgres, and keeps a cursor of the height that it has written through.
--
-- The parts and their files:
--   Base           Boolean tests, lists and signed integers over the native numbers, keys, `Exec`, fallible
--                  code over a state, and Base.Text: parse::<i64>(), to_string and to_lowercase of Rust.
--   Chain          crates/chain. Chain.Error: error.rs, which errors are worth a retry. Chain.Retry:
--                  retry.rs, the backoff schedule and the retry loop (retry_with_backoff). Chain.Rest:
--                  rest.rs, the client of the native endpoints.
--   Domain         crates/domain. The row types; Domain.Kinds: the kinds and their database texts.
--   Db             crates/db. Db.Schema: the tables of crates/db/migrations. Db.Chain, Db.Meta, Db.Addresses:
--                  the statements of blocks.rs, transactions.rs, logs.rs, token_transfers.rs, meta.rs and
--                  addresses.rs, each a function on the tables that may fail by a constraint. Db.Session:
--                  the pool, whose every round trip may fail, and transactions. Db.Runs: a sequence of round
--                  trips as one statement. Db.Integrity: foreign keys and unique keys. Db.Growth: no
--                  insertion loses a row.
--   Sync           crates/sync. Sync.World: the pool with the analytics channel. Sync.Cursor: cursor.rs.
--                  Sync.Convert: convert.rs. Sync.TokenDecode: token_decode.rs. Sync.BlockWriter:
--                  block_writer.rs. Sync.Ingest: fetch_one and ingest_one of backfill.rs. Sync.Backfill:
--                  run_backfill. Sync.SingleFlight: single_flight.rs. Sync.Tail: handle_finalized of tail.rs;
--                  Sync.Tail.Events: run_tail, and the task of bin/indexer.rs around it.
--                  Sync.Reorg: reorg.rs. Sync.ContractDetect: contract_detect.rs.
--   Coinblast      crates/coinblast. Db.Coinblast: cb_tokens.rs and cb_trades.rs of crates/db.
--                  Coinblast.Handlers: handlers.rs, one handler for each event of a curve.
--                  Coinblast.Orphan: orphan.rs. Coinblast.Worker: worker.rs and events.rs.
--   Cache          crates/cache. Cache.Breaker: breaker.rs. Cache.Client: client.rs, and get_or_load of
--                  crates/api/src/cached.rs.
--   Analytics      crates/analytics. Analytics.Flusher: flusher.rs, whose row and push stand in Sync.World.
--   Api            crates/api. Api.Error: error.rs, and clamp_limit. Api.Auth: auth.rs. Api.Serialise:
--                  serialise.rs. Api.Listing: ORDER BY and LIMIT. Api.Blocks: routes/blocks.rs, and list_before
--                  of crates/db/src/blocks.rs. Api.Etherscan: routes/etherscan.rs. Api.Served: from
--                  the backfill to the handler `detail`.
--
-- The tail and the backfill both fetch by Sync.Ingest and write by Sync.BlockWriter, which writes rows and
-- cursor in one transaction; the tail's workers go through the gate of Sync.SingleFlight.
--
-- An i64 or i32 field is an integer, an amount a number; the casts and checks of the code are written out.
-- A table is a list of rows. What Postgres does is what the statements and the schema say; the widths of
-- columns are not modelled. A Session carries a list of faults, one for each round trip to come, and past its
-- end no round trip fails, so a theorem about every session covers every pattern of failures. What the chain
-- answers is a parameter (Endpoints, Remote), a function of the call and the attempt. The backfill's fetches
-- run concurrently in the code, but their results come in the order of the heights and do not depend on the
-- tables, so the model takes them in that order.
--
-- Recursion is structural, over the rounds left, the heights left or the height itself, with one exception:
-- the worker of Sync.Tail runs on fuel, one more than the rounds in which tips arrive. The endless loops run
-- over the list of the rounds that the environment lets them begin.
--
-- Not modelled: the HTTP library, the JSON-RPC and gRPC clients, Redis, the other routes of the API and its
-- GraphQL, the codec of amounts, the start-up of the binaries, and logging.
pub mod Base
pub mod Chain
pub mod Domain
pub mod Db
pub mod Sync
pub mod Coinblast
pub mod Cache
pub mod Api
pub mod Analytics
