-- ===== src/Db/Integrity.antt =====
-- What the schema's keys and foreign keys promise, and that each write statement keeps it.
pub mod Rows
pub mod Delete
use indexer_rs.Base.{◌≡◌, true, List, All, Key, int_eq, string_eq, pair_eq, ok}
use indexer_rs.Domain.{Block, Transaction, Log, TokenTransfer}
use indexer_rs.Db.Table.{Unique}
use indexer_rs.Db.Schema.{Db, Statement, log_key, transfer_key}
use indexer_rs.Db.Chain.{has_block, has_tx}

-- The foreign keys of transactions and logs hold, and the keys of the tables are unique.
pub record IsConsistent (db : Db) : Type 0 where
  pub tx_blocks : All (λ (t : Transaction). has_block t.block_height db ≡ true) db.transactions
  pub log_blocks : All (λ (l : Log). has_block l.block_height db ≡ true) db.logs
  pub log_txs : All (λ (l : Log). has_tx l.tx_hash db ≡ true) db.logs
  pub unique_blocks : Unique (λ (b : Block). b.height) db.blocks
  pub unique_txs : Unique (λ (t : Transaction). t.hash) db.transactions
  pub unique_logs : Unique log_key db.logs
  pub unique_transfers : Unique transfer_key db.token_transfers

-- A statement that succeeds keeps `P`.
abbrev pub Keeps : (Db → Type 0) → Statement → Type 0
Keeps P f = (db db' : Db) → P db → f db ≡ ok db' → P db'
