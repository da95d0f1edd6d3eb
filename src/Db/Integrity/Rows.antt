-- ===== src/Db/Integrity/Rows.antt =====
-- The insertions, one row or many, keep the tables consistent.
use indexer_rs.Base.{
  ◌≡◌, true, false, ◌⊎◌, inl, inr, List, [], ◌∷◌, arith, All-map, int_eq, string_eq, pair_eq, ok, ℤ,
}
use indexer_rs.Base.Effects.{Result-cases}
use indexer_rs.Domain.{BlockHeight, Hash, Address, Block, Transaction, Log, TokenTransfer}
use indexer_rs.Db.Table.{has, insert_new, Unique, Unique-insert_new}
use indexer_rs.Db.Schema.{Db, Statement, log_key, transfer_key}
use indexer_rs.Db.Chain.{
  has_block, has_tx, insert_block, insert_tx, insert_log, insert_transfer, insert_rows,
}
use indexer_rs.Db.Addresses.{upsert_batch}
use indexer_rs.Db.Meta.{set_i64, write_cursor_row}
use indexer_rs.Db.Integrity.{IsConsistent, Keeps}

-- What a successful insertion did.
pub insert_block-cases :
    (b : Block) (db db' : Db)
    → insert_block b db ≡ ok db'
    → (has_block b.height db ≡ true) × (db' ≡ db)
      ⊎ (has_block b.height db ≡ false) × (db' ≡ record db { blocks = b ∷ db.blocks })
unfolding insert_block
insert_block-cases b db db' h = ground arith

pub insert_tx-cases :
    (t : Transaction) (db db' : Db)
    → insert_tx t db ≡ ok db'
    → (has_tx t.hash db ≡ true) × (db' ≡ db)
      ⊎ (has_tx t.hash db ≡ false)
        × (has_block t.block_height db ≡ true)
        × (db' ≡ record db { transactions = t ∷ db.transactions })
unfolding insert_tx
insert_tx-cases t db db' h = ground arith

pub insert_log-cases :
    (l : Log) (db db' : Db)
    → insert_log l db ≡ ok db'
    → (has log_key (log_key l) db.logs ≡ true) × (db' ≡ db)
      ⊎ (has log_key (log_key l) db.logs ≡ false)
        × (has_block l.block_height db ≡ true)
        × (has_tx l.tx_hash db ≡ true)
        × (db' ≡ record db { logs = l ∷ db.logs })
unfolding insert_log
insert_log-cases l db db' h = ground arith

has_block-cons :
    (b : Block) (db : Db) (k : BlockHeight)
    → has_block k db ≡ true
    → has_block k (record db { blocks = b ∷ db.blocks }) ≡ true
unfolding has
has_block-cons b db k h = ground arith

has_tx-cons :
    (t : Transaction) (db : Db) (k : Hash)
    → has_tx k db ≡ true
    → has_tx k (record db { transactions = t ∷ db.transactions }) ≡ true
unfolding has
has_tx-cons t db k h = ground arith

pub insert_block-IsConsistent : (b : Block) → Keeps IsConsistent (insert_block b)
insert_block-IsConsistent b db db' c e = elim (insert_block-cases b db db' e) [
  | inl (_, same) ↦ rw same c
  | inr (new, more) ↦ rw more (record {
    tx_blocks = All-map _ _ db.transactions (λ t. has_block-cons b db t.block_height) c.tx_blocks;
    log_blocks = All-map _ _ db.logs (λ l. has_block-cons b db l.block_height) c.log_blocks;
    log_txs = c.log_txs;
    unique_blocks = (new, c.unique_blocks);
    unique_txs = c.unique_txs;
    unique_logs = c.unique_logs;
    unique_transfers = c.unique_transfers;
  })
]

pub insert_tx-IsConsistent : (t : Transaction) → Keeps IsConsistent (insert_tx t)
insert_tx-IsConsistent t db db' c e = elim (insert_tx-cases t db db' e) [
  | inl (_, same) ↦ rw same c
  | inr (new, block, more) ↦ rw more (record {
    tx_blocks = (block, c.tx_blocks);
    log_blocks = c.log_blocks;
    log_txs = All-map _ _ db.logs (λ l. has_tx-cons t db l.tx_hash) c.log_txs;
    unique_blocks = c.unique_blocks;
    unique_txs = (new, c.unique_txs);
    unique_logs = c.unique_logs;
    unique_transfers = c.unique_transfers;
  })
]

pub insert_log-IsConsistent : (l : Log) → Keeps IsConsistent (insert_log l)
insert_log-IsConsistent l db db' c e = elim (insert_log-cases l db db' e) [
  | inl (_, same) ↦ rw same c
  | inr (new, block, tx, more) ↦ rw more (record {
    tx_blocks = c.tx_blocks;
    log_blocks = (block, c.log_blocks);
    log_txs = (tx, c.log_txs);
    unique_blocks = c.unique_blocks;
    unique_txs = c.unique_txs;
    unique_logs = (new, c.unique_logs);
    unique_transfers = c.unique_transfers;
  })
]

-- The tables differ in `token_transfers`, `addresses` and `meta` only.
abbrev pub SameChain : Db → Db → Type 0
SameChain db db' = db' ≡ record db {
  token_transfers = db'.token_transfers;
  addresses = db'.addresses;
  meta = db'.meta;
}

SameChain-IsConsistent :
    (db db' : Db)
    → SameChain db db'
    → Unique transfer_key db'.token_transfers
    → IsConsistent db
    → IsConsistent db'
SameChain-IsConsistent db db' same u c = rw same (record {
  tx_blocks = c.tx_blocks;
  log_blocks = c.log_blocks;
  log_txs = c.log_txs;
  unique_blocks = c.unique_blocks;
  unique_txs = c.unique_txs;
  unique_logs = c.unique_logs;
  unique_transfers = u;
})

pub insert_transfer-IsConsistent : (t : TokenTransfer) → Keeps IsConsistent (insert_transfer t)
unfolding insert_transfer
insert_transfer-IsConsistent t db db' c e =
    let same : db' ≡ record db { token_transfers = insert_new transfer_key t db.token_transfers } =
      cc in
    SameChain-IsConsistent db db' (rw same)
      (rw same (Unique-insert_new transfer_key t _ c.unique_transfers)) c

pub upsert_batch-SameChain :
    (seen : List (Address × ℤ)) (db db' : Db)
    → upsert_batch seen db ≡ ok db'
    → db' ≡ record db { addresses = db'.addresses }
unfolding upsert_batch
upsert_batch-SameChain seen db db' e = ground arith

pub write_cursor-SameChain :
    (h : BlockHeight) (ts : ℤ) (db db' : Db)
    → write_cursor_row h ts db ≡ ok db'
    → db' ≡ record db { meta = db'.meta }
unfolding write_cursor_row set_i64
write_cursor-SameChain h ts db db' e = ground arith

pub upsert_batch-IsConsistent : (seen : List (Address × ℤ)) → Keeps IsConsistent (upsert_batch seen)
upsert_batch-IsConsistent seen db db' c e =
    let same = upsert_batch-SameChain seen db db' e in
    SameChain-IsConsistent db db' (cc) (rw same c.unique_transfers) c

pub write_cursor-IsConsistent :
    (h : BlockHeight) (ts : ℤ) → Keeps IsConsistent (write_cursor_row h ts)
write_cursor-IsConsistent h ts db db' c e =
    let same = write_cursor-SameChain h ts db db' e in
    SameChain-IsConsistent db db' (cc) (rw same c.unique_transfers) c

pub insert_rows-Keeps :
    {R : Type 0} (P : Db → Type 0) (insert : R → Statement)
    → ((r : R) → Keeps P (insert r))
    → (rows : List R) → Keeps P (insert_rows insert rows)
unfolding insert_rows
insert_rows-Keeps P insert k [] db db' p e = let same : db' ≡ db = cc in rw same p
insert_rows-Keeps P insert k (r ∷ rows) db db' p e = elim (Result-cases (insert r db)) [
  | inl (mid, one) ↦ insert_rows-Keeps P insert k rows mid db' (k r db mid p one) (ground arith)
  | inr (x, fail) ↦ absurd (ground arith)
]
