-- ===== src/Sync/BlockWriter/Kept.antt =====
-- How the rows of bundles extend the tables of the chain.
use indexer_rs.Base.{◌≡◌, refl, ℤ, inl, inr, List, [], ◌∷◌, All, ok, string_eq, int_eq, pair_eq}
use indexer_rs.Domain.{BlockHeight, Hash, Address, Block, Transaction, Log, TokenTransfer}
use indexer_rs.Db.Table.{insert_new}
use indexer_rs.Db.Extended.{Among, Extended, Extended-trans, Extended-cons, Extended-insert_new}
use indexer_rs.Db.Schema.{Db, Statement, log_key, transfer_key}
use indexer_rs.Db.Chain.{insert_block, insert_tx, insert_log, insert_transfer, insert_rows}
use indexer_rs.Db.Addresses.{upsert_batch}
use indexer_rs.Db.Meta.{write_cursor_row}
use indexer_rs.Db.Growth.{upsert_batch-eq}
use indexer_rs.Db.Integrity.Rows.{
  insert_block-cases, insert_tx-cases, insert_log-cases, write_cursor-SameChain,
}
use indexer_rs.Db.Runs.{◌then_do◌}
use indexer_rs.Sync.BlockWriter.{BlockBundle}
use indexer_rs.Sync.BlockWriter.Held.{then_do-inv}

abbrev pub block_key : Block → BlockHeight
block_key b = b.height

abbrev pub tx_key : Transaction → Hash
tx_key t = t.hash

-- The rows of the bundles that are `given`.
abbrev pub BlockOf : (BlockBundle → Type 0) → Block → Type 0
BlockOf given s = (c : BlockBundle) × given c × (s ≡ c.block)

abbrev pub TxOf : (BlockBundle → Type 0) → Transaction → Type 0
TxOf given s = (c : BlockBundle) × given c × Among c.txs s

abbrev pub LogOf : (BlockBundle → Type 0) → Log → Type 0
LogOf given s = (c : BlockBundle) × given c × Among c.logs s

abbrev pub TransferOf : (BlockBundle → Type 0) → TokenTransfer → Type 0
TransferOf given s = (c : BlockBundle) × given c × Among c.token_transfers s

-- From one state of the tables to another, every key keeps its row, and every new row, with all its
-- columns, is a row of a given bundle.
pub record Extends (given : BlockBundle → Type 0) (a b : Db) : Type 0 where
  pub blocks : Extended block_key (BlockOf given) a.blocks b.blocks
  pub txs : Extended tx_key (TxOf given) a.transactions b.transactions
  pub logs : Extended log_key (LogOf given) a.logs b.logs
  pub transfers : Extended transfer_key (TransferOf given) a.token_transfers b.token_transfers

pub Extends-refl : (given : BlockBundle → Type 0) (a : Db) → Extends given a a
Extends-refl given a = record {
  blocks = λ k. inl refl;
  txs = λ k. inl refl;
  logs = λ k. inl refl;
  transfers = λ k. inl refl;
}

pub Extends-trans :
    (given : BlockBundle → Type 0) (a b c : Db)
    → Extends given a b
    → Extends given b c
    → Extends given a c
Extends-trans given a b c f g = record {
  blocks = Extended-trans block_key _ a.blocks b.blocks c.blocks f.blocks g.blocks;
  txs = Extended-trans tx_key _ a.transactions b.transactions c.transactions f.txs g.txs;
  logs = Extended-trans log_key _ a.logs b.logs c.logs f.logs g.logs;
  transfers =
      Extended-trans transfer_key _ a.token_transfers b.token_transfers c.token_transfers
        f.transfers g.transfers;
}

abbrev pub ExtendsBy : (BlockBundle → Type 0) → Statement → Type 0
ExtendsBy given f = (db db' : Db) → f db ≡ ok db' → Extends given db db'

module _ (given : BlockBundle → Type 0) where
  pub then-ExtendsBy :
      (f g : Statement) → ExtendsBy given f → ExtendsBy given g → ExtendsBy given (f then_do g)
  then-ExtendsBy f g xf xg db db' h =
      let (mid, one, rest) = then_do-inv f g db db' h in
      Extends-trans given db mid db' (xf db mid one) (xg mid db' rest)

  pub insert_block-ExtendsBy : (b : Block) → BlockOf given b → ExtendsBy given (insert_block b)
  insert_block-ExtendsBy b w db db' e = elim (insert_block-cases b db db' e) [
    | inl (_, same) ↦ rw same (Extends-refl given db)
    | inr (fresh, more) ↦ rw more (record {
      blocks = Extended-cons block_key _ b db.blocks fresh w;
      txs = λ k. inl refl;
      logs = λ k. inl refl;
      transfers = λ k. inl refl;
    })
  ]

  pub insert_tx-ExtendsBy : (t : Transaction) → TxOf given t → ExtendsBy given (insert_tx t)
  insert_tx-ExtendsBy t w db db' e = elim (insert_tx-cases t db db' e) [
    | inl (_, same) ↦ rw same (Extends-refl given db)
    | inr (fresh, _, more) ↦ rw more (record {
      txs = Extended-cons tx_key _ t db.transactions fresh w;
      blocks = λ k. inl refl;
      logs = λ k. inl refl;
      transfers = λ k. inl refl;
    })
  ]

  pub insert_log-ExtendsBy : (l : Log) → LogOf given l → ExtendsBy given (insert_log l)
  insert_log-ExtendsBy l w db db' e = elim (insert_log-cases l db db' e) [
    | inl (_, same) ↦ rw same (Extends-refl given db)
    | inr (fresh, _, _, more) ↦ rw more (record {
      logs = Extended-cons log_key _ l db.logs fresh w;
      blocks = λ k. inl refl;
      txs = λ k. inl refl;
      transfers = λ k. inl refl;
    })
  ]

  pub insert_transfer-ExtendsBy :
      (t : TokenTransfer) → TransferOf given t → ExtendsBy given (insert_transfer t)
  unfolding insert_transfer
  insert_transfer-ExtendsBy t w db db' e =
      let more : db'
          ≡ record db { token_transfers = insert_new transfer_key t db.token_transfers } =
        cc in
      rw more (record {
        transfers = Extended-insert_new transfer_key _ t db.token_transfers w;
        blocks = λ k. inl refl;
        txs = λ k. inl refl;
        logs = λ k. inl refl;
      })

  pub upsert_batch-ExtendsBy : (seen : List (Address × ℤ)) → ExtendsBy given (upsert_batch seen)
  upsert_batch-ExtendsBy seen db db' e =
      let (_, more) = upsert_batch-eq seen db db' e in
      rw more (record {
        blocks = λ k. inl refl;
        txs = λ k. inl refl;
        logs = λ k. inl refl;
        transfers = λ k. inl refl;
      })

  pub write_cursor-ExtendsBy : (h : BlockHeight) (ts : ℤ) → ExtendsBy given (write_cursor_row h ts)
  write_cursor-ExtendsBy h ts db db' e = rw (write_cursor-SameChain h ts db db' e) (record {
    blocks = λ k. inl refl;
    txs = λ k. inl refl;
    logs = λ k. inl refl;
    transfers = λ k. inl refl;
  })

  pub rows-ExtendsBy :
      {R : Type 0} (insert : R → Statement) (rows : List R)
      → All (λ r. ExtendsBy given (insert r)) rows
      → ExtendsBy given (insert_rows insert rows)
  unfolding insert_rows
  rows-ExtendsBy insert [] all db db' e =
      let same : db' ≡ db = cc in rw same (Extends-refl given db)
  rows-ExtendsBy insert (r ∷ rows) all db db' e =
      let (mid, one, rest) = then_do-inv (insert r) (insert_rows insert rows) db db' e in
      Extends-trans given db mid db' (all.0 db mid one)
        (rows-ExtendsBy insert rows all.1 mid db' rest)
