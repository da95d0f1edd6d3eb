-- ===== src/Sync/BlockWriter/Whole.antt =====
-- `write_block`: what a written block leaves in the tables, row by row.
use indexer_rs.Base.{◌≡◌, refl, ap, ◌∙◌, ℤ, ◌≤ℤ◌, some, Bool, List, [], ◌∷◌, arith, All, ok, int_eq}
use mathlib.Core.Path.{subst}
use indexer_rs.Domain.{Address, Block, Transaction, Log, TokenTransfer}
use indexer_rs.Db.Extended.{Stored-weaken}
use indexer_rs.Db.Schema.{Db, Statement, AddressRow}
use indexer_rs.Db.Chain.{insert_block, insert_tx, insert_log, insert_transfer, insert_rows}
use indexer_rs.Db.Meta.{write_cursor_row}
use indexer_rs.Db.Growth.{upsert_batch-eq}
use indexer_rs.Db.Addresses.{upsert_all}
use indexer_rs.Db.Integrity.Rows.{write_cursor-SameChain}
use indexer_rs.Sync.World.{World}
use indexer_rs.Sync.Cursor.{stored_cursor}
use indexer_rs.Sync.BlockWriter.{BlockBundle, tx_addresses, write_block}
use indexer_rs.Sync.BlockWriter.Bundle.{
  bundle_rows, register_rows, from_txs, from_addresses, from_logs, from_transfers,
}
use indexer_rs.Sync.BlockWriter.Held.{then_do-inv, bundle_rows-Holds}
use indexer_rs.Sync.BlockWriter.Kept.{block_key, BlockOf, Extends}
use indexer_rs.Sync.BlockWriter.Written.{bundle_rows-ExtendsBy, HoldsRows, Extends-HoldsRows}
use indexer_rs.Sync.BlockWriter.Seen.{SeenBy, note_txs-SeenBy}
use indexer_rs.Sync.BlockWriter.Replay.{bundle_rows-cursor}
use indexer_rs.Sync.BlockWriter.Single.{write_block-ok}

-- Statements that leave the registry alone.
abbrev KeepsRegistry : Statement → Type 0
KeepsRegistry f = (db db' : Db) → f db ≡ ok db' → db'.addresses ≡ db.addresses

block-registry : (b : Block) → KeepsRegistry (insert_block b)
unfolding insert_block
block-registry b db db' e = ground arith

tx-registry : (t : Transaction) → KeepsRegistry (insert_tx t)
unfolding insert_tx
tx-registry t db db' e = ground arith

log-registry : (l : Log) → KeepsRegistry (insert_log l)
unfolding insert_log
log-registry l db db' e = ground arith

transfer-registry : (t : TokenTransfer) → KeepsRegistry (insert_transfer t)
unfolding insert_transfer
transfer-registry t db db' e = ground arith

rows-registry :
    {R : Type 0} (insert : R → Statement)
    → ((r : R) → KeepsRegistry (insert r))
    → (rows : List R) → KeepsRegistry (insert_rows insert rows)
unfolding insert_rows
rows-registry insert k [] db db' e = let same : db' ≡ db = ground arith in rw same refl
rows-registry insert k (r ∷ rows) db db' e =
    let (mid, first, rest) = then_do-inv (insert r) (insert_rows insert rows) db db' e in
    rows-registry insert k rows mid db' rest ∙ k r db mid first

cursor-registry : (h ts : ℤ) → KeepsRegistry (write_cursor_row h ts)
cursor-registry h ts db db' e = rw (write_cursor-SameChain h ts db db' e) refl

register-registry :
    (seen : List (Address × ℤ)) (db db' : Db)
    → register_rows seen db ≡ ok db'
    → db'.addresses ≡ upsert_all seen db.addresses
unfolding upsert_all
register-registry [] db db' e = ground arith
register-registry (s ∷ seen) db db' e =
    let (_, more) = upsert_batch-eq (s ∷ seen) db db' e in rw more refl

-- The registry after a bundle is the registry before it with the sightings of its transactions.
bundle_rows-registry :
    (b : BlockBundle) (db db' : Db)
    → bundle_rows b db ≡ ok db'
    → db'.addresses ≡ upsert_all (tx_addresses b.txs) db.addresses
bundle_rows-registry b db db' e =
    let (d1, e1, r1) = then_do-inv (insert_block b.block) (from_txs b) db db' e in
    let (d2, e2, r2) = then_do-inv (insert_rows insert_tx b.txs) (from_addresses b) d1 db' r1 in
    let (d3, e3, r3) = then_do-inv (register_rows (tx_addresses b.txs)) (from_logs b) d2 db' r2 in
    let (d4, e4, r4) = then_do-inv (insert_rows insert_log b.logs) (from_transfers b) d3 db' r3 in
    let (d5, e5, r5) =
      then_do-inv (insert_rows insert_transfer b.token_transfers)
        (write_cursor_row b.block.height b.block.timestamp) d4 db' r4 in
    let before : d2.addresses ≡ db.addresses =
      rows-registry insert_tx tx-registry b.txs d1 d2 e2 ∙ block-registry b.block db d1 e1 in
    let after : db'.addresses ≡ d3.addresses =
      cursor-registry b.block.height b.block.timestamp d5 db' r5
      ∙ (rows-registry insert_transfer transfer-registry b.token_transfers d4 d5 e5
          ∙ rows-registry insert_log log-registry b.logs d3 d4 e4) in
    after
    ∙ subst (λ (rows : List AddressRow). d3.addresses ≡ upsert_all (tx_addresses b.txs) rows) before
        (register-registry (tx_addresses b.txs) d2 d3 e3)

-- After `write_block` succeeds, the tables have a row for the block and for each of its transactions, logs
-- and transfers: a key that had a row before keeps that row, the block is otherwise exactly the block that
-- was written, and the others are, with all their columns, rows of the bundle with that key. No other key of
-- these tables has another row than before, except for such rows. The registry has a row for the sender and
-- the receiver of each transaction, whose first block is that of an earlier row of the address or, if it had
-- none, no later than the transaction. The stored cursor is at the height of the block or above.
pub write_block-HoldsRows :
    (analytics : Bool) (b : BlockBundle) (w : World)
    → (write_block analytics b w).0 ≡ ok tt
    → let after = (write_block analytics b w).1.db in
      let given = λ (c : BlockBundle). c ≡ b in
      HoldsRows given (λ (s : Block). s ≡ b.block) w.db after b
      × Extends given w.db after
      × All (SeenBy w.db.addresses after.addresses) b.txs
      × ((c : ℤ) × (stored_cursor after ≡ ok (some c)) × (b.block.height ≤ℤ c))
write_block-HoldsRows analytics b w fin =
    let given = λ (c : BlockBundle). c ≡ b in
    let after = (write_block analytics b w).1.db in
    let rows = write_block-ok analytics b w fin in
    let x = bundle_rows-ExtendsBy given b refl w.db after rows in
    let keys = bundle_rows-Holds b w.db after rows in
    let held = Extends-HoldsRows given w.db after b x (record {
      block = keys.block;
      txs = keys.txs;
      logs = keys.logs;
      transfers = keys.transfers;
    }) in
    (
      record {
        block =
            Stored-weaken block_key (BlockOf given) (λ (s : Block). s ≡ b.block) w.db.blocks
              after.blocks b.block
              (λ s at (c, same, is). is ∙ ap (λ (x : BlockBundle). x.block) same) held.block;
        txs = held.txs;
        logs = held.logs;
        transfers = held.transfers;
      },
      x,
      rw (bundle_rows-registry b w.db after rows) (note_txs-SeenBy b.txs w.db.addresses),
      bundle_rows-cursor b w.db after rows,
    )
