-- ===== src/Db/Chain.antt =====
-- The write statements on the chain's tables: crates/db/src/{blocks, transactions, logs,
-- token_transfers}.rs, with the keys and foreign keys of crates/db/migrations.
use indexer_rs.Base.{
  Bool, not, ◌&&◌, ◌||◌, Option, List, [], ◌∷◌, any, keep, ok, err, ◌==◌, int_eq, string_eq,
  pair_eq, leb_ℤ, if◌then◌else◌,
}
use indexer_rs.Domain.{BlockHeight, Hash, Block, Transaction, Log, TokenTransfer}
use indexer_rs.Db.Table.{has, find, insert_new}
use indexer_rs.Db.Schema.{
  Db, Statement, violates_foreign_key, violates_unique, log_key, transfer_key,
}

abbrev pub has_block : BlockHeight → Db → Bool
has_block h db = has (λ (b : Block). b.height) h db.blocks

abbrev pub has_tx : Hash → Db → Bool
has_tx h db = has (λ (t : Transaction). t.hash) h db.transactions

-- `blocks::insert`: the key is the height; `hash` is UNIQUE and has no conflict clause.
unfoldable pub insert_block : Block → Statement
insert_block b db =
    if has_block b.height db
    then ok db
    else if has (λ (c : Block). c.hash) b.hash db.blocks
    then err violates_unique
    else ok (record db { blocks = b ∷ db.blocks })

-- `transactions::insert`.
unfoldable pub insert_tx : Transaction → Statement
insert_tx t db =
    if has_tx t.hash db
    then ok db
    else if has_block t.block_height db
    then ok (record db { transactions = t ∷ db.transactions })
    else err violates_foreign_key

-- `logs::insert`.
unfoldable pub insert_log : Log → Statement
insert_log l db =
    if has log_key (log_key l) db.logs
    then ok db
    else if has_block l.block_height db && has_tx l.tx_hash db
    then ok (record db { logs = l ∷ db.logs })
    else err violates_foreign_key

-- `token_transfers::insert`: no foreign key.
unfoldable pub insert_transfer : TokenTransfer → Statement
insert_transfer t db =
    ok (record db { token_transfers = insert_new transfer_key t db.token_transfers })

-- One INSERT of many rows: the rows in order, and nothing if one of them fails.
unfoldable pub insert_rows : {R : Type 0} → (R → Statement) → List R → Statement
insert_rows insert [] db = ok db
insert_rows insert (r ∷ rows) db = elim (insert r db) [
  | ok db' ↦ insert_rows insert rows db'
  | err e ↦ err e
]

-- `blocks::get_by_height`.
unfoldable pub get_by_height : BlockHeight → Db → Option Block
get_by_height h db = find (λ (b : Block). b.height) h db.blocks

-- DELETE FROM blocks WHERE height >= h, and what ON DELETE CASCADE drops: the transactions of a deleted
-- block, and the logs of a deleted block or transaction. No constraint ties `token_transfers`.
abbrev pub block_dropped : BlockHeight → Db → BlockHeight → Bool
block_dropped h db k = any (λ (b : Block). leb_ℤ h b.height && b.height == k) db.blocks

abbrev pub tx_dropped : BlockHeight → Db → Hash → Bool
tx_dropped h db x =
    any (λ (t : Transaction). block_dropped h db t.block_height && t.hash == x) db.transactions

unfoldable pub delete_from : BlockHeight → Statement
delete_from h db = ok (record db {
  blocks = keep (λ (b : Block). not (leb_ℤ h b.height)) db.blocks;
  transactions =
      keep (λ (t : Transaction). not (block_dropped h db t.block_height)) db.transactions;
  logs =
      keep (λ (l : Log). not (block_dropped h db l.block_height || tx_dropped h db l.tx_hash))
        db.logs;
})
