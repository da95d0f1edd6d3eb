-- ===== src/Sync/BlockWriter/Bundle.antt =====
-- What the transaction of `write_block` does to the tables, as one statement.
use indexer_rs.Base.{inl, inr, ◌≡◌, ℤ, List, [], ◌∷◌, arith, string_eq, int_eq, pair_eq}
use indexer_rs.Base.Effects.{Result-cases}
use indexer_rs.Domain.{Address}
use indexer_rs.Db.Schema.{Db, Statement}
use indexer_rs.Db.Chain.{insert_block, insert_tx, insert_log, insert_transfer, insert_rows}
use indexer_rs.Db.Addresses.{upsert_batch}
use indexer_rs.Db.Meta.{write_cursor_row}
use indexer_rs.Db.Runs.{◌then_do◌, skip, Runs, Runs-execute, Runs-then, Runs-pure, Runs-for_each}
use indexer_rs.Db.Integrity.{IsConsistent, Keeps}
use indexer_rs.Db.Integrity.Rows.{
  insert_block-IsConsistent, insert_tx-IsConsistent, insert_log-IsConsistent,
  insert_transfer-IsConsistent, upsert_batch-IsConsistent, write_cursor-IsConsistent,
  insert_rows-Keeps,
}
use indexer_rs.Sync.Cursor.{write_cursor}
use indexer_rs.Sync.BlockWriter.{BlockBundle, tx_addresses, register_addresses, bundle_sql}

abbrev pub register_rows : List (Address × ℤ) → Statement
register_rows [] = skip
register_rows (s ∷ seen) = upsert_batch (s ∷ seen)

-- The rows of a block in the order of the code, then the cursor, from each stage on.
abbrev pub from_transfers : BlockBundle → Statement
from_transfers b =
    insert_rows insert_transfer b.token_transfers
    then_do write_cursor_row b.block.height b.block.timestamp

abbrev pub from_logs : BlockBundle → Statement
from_logs b = insert_rows insert_log b.logs then_do from_transfers b

abbrev pub from_addresses : BlockBundle → Statement
from_addresses b = register_rows (tx_addresses b.txs) then_do from_logs b

abbrev pub from_txs : BlockBundle → Statement
from_txs b = insert_rows insert_tx b.txs then_do from_addresses b

abbrev pub bundle_rows : BlockBundle → Statement
bundle_rows b = insert_block b.block then_do from_txs b

Runs-register : (seen : List (Address × ℤ)) → Runs (register_addresses seen) (register_rows seen)
unfolding register_addresses
Runs-register [] = Runs-pure
Runs-register (s ∷ seen) = Runs-execute (upsert_batch (s ∷ seen))

pub Runs-bundle : (b : BlockBundle) → Runs (bundle_sql b) (bundle_rows b)
unfolding bundle_sql write_cursor
Runs-bundle b = Runs-then _ _ _ _ (Runs-execute (insert_block b.block)) (
    Runs-then _ _ _ _ (Runs-for_each insert_tx b.txs) (
      Runs-then _ _ _ _ (Runs-register (tx_addresses b.txs)) (
        Runs-then _ _ _ _ (Runs-for_each insert_log b.logs) (
          Runs-then _ _ _ _ (Runs-for_each insert_transfer b.token_transfers)
            (Runs-execute (write_cursor_row b.block.height b.block.timestamp))))))

pub Keeps-then : (P : Db → Type 0) (f g : Statement) → Keeps P f → Keeps P g → Keeps P (f then_do g)
Keeps-then P f g kf kg db db' p h = elim (Result-cases (f db)) [
  | inl (mid, e) ↦ kg mid db' (kf db mid p e) (rw (e, ◌then_do◌) at h)
  | inr (x, e) ↦ absurd (ground (arith, e))
]

register-IsConsistent : (seen : List (Address × ℤ)) → Keeps IsConsistent (register_rows seen)
register-IsConsistent [] db db' c e = let same : db' ≡ db = cc in rw same c
register-IsConsistent (s ∷ seen) db db' c e = upsert_batch-IsConsistent (s ∷ seen) db db' c e

pub bundle_rows-IsConsistent : (b : BlockBundle) → Keeps IsConsistent (bundle_rows b)
bundle_rows-IsConsistent b = Keeps-then _ _ _ (insert_block-IsConsistent b.block) (
    Keeps-then _ _ _ (insert_rows-Keeps _ _ insert_tx-IsConsistent b.txs) (
      Keeps-then _ _ _ (register-IsConsistent (tx_addresses b.txs)) (
        Keeps-then _ _ _ (insert_rows-Keeps _ _ insert_log-IsConsistent b.logs) (
          Keeps-then _ _ _ (insert_rows-Keeps _ _ insert_transfer-IsConsistent b.token_transfers)
            (write_cursor-IsConsistent b.block.height b.block.timestamp)))))
