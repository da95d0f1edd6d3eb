-- ===== src/Sync/BlockWriter/Replay.antt =====
-- Writing a bundle that the tables hold changes nothing.
use indexer_rs.Base.{
  ◌≡◌, refl, ap, ◌∙◌, ℤ, true, false, List, [], ◌∷◌, All, All-map, ok, inl, inr, string_eq, int_eq,
  pair_eq, ◌==◌, max_ℤ-eq_left, ◌≤ℤ◌, Bool-cases, some,
}
use indexer_rs.Domain.{Address, Block, Transaction, Log, TokenTransfer}
use indexer_rs.Db.Table.{has, insert_new_present}
use indexer_rs.Db.Schema.{Db, Statement, AddressRow, log_key, transfer_key}
use indexer_rs.Db.Chain.{
  has_block, has_tx, insert_block, insert_tx, insert_log, insert_transfer, insert_rows,
}
use indexer_rs.Db.Addresses.{upsert_address, upsert_all, meets_twice, upsert_batch}
use indexer_rs.Db.Meta.{write_cursor_row}
use indexer_rs.Db.Runs.{◌then_do◌}
use indexer_rs.Db.Growth.{Covered, upsert_batch-eq}
use indexer_rs.Sync.Cursor.{
  stored_cursor, stored_cursor-set_i64, write_cursor-inv, write_cursor_twice,
}
use indexer_rs.Sync.BlockWriter.{BlockBundle, tx_addresses}
use indexer_rs.Sync.BlockWriter.Bundle.{
  bundle_rows, register_rows, from_txs, from_addresses, from_logs, from_transfers,
}
use indexer_rs.Sync.BlockWriter.Held.{Holds, then_do-inv, bundle_rows-Holds}

upsert_address-present :
    (p : Address × ℤ) (rows : List AddressRow) → Covered p rows → upsert_address p rows ≡ rows
unfolding upsert_address
upsert_address-present p [] c = absurd c
upsert_address-present (a, k) (r ∷ rows) c = elim (Bool-cases (r.address == a)) [
  | inl hit ↦
      let later : k ≤ℤ r.last_seen_block = rw hit at c in
      rw hit (ap (λ (v : ℤ). record r { last_seen_block = v } ∷ rows) (max_ℤ-eq_left _ _ later))
  | inr miss ↦
      rw miss
        (ap (λ (q : List AddressRow). r ∷ q) (upsert_address-present (a, k) rows (rw miss at c)))
]

upsert_all-present :
    (seen : List (Address × ℤ)) (rows : List AddressRow)
    → All (λ s. Covered s rows) seen
    → upsert_all seen rows ≡ rows
unfolding upsert_all
upsert_all-present [] rows c = refl
upsert_all-present (s ∷ seen) rows c =
    rw (upsert_address-present s rows c.0) (upsert_all-present seen rows c.1)

register-present :
    (seen : List (Address × ℤ)) (db : Db)
    → meets_twice seen ≡ false
    → All (λ s. Covered s db.addresses) seen
    → register_rows seen db ≡ ok db
register-present [] db once c = refl
register-present (s ∷ seen) db once c =
    unfold upsert_batch in
    rw once (
      ap (λ (rows : List AddressRow). ok (record db { addresses = rows }))
        (upsert_all-present (s ∷ seen) db.addresses c))

insert_rows-present :
    {R : Type 0} (insert : R → Statement) (rows : List R) (db : Db)
    → All (λ r. insert r db ≡ ok db) rows
    → insert_rows insert rows db ≡ ok db
unfolding insert_rows
insert_rows-present insert [] db all = refl
insert_rows-present insert (r ∷ rows) db all =
    rw (all.0, insert_rows) (insert_rows-present insert rows db all.1)

register-once :
    (seen : List (Address × ℤ)) (db db' : Db)
    → register_rows seen db ≡ ok db'
    → meets_twice seen ≡ false
unfolding meets_twice
register-once [] db db' e = refl
register-once (s ∷ seen) db db' e = (upsert_batch-eq (s ∷ seen) db db' e).0

insert_block-present :
    (b : Block) (db : Db) → has_block b.height db ≡ true → insert_block b db ≡ ok db
unfolding insert_block
insert_block-present b db h = rw h

insert_tx-present : (t : Transaction) (db : Db) → has_tx t.hash db ≡ true → insert_tx t db ≡ ok db
unfolding insert_tx
insert_tx-present t db h = rw h

insert_log-present :
    (l : Log) (db : Db) → has log_key (log_key l) db.logs ≡ true → insert_log l db ≡ ok db
unfolding insert_log
insert_log-present l db h = rw h

insert_transfer-present :
    (t : TokenTransfer) (db : Db)
    → has transfer_key (transfer_key t) db.token_transfers ≡ true
    → insert_transfer t db ≡ ok db
unfolding insert_transfer
insert_transfer-present t db h = rw (insert_new_present transfer_key t db.token_transfers h)

-- Writing a bundle that the tables hold is the cursor write alone.
pub bundle_rows-held :
    (b : BlockBundle) (db : Db)
    → Holds b db
    → meets_twice (tx_addresses b.txs) ≡ false
    → bundle_rows b db ≡ write_cursor_row b.block.height b.block.timestamp db
bundle_rows-held b db held once =
    let e1 = insert_block-present b.block db held.block in
    let e2 =
      insert_rows-present insert_tx b.txs db
        (All-map _ _ b.txs (λ t. insert_tx-present t db) held.txs) in
    let e3 = register-present (tx_addresses b.txs) db once held.addresses in
    let e4 =
      insert_rows-present insert_log b.logs db
        (All-map _ _ b.logs (λ l. insert_log-present l db) held.logs) in
    let e5 =
      insert_rows-present insert_transfer b.token_transfers db
        (All-map _ _ b.token_transfers (λ t. insert_transfer-present t db) held.transfers) in
    rw (e1, ◌then_do◌)
      (rw (e2, ◌then_do◌) (rw (e3, ◌then_do◌) (rw (e4, ◌then_do◌) (rw (e5, ◌then_do◌) refl))))

bundle_rows-stages :
    (b : BlockBundle) (db db' : Db)
    → bundle_rows b db ≡ ok db'
    → (meets_twice (tx_addresses b.txs) ≡ false)
      × ((d : Db) × (write_cursor_row b.block.height b.block.timestamp d ≡ ok db'))
bundle_rows-stages b db db' e =
    let (d1, _, r1) = then_do-inv (insert_block b.block) (from_txs b) db db' e in
    let (d2, _, r2) = then_do-inv (insert_rows insert_tx b.txs) (from_addresses b) d1 db' r1 in
    let (d3, e3, r3) = then_do-inv (register_rows (tx_addresses b.txs)) (from_logs b) d2 db' r2 in
    let (d4, _, r4) = then_do-inv (insert_rows insert_log b.logs) (from_transfers b) d3 db' r3 in
    let (d5, _, r5) =
      then_do-inv (insert_rows insert_transfer b.token_transfers)
        (write_cursor_row b.block.height b.block.timestamp) d4 db' r4 in
    (register-once (tx_addresses b.txs) d2 d3 e3, (d5, r5))

pub bundle_rows-cursor :
    (b : BlockBundle) (db db' : Db)
    → bundle_rows b db ≡ ok db'
    → (c : ℤ) × (stored_cursor db' ≡ ok (some c)) × (b.block.height ≤ℤ c)
bundle_rows-cursor b db db' e =
    let (_, (d, cursor)) = bundle_rows-stages b db db' e in
    let (v, le, set) = write_cursor-inv b.block.height b.block.timestamp d db' cursor in
    (v, stored_cursor-set_i64 v b.block.timestamp d db' set, le)

-- Writing a bundle a second time succeeds and changes nothing.
pub bundle_rows_twice :
    (b : BlockBundle) (db db' : Db) → bundle_rows b db ≡ ok db' → bundle_rows b db' ≡ ok db'
bundle_rows_twice b db db' e =
    let (once, (d, cursor)) = bundle_rows-stages b db db' e in
    bundle_rows-held b db' (bundle_rows-Holds b db db' e) once
    ∙ write_cursor_twice b.block.height b.block.timestamp d db' cursor
