-- ===== src/Sync/BlockWriter.antt =====
-- crates/sync/src/block_writer.rs: the rows of a block, or of many, and the cursor in one transaction; then
-- the analytics rows.
pub mod Sorting
pub mod Bundle
pub mod Single
pub mod Batch
pub mod Held
pub mod Kept
pub mod Written
pub mod Seen
pub mod Whole
pub mod Replay
pub mod Examples
use indexer_rs.Base.{
  ℕ, ℤ, pos, String, Bool, true, false, Option, none, some, List, [], ◌∷◌, ◌++◌, map, is_empty,
  ◌==◌, string_eq, int_eq, max_ℤ, min_ℤ, if◌then◌else◌, pair_eq, ok, err,
}
use indexer_rs.Base.Effects.{Exec, ◌>>=◌, ◌>>◌, pure, for_each}
use indexer_rs.Domain.{Address, Block, Transaction, Log, TokenTransfer, BlockHeight, as_u64}
use indexer_rs.Domain.Kinds.{tx_type_as_str}
use indexer_rs.Db.Chain.{insert_block, insert_tx, insert_log, insert_transfer, insert_rows}
use indexer_rs.Db.Addresses.{upsert_batch}
use indexer_rs.Db.Session.{Sql, execute, transaction}
use indexer_rs.Sync.World.{World, Io, RawTxRow, sql, push, cast_u64, cast_u8}
use indexer_rs.Sync.Cursor.{write_cursor}
use Sorting.{sort_by_key, chunks}

pub record BlockBundle : Type 0 where
  pub block : Block
  pub txs : List Transaction
  pub logs : List Log
  pub token_transfers : List TokenTransfer

-- `seen.entry(a).and_modify(min).or_insert(h)`; the map's order is its order of insertion here.
unfoldable pub note_address : Address → ℤ → List (Address × ℤ) → List (Address × ℤ)
note_address a h [] = (a, h) ∷ []
note_address a h ((b, k) ∷ seen) =
    if b == a then (b, min_ℤ k h) ∷ seen else (b, k) ∷ note_address a h seen

unfoldable pub note_receiver : Option Address → ℤ → List (Address × ℤ) → List (Address × ℤ)
note_receiver none h seen = seen
note_receiver (some a) h seen = note_address a h seen

unfoldable pub note_txs : List Transaction → List (Address × ℤ) → List (Address × ℤ)
note_txs [] seen = seen
note_txs (t ∷ txs) seen =
    note_txs txs
      (note_receiver t.to_addr t.block_height (note_address t.from_addr t.block_height seen))

-- Every sender and receiver once, with the earliest block.
unfoldable pub tx_addresses : List Transaction → List (Address × ℤ)
unfolding note_txs note_receiver note_address
tx_addresses txs = note_txs txs []

-- `addresses::upsert_batch` returns at once if there is nothing to write.
unfoldable pub register_addresses : List (Address × ℤ) → Sql (Unit {0})
register_addresses [] = pure tt
register_addresses (s ∷ seen) = execute (upsert_batch (s ∷ seen))

-- The statements of `write_block` between BEGIN and COMMIT.
unfoldable pub bundle_sql : BlockBundle → Sql (Unit {0})
bundle_sql b = do
  execute (insert_block b.block)
  for_each (λ t. execute (insert_tx t)) b.txs
  register_addresses (tx_addresses b.txs)
  for_each (λ l. execute (insert_log l)) b.logs
  for_each (λ t. execute (insert_transfer t)) b.token_transfers
  write_cursor b.block.height b.block.timestamp

abbrev pub gas_or_zero : Option ℤ → ℤ
gas_or_zero none = pos 0
gas_or_zero (some g) = g

unfoldable pub analytics_row : ℕ → Block → Transaction → RawTxRow
analytics_row block_height block t = record {
  block_height = block_height;
  timestamp = cast_u64 block.timestamp;
  tx_hash = t.hash;
  from_addr = t.from_addr;
  to_addr = t.to_addr;
  value_str = t.value;
  fee_str = t.fee;
  gas_used = cast_u64 (gas_or_zero t.gas_used);
  status = cast_u8 t.status;
  tx_type = tx_type_as_str t.tx_type;
}

-- The pushes of a block's rows, up to the first that the channel refuses; whether all were taken.
unfoldable pub push_txs : ℕ → Block → List Transaction → World → Bool × World
push_txs block_height block [] w = (true, w)
push_txs block_height block (t ∷ txs) w =
    let (taken, w') = push (analytics_row block_height block t) w in
    elim taken [ true ↦ push_txs block_height block txs w' | false ↦ (false, w') ]

-- `write_block` skips a block whose height is no `u64`, and stops at a refused row.
unfoldable pub push_block : Bool → BlockBundle → Io (Unit {0})
push_block analytics b w = elim analytics [
  | false ↦ (ok tt, w)
  | true ↦ elim (as_u64 b.block.height) [
    | none ↦ (ok tt, w)
    | some h ↦ (ok tt, (push_txs h b.block b.txs w).1)
  ]
]

-- `write_block`; `analytics` says whether a handle is wired.
unfoldable pub write_block : Bool → BlockBundle → Io (Unit {0})
write_block analytics b = do sql (transaction (bundle_sql b)); push_block analytics b

-- `batch_write_blocks` goes on to the next block, and returns at a refused row.
unfoldable pub push_blocks : List BlockBundle → World → World
push_blocks [] w = w
push_blocks (b ∷ bundles) w = elim (as_u64 b.block.height) [
  | none ↦ push_blocks bundles w
  | some h ↦
      let (taken, w') = push_txs h b.block b.txs w in
      elim taken [ true ↦ push_blocks bundles w' | false ↦ w' ]
]

-- `.map(|b| b.block.height).max()` of a list with a first element.
unfoldable pub max_height : BlockBundle → List BlockBundle → BlockHeight
max_height b [] = b.block.height
max_height b (c ∷ bundles) = max_ℤ b.block.height (max_height c bundles)

-- The timestamp of the first bundle at a height, or 0.
unfoldable pub timestamp_at : BlockHeight → List BlockBundle → ℤ
timestamp_at h [] = pos 0
timestamp_at h (b ∷ bundles) =
    if b.block.height == h then b.block.timestamp else timestamp_at h bundles

abbrev pub batch_insert_chunk : ℕ
batch_insert_chunk = 500

unfoldable pub concat_map : {A B : Type 0} → (A → List B) → List A → List B
concat_map f [] = []
concat_map f (x ∷ xs) = f x ++ concat_map f xs

-- The statements of `batch_write_blocks`, over the sorted rows of all bundles.
unfoldable pub batch_sql : BlockBundle → List BlockBundle → Sql (Unit {0})
batch_sql b bundles =
    let all = b ∷ bundles in
    let height = max_height b bundles in
    let all_blocks =
      sort_by_key (λ (c : Block). (c.height, pos 0)) (map (λ (c : BlockBundle). c.block) all) in
    let all_txs =
      sort_by_key (λ (t : Transaction). (t.block_height, t.tx_index))
        (concat_map (λ (c : BlockBundle). c.txs) all) in
    let all_logs =
      sort_by_key (λ (l : Log). (l.block_height, l.log_index))
        (concat_map (λ (c : BlockBundle). c.logs) all) in
    let all_transfers =
      sort_by_key (λ (t : TokenTransfer). (t.block_height, t.log_index))
        (concat_map (λ (c : BlockBundle). c.token_transfers) all) in
    do
      for_each (λ rows. execute (insert_rows insert_block rows))
          (chunks batch_insert_chunk all_blocks)
      for_each (λ rows. execute (insert_rows insert_tx rows)) (chunks batch_insert_chunk all_txs)
      for_each (λ seen. execute (upsert_batch seen))
          (chunks batch_insert_chunk (tx_addresses all_txs))
      for_each (λ rows. execute (insert_rows insert_log rows)) (chunks batch_insert_chunk all_logs)
      for_each (λ rows. execute (insert_rows insert_transfer rows))
          (chunks batch_insert_chunk all_transfers)
      write_cursor height (timestamp_at height all)

unfoldable pub batch_write_blocks : Bool → List BlockBundle → Io (Unit {0})
batch_write_blocks analytics [] = pure tt
batch_write_blocks analytics (b ∷ bundles) = do
  sql (transaction (batch_sql b bundles))
  (λ w. (ok tt, if analytics then push_blocks (b ∷ bundles) w else w))
