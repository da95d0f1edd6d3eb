-- ===== src/Api/Served.antt =====
-- From the chain to the client: what the backfill has ingested, `/blocks/:height` serves.
mod Examples
use mathlib.Core.Path.{subst}
use indexer_rs.Base.{
  ◌≡◌, refl, ◌∙◌, Option, ◌⊎◌, inl, inr, ℤ, pos, ◌<ℤ◌, ◌≤ℤ◌, ◌-ℤ◌, -ℤ_parts, true, none, some, List,
  [], ◌∷◌, map, arith, All, All-map, ok, int_eq, ◌==◌,
}
use indexer_rs.Base.Text.{parse_i64}
use indexer_rs.Base.Text.Print.{to_string, FitsI64, parse-to_string}
use indexer_rs.Base.Effects.{and_then}
use indexer_rs.Domain.{BlockHeight, Block, Transaction}
use indexer_rs.Db.Table.{find}
use indexer_rs.Db.Extended.{Among, From}
use indexer_rs.Db.Schema.{Db}
use indexer_rs.Db.Chain.{get_by_height}
use indexer_rs.Sync.World.{World, SyncConfig}
use indexer_rs.Sync.Cursor.{stored_cursor, or_sentinel}
use indexer_rs.Sync.BlockWriter.{BlockBundle}
use indexer_rs.Sync.BlockWriter.Kept.{block_key}
use indexer_rs.Sync.Ingest.{retried, fetch_one}
use indexer_rs.Sync.Ingest.Fetch.{AnswersAsked, fetch_one-height}
use indexer_rs.Sync.Backfill.{Run, backfill_cap, run_backfill}
use indexer_rs.Sync.Backfill.Outcome.{run_backfill-CatchesUp}
use indexer_rs.Api.Listing.{Descending, order_desc-Descending}
use indexer_rs.Api.Listing.Members.{keep-Among, Among-keep, order-Among, Among-order}
use indexer_rs.Api.Serialise.{WireBlockWithTxs, wire_block, wire_tx}
use indexer_rs.Api.Serialise.Shows.{Shows, wire_block-Shows}
use indexer_rs.Api.Blocks.Handlers.{for_block, detail}

-- In the order of their index in the block.
abbrev pub Ascending : List Transaction → Type 0
Ascending [] = Unit
Ascending (t ∷ txs) = All (λ (u : Transaction). t.tx_index ≤ℤ u.tx_index) txs × Ascending txs

-- The rows are the stored transactions of a height, each of them and no other, in order.
pub record OfHeight (db : Db) (k : BlockHeight) (txs : List Transaction) : Type 0 where
  pub sound : (t : Transaction) → Among txs t → Among db.transactions t × (t.block_height ≡ k)
  pub complete : (t : Transaction) → Among db.transactions t → t.block_height ≡ k → Among txs t
  pub in_order : Ascending txs

Descending-Ascending :
    (txs : List Transaction)
    → Descending (λ (t : Transaction). pos 0 -ℤ t.tx_index) txs
    → Ascending txs
Descending-Ascending [] d = tt
Descending-Ascending (t ∷ txs) d = (
  All-map _ _ txs
      (λ u h. omega (arith, h, -ℤ_parts (pos 0) t.tx_index, -ℤ_parts (pos 0) u.tx_index)) d.0,
  Descending-Ascending txs d.1,
)

for_block-OfHeight : (k : BlockHeight) (db : Db) → OfHeight db k (for_block k db)
unfolding for_block
for_block-OfHeight k db =
    let key = λ (t : Transaction). pos 0 -ℤ t.tx_index in
    let at = λ (t : Transaction). t.block_height == k in
    record {
      sound = λ t m.
          let (there, h) = Among-keep at db.transactions t (Among-order key _ t m) in
          (there, (int_eq.same_iff t.block_height k).0 h);
      complete = λ t m h.
          order-Among key _ t
            (keep-Among at db.transactions t m ((int_eq.same_iff t.block_height k).1 h));
      in_order = Descending-Ascending _ (order_desc-Descending key _);
    }

-- The answer for a height: the block that stood there at the beginning or, if there was none, the block
-- that the chain answered, and the stored transactions of the height.
pub record Serves (begin db : Db) (k : BlockHeight) (answered : Block) : Type 0 where
  pub body : WireBlockWithTxs
  pub answers : detail (ok db) (ok db) (to_string k) ≡ ok body
  pub row : Block
  pub at : row.height ≡ k
  pub from : From (find block_key k begin.blocks) (λ (s : Block). s ≡ answered) row
  pub shows : Shows body.block row
  pub txs : List Transaction
  pub of_height : OfHeight db k txs
  pub wire : body.transactions ≡ map wire_tx txs

detail-Serves :
    (begin db : Db) (k : BlockHeight) (answered s : Block)
    → FitsI64 k
    → find block_key k db.blocks ≡ some s
    → s.height ≡ k
    → From (find block_key k begin.blocks) (λ (r : Block). r ≡ answered) s
    → Serves begin db k answered
unfolding detail get_by_height
detail-Serves begin db k answered s fits stored at from = record {
  body = record { block = wire_block s; transactions = map wire_tx (for_block k db) };
  answers = rw (parse-to_string k fits, stored) refl;
  row = s;
  at = at;
  from = from;
  shows = wire_block-Shows s;
  txs = for_block k db;
  of_height = for_block-OfHeight k db;
  wire = refl;
}

pub run_backfill-Serves :
    (run : Run) (cfg : SyncConfig) (w : World) (old : Option ℤ) (tip c k : BlockHeight)
    → AnswersAsked run.api
    → stored_cursor w.db ≡ ok old
    → retried run.backoff run.api.block_number ≡ ok tip
    → (run_backfill run cfg [] w).0 ≡ ok c
    → or_sentinel old <ℤ k
    → k ≤ℤ backfill_cap cfg tip
    → FitsI64 k
    → (fetch_one run.api run.backoff k ≡ ok none)
      ⊎ ((b : BlockBundle) × (fetch_one run.api run.backoff k ≡ ok (some b))
          × Serves w.db (run_backfill run cfg [] w).1.db k b.block)
run_backfill-Serves run cfg w old tip c k asked is at_tip fin lt le fits =
    elim (run_backfill-CatchesUp run cfg w old tip c asked is at_tip fin k lt le) [
      | inl gap ↦ inl gap
      | inr (b, fetched, rows) ↦
          let at : b.block.height ≡ k = fetch_one-height run.api run.backoff k b asked fetched in
          let (s, found, same, from) = rows.block in
          inr (
            b,
            fetched,
            detail-Serves w.db _ k b.block s fits (rw at at found) (same ∙ at) (
                subst
                  (λ (h : BlockHeight).
                    From (find block_key h w.db.blocks) (λ (r : Block). r ≡ b.block) s)
                  at from),
          )
    ]
