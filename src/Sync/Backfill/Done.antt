-- ===== src/Sync/Backfill/Done.antt =====
-- When a height is done, row by row.
use indexer_rs.Base.{◌≡◌, sym, ap, ◌∙◌, ◌⊎◌, inl, inr, none, some, arith, ok, int_eq}
use indexer_rs.Domain.{BlockHeight, Block}
use indexer_rs.Db.Extended.{Stored-weaken}
use indexer_rs.Db.Schema.{Db}
use indexer_rs.Sync.BlockWriter.{BlockBundle}
use indexer_rs.Sync.BlockWriter.Kept.{block_key, BlockOf, Extends}
use indexer_rs.Sync.BlockWriter.Written.{HoldsRows, Extends-HoldsRows}
use indexer_rs.Sync.Ingest.{fetch_one}
use indexer_rs.Sync.Ingest.Fetch.{AnswersAsked, fetch_one-height}
use indexer_rs.Sync.Backfill.{Run}
use indexer_rs.Sync.Backfill.Flush.{Present, Answered}

-- A height is done between two states of the tables: the chain has no block there, or the tables have rows
-- for all of what it answered. A key that had a row at the beginning keeps it; any other has the block that
-- the chain answered for the height, and a transaction, log or transfer that it answered, in full.
abbrev pub Done : Run → Db → Db → BlockHeight → Type 0
Done run begin db h =
    (fetch_one run.api run.backoff h ≡ ok none)
    ⊎ ((b : BlockBundle) × (fetch_one run.api run.backoff h ≡ ok (some b))
        × HoldsRows (Answered run) (λ (s : Block). s ≡ b.block) begin db b)

-- The chain answers with one block for a height.
same_block :
    (run : Run) (h : BlockHeight) (b : BlockBundle)
    → AnswersAsked run.api
    → fetch_one run.api run.backoff h ≡ ok (some b)
    → (s : Block) → s.height ≡ b.block.height
    → BlockOf (Answered run) s
    → s ≡ b.block
same_block run h b asked e s at (c, (k, e'), is) =
    let height_c = fetch_one-height run.api run.backoff k c asked e' in
    let height_b = fetch_one-height run.api run.backoff h b asked e in
    let same : k ≡ h = sym height_c ∙ (sym (ap (λ (x : Block). x.height) is) ∙ (at ∙ height_b)) in
    let one : c ≡ b = ground (arith, e, e', same) in is ∙ ap (λ (x : BlockBundle). x.block) one

pub Present-Done :
    (run : Run) (begin db : Db) (h : BlockHeight)
    → AnswersAsked run.api
    → Extends (Answered run) begin db
    → Present run db h
    → Done run begin db h
Present-Done run begin db h asked x (inl gap) = inl gap
Present-Done run begin db h asked x (inr (b, e, keys)) =
    let rows = Extends-HoldsRows (Answered run) begin db b x keys in
    inr (
      b,
      e,
      record {
        block =
            Stored-weaken block_key (BlockOf (Answered run)) (λ (s : Block). s ≡ b.block)
              begin.blocks db.blocks b.block (same_block run h b asked e) rows.block;
        txs = rows.txs;
        logs = rows.logs;
        transfers = rows.transfers;
      },
    )
