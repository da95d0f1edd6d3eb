-- ===== src/Sync/Tail/Written.antt =====
-- One round of the tail's worker: how far its writes have come, with the stored cursor at their end.
use mathlib.Core.Path.{subst}
use indexer_rs.Base.{
  ◌≡◌, refl, sym, ◌∙◌, ◌⊎◌, inl, inr, ℕ, zero, suc, ℤ, pos, pos_part, neg_part, ◌+◌, ◌+ℤ◌, ◌-ℤ◌,
  +ℤ_parts, ◌≤ℤ◌, ◌<ℤ◌, max_ℤ, ltb_ℤ, Option, none, some, List, [], ◌∷◌, arith, Result, ok, err,
  Bool-cases, saturating_sub, as_i64,
}
use indexer_rs.Base.Effects.{Result-cases, for_each}
use indexer_rs.Domain.{BlockHeight}
use indexer_rs.Db.Schema.{Db}
use indexer_rs.Db.Chain.{insert_tx, insert_log, insert_transfer, insert_block, insert_rows}
use indexer_rs.Db.Meta.{write_cursor_row}
use indexer_rs.Db.Growth.{
  Grows, GrowsBy, GrowsBy-then, insert_rows-GrowsBy, insert_block-GrowsBy, insert_tx-GrowsBy,
  insert_log-GrowsBy, insert_transfer-GrowsBy, write_cursor-GrowsBy,
}
use indexer_rs.Sync.World.{World, SyncError, SyncConfig}
use indexer_rs.Sync.Cursor.{
  stored_cursor, read_cursor, or_sentinel, greatest_of, stored_cursor-write_cursor,
}
use indexer_rs.Sync.BlockWriter.{BlockBundle, tx_addresses, write_block}
use indexer_rs.Sync.BlockWriter.Bundle.{
  bundle_rows, register_rows, from_txs, from_addresses, from_logs, from_transfers,
}
use indexer_rs.Sync.BlockWriter.Held.{then_do-inv, register-GrowsBy, bundle_rows-Holds}
use indexer_rs.Sync.BlockWriter.Single.{write_block_atomic}
use indexer_rs.Sync.BlockWriter.Batch.Stored.{
  stored_cursor-meta, KeepsMeta, insert_block-meta, insert_tx-meta, insert_log-meta,
  insert_transfer-meta, upsert_batch-meta, rows-meta,
}
use indexer_rs.Sync.Ingest.{fetch_one, write_fetched, ingest_one}
use indexer_rs.Sync.Ingest.Fetch.{AnswersAsked, fetch_one-height}
use indexer_rs.Sync.Backfill.{Run, heights_from}
use indexer_rs.Sync.BlockWriter.Kept.{Extends, Extends-trans, write_cursor-ExtendsBy}
use indexer_rs.Sync.BlockWriter.Written.{bundle_rows-ExtendsBy}
use indexer_rs.Sync.Backfill.Flush.{Answered, Present, Present-Grows}
use indexer_rs.Sync.Backfill.Walk.{execute-outcome}
use indexer_rs.Sync.Backfill.Outcome.{read_cursor-lem}
use indexer_rs.Sync.Tail.{catch_up}

register-meta : (b : BlockBundle) → KeepsMeta (register_rows (tx_addresses b.txs))
register-meta b = by_rows (tx_addresses b.txs)
  where
    by_rows : (seen : List _) → KeepsMeta (register_rows seen)
    by_rows [] db db' e = ground arith
    by_rows (s ∷ seen) db db' e = upsert_batch-meta (s ∷ seen) db db' e

bundle_rows-GrowsBy : (b : BlockBundle) → GrowsBy (bundle_rows b)
bundle_rows-GrowsBy b = GrowsBy-then _ _ (insert_block-GrowsBy b.block) (
    GrowsBy-then _ _ (insert_rows-GrowsBy insert_tx insert_tx-GrowsBy b.txs) (
      GrowsBy-then _ _ (register-GrowsBy (tx_addresses b.txs)) (
        GrowsBy-then _ _ (insert_rows-GrowsBy insert_log insert_log-GrowsBy b.logs) (
          GrowsBy-then _ _
            (insert_rows-GrowsBy insert_transfer insert_transfer-GrowsBy b.token_transfers)
            (write_cursor-GrowsBy b.block.height b.block.timestamp)))))

-- Where a written block leaves the stored cursor.
bundle_rows-stored :
    (b : BlockBundle) (db db' : Db) (old : Option ℤ)
    → bundle_rows b db ≡ ok db'
    → stored_cursor db ≡ ok old
    → stored_cursor db' ≡ ok (some (greatest_of b.block.height old))
bundle_rows-stored b db db' old e stored =
    let (d1, e1, r1) = then_do-inv (insert_block b.block) (from_txs b) db db' e in
    let (d2, e2, r2) = then_do-inv (insert_rows insert_tx b.txs) (from_addresses b) d1 db' r1 in
    let (d3, e3, r3) = then_do-inv (register_rows (tx_addresses b.txs)) (from_logs b) d2 db' r2 in
    let (d4, e4, r4) = then_do-inv (insert_rows insert_log b.logs) (from_transfers b) d3 db' r3 in
    let (d5, e5, r5) =
      then_do-inv (insert_rows insert_transfer b.token_transfers)
        (write_cursor_row b.block.height b.block.timestamp) d4 db' r4 in
    let same : d5.meta ≡ db.meta =
      rows-meta insert_transfer insert_transfer-meta b.token_transfers d4 d5 e5
      ∙ (rows-meta insert_log insert_log-meta b.logs d3 d4 e4
          ∙ (register-meta b d2 d3 e3
              ∙ (rows-meta insert_tx insert_tx-meta b.txs d1 d2 e2
                  ∙ insert_block-meta b.block db d1 e1))) in
    stored_cursor-write_cursor b.block.height b.block.timestamp d5 db' old
      (stored_cursor-meta d5 db same ∙ stored) r5

-- Where the tail begins: its cursor and the tables.
pub record Begin : Type 0 where
  pub cursor : ℤ
  pub db : Db

-- The stored cursor stands at `c`, every height above the first cursor up to it is present, and all new
-- rows are the chain's.
pub record UpTo (run : Run) (lo : Begin) (c : ℤ) (db : Db) : Type 0 where
  pub stored : Option ℤ
  pub at : stored_cursor db ≡ ok stored
  pub is : or_sentinel stored ≡ c
  pub done : (k : ℤ) → lo.cursor <ℤ k → k ≤ℤ c → Present run db k
  pub adds : Extends (Answered run) lo.db db

abbrev pub Sound : Run → Begin → Db → Type 0
Sound run lo db = (c : ℤ) × UpTo run lo c db

next_stored :
    (old : Option ℤ) (c : ℤ) → or_sentinel old ≡ c → greatest_of (c +ℤ pos 1) old ≡ (c +ℤ pos 1)
next_stored none c is = refl
next_stored (some o) c is = rw is (later c (c +ℤ pos 1) (omega (arith, +ℤ_parts c (pos 1))))
  where
    later : (a b : ℤ) → a ≤ℤ b → max_ℤ a b ≡ b
    later a b le = ground arith

at_next : (c k : ℤ) → k ≤ℤ (c +ℤ pos 1) → (k ≤ℤ c) ⊎ (k ≡ (c +ℤ pos 1))
at_next c k le = by_parts c k (c +ℤ pos 1) (+ℤ_parts c (pos 1)) le
  where
    by_parts :
        (c k n : ℤ)
        → pos_part n + neg_part c + 0 ≡ neg_part n + pos_part c + 1
        → k ≤ℤ n
        → (k ≤ℤ c) ⊎ (k ≡ n)
    by_parts c k n p le = ground arith

-- One more height, whose rows are in the tables.
step-UpTo :
    (run : Run) (lo : Begin) (c : ℤ) (a b : Db) (u : UpTo run lo c a)
    → Grows a b
    → Extends (Answered run) a b
    → stored_cursor b ≡ ok (some (greatest_of (c +ℤ pos 1) u.stored))
    → Present run b (c +ℤ pos 1)
    → UpTo run lo (c +ℤ pos 1) b
step-UpTo run lo c a b u grows adds stored here = record {
  stored = some (greatest_of (c +ℤ pos 1) u.stored);
  at = stored;
  is = next_stored u.stored c u.is;
  done = λ k above below. elim (at_next c k below) [
    | inl old ↦ Present-Grows run a b k grows (u.done k above old)
    | inr new ↦ rw new here
  ];
  adds = Extends-trans (Answered run) lo.db a b u.adds adds;
}

-- A height was written and the cursor moved to it, or an error came and the tables are as they were.
abbrev pub Ingested : Run → Begin → ℤ → World → Result SyncError (Unit {0}) × World → Type 0
Ingested run lo c w r =
    ((r.0 ≡ ok tt) × UpTo run lo (c +ℤ pos 1) r.1.db)
    ⊎ ((e : SyncError) × (r.0 ≡ err e) × (r.1.db ≡ w.db))

write_fetched-Ingested :
    (run : Run) (lo : Begin) (c : ℤ) (w : World) (answer : Option BlockBundle)
    → AnswersAsked run.api
    → UpTo run lo c w.db
    → fetch_one run.api run.backoff (c +ℤ pos 1) ≡ ok answer
    → Ingested run lo c w (write_fetched run.analytics (c +ℤ pos 1) answer w)
unfolding write_fetched
write_fetched-Ingested run lo c w none asked u e = elim (execute-outcome (c +ℤ pos 1) w) [
  | inr (x, fails, same) ↦ inr (x, fails, same)
  | inl (fin, rows) ↦ inl (
    fin,
    step-UpTo run lo c w.db _ u (write_cursor-GrowsBy (c +ℤ pos 1) (pos 0) w.db _ rows)
        (write_cursor-ExtendsBy (Answered run) (c +ℤ pos 1) (pos 0) w.db _ rows)
        (stored_cursor-write_cursor (c +ℤ pos 1) (pos 0) w.db _ u.stored u.at rows) (inl e),
  )
]
write_fetched-Ingested run lo c w (some b) asked u e = elim (write_block_atomic run.analytics b w) [
  | inr (x, fails, same) ↦ inr (x, fails, same)
  | inl (fin, rows) ↦
      let at : b.block.height ≡ (c +ℤ pos 1) =
        fetch_one-height run.api run.backoff (c +ℤ pos 1) b asked e in
      let held = bundle_rows-Holds b w.db _ rows in
      inl (
        fin,
        step-UpTo run lo c w.db _ u (bundle_rows-GrowsBy b w.db _ rows)
            (bundle_rows-ExtendsBy (Answered run) b (c +ℤ pos 1, e) w.db _ rows)
            (subst
              (λ h.
                stored_cursor (write_block run.analytics b w).1.db
                ≡ ok (some (greatest_of h u.stored)))
              at (bundle_rows-stored b w.db _ u.stored rows u.at))
            (inr (
              b,
              e,
              record {
                block = held.block;
                txs = held.txs;
                logs = held.logs;
                transfers = held.transfers;
              },
            )),
      )
]

pub ingest_one-Ingested :
    (run : Run) (lo : Begin) (c : ℤ) (w : World)
    → AnswersAsked run.api
    → UpTo run lo c w.db
    → Ingested run lo c w (ingest_one run.api run.backoff run.analytics (c +ℤ pos 1) w)
unfolding ingest_one
ingest_one-Ingested run lo c w asked u =
    elim (Result-cases (fetch_one run.api run.backoff (c +ℤ pos 1))) [
      | inr (x, e) ↦ rw e (inr (x, refl, refl))
      | inl (answer, e) ↦ rw e (write_fetched-Ingested run lo c w answer asked u e)
    ]

ingest_all-Sound :
    (run : Run) (lo : Begin) (c : ℤ) (n : ℕ) (w : World)
    → AnswersAsked run.api
    → UpTo run lo c w.db
    → Sound run lo
        (for_each
          (ingest_one run.api run.backoff run.analytics)
          (heights_from (c +ℤ pos 1) n)
          w).1.db
unfolding for_each heights_from
ingest_all-Sound run lo c zero w asked u = (c, u)
ingest_all-Sound run lo c (suc n) w asked u = elim (ingest_one-Ingested run lo c w asked u) [
  | inr (x, fails, same) ↦ rw fails (c, rw same u)
  | inl (fin, next) ↦ rw fin (
      ingest_all-Sound run lo (c +ℤ pos 1) n
        (ingest_one run.api run.backoff run.analytics (c +ℤ pos 1) w).1 asked next)
]

pub catch_up-Sound :
    (run : Run) (cfg : SyncConfig) (lo : Begin) (current : BlockHeight) (w : World)
    → AnswersAsked run.api
    → Sound run lo w.db
    → Sound run lo (catch_up run.api cfg run.backoff run.analytics current w).1.db
unfolding catch_up
catch_up-Sound run cfg lo current w asked (c, u) =
    let (outcome, same) = read_cursor-lem w u.stored u.at in
    let w1 = (read_cursor w).1 in
    let limit = saturating_sub current (as_i64 cfg.safe_lag) in
    elim outcome [
      | inr (x, e) ↦ rw e (c, rw same u)
      | inl e ↦ elim (Bool-cases (ltb_ℤ (or_sentinel u.stored) limit)) [
        | inr idle ↦ rw (e, idle) (c, rw same u)
        | inl behind ↦
            rw (e, behind)
              (subst
                (λ c'.
                  Sound run lo
                    (for_each (ingest_one run.api run.backoff run.analytics)
                      (heights_from (c' +ℤ pos 1) (pos_part (limit -ℤ c'))) w1).1.db)
                (sym u.is) (ingest_all-Sound run lo c (pos_part (limit -ℤ c)) w1 asked (rw same u)))
      ]
    ]
