-- ===== src/Sync/Backfill/Flush.antt =====
-- How far a part of the walk has come, and that a flush, a gap and a round each keep the account.
use indexer_rs.Base.{
  ◌≡◌, refl, ap, sym, ◌∙◌, ◌⊎◌, inl, inr, ℤ, ◌≤ℤ◌, Option, none, some, List, [], ◌∷◌, ◌++◌, arith,
  All, All-map, All-append, ok, err, Result,
}
use indexer_rs.Domain.{BlockHeight}
use indexer_rs.Db.Schema.{Db}
use indexer_rs.Db.Growth.{Grows, Grows-refl, Grows-trans}
use indexer_rs.Sync.World.{World, SyncError}
use indexer_rs.Sync.Cursor.{stored_cursor, greatest_of}
use indexer_rs.Sync.BlockWriter.{BlockBundle, max_height}
use indexer_rs.Sync.BlockWriter.Kept.{Extends, Extends-refl, Extends-trans}
use indexer_rs.Sync.BlockWriter.Written.{batch_rows-ExtendsBy}
use indexer_rs.Sync.BlockWriter.Batch.{batch_rows}
use indexer_rs.Sync.BlockWriter.Batch.Outcome.{batch_write_blocks_atomic}
use indexer_rs.Sync.BlockWriter.Batch.Rows.{HasRows, batch_rows-HasRows}
use indexer_rs.Sync.BlockWriter.Batch.Stored.{batch_rows-cursor, batch_rows-GrowsBy}
use indexer_rs.Sync.Ingest.{fetch_one}
use indexer_rs.Sync.Backfill.{Run, flush}
use indexer_rs.Sync.Backfill.Range.{
  Ascending, last, heights, Ascending-rest, Ascending-first, Ascending-None, last-above,
  max_height-last,
}

pub HasRows-Grows : (a c : Db) (b : BlockBundle) → Grows a c → HasRows a b → HasRows c b
HasRows-Grows a c b g h = record {
  block = g.blocks b.block.height h.block;
  txs = All-map _ _ b.txs (λ t x. g.txs t.hash x) h.txs;
  logs = All-map _ _ b.logs (λ l x. g.logs _ x) h.logs;
  transfers = All-map _ _ b.token_transfers (λ t x. g.transfers _ x) h.transfers;
}

-- The chain has no block at a height, or the tables have the keys of what it answered.
abbrev pub Present : Run → Db → BlockHeight → Type 0
Present run db h =
    (fetch_one run.api run.backoff h ≡ ok none)
    ⊎ ((b : BlockBundle) × (fetch_one run.api run.backoff h ≡ ok (some b)) × HasRows db b)

pub Present-Grows :
    (run : Run) (a c : Db) (h : BlockHeight) → Grows a c → Present run a h → Present run c h
Present-Grows run a c h g (inl gap) = inl gap
Present-Grows run a c h g (inr (b, e, rows)) = inr (b, e, HasRows-Grows a c b g rows)

-- A bundle that the chain answered for some height.
abbrev pub Answered : Run → BlockBundle → Type 0
Answered run b = (h : BlockHeight) × (fetch_one run.api run.backoff h ≡ ok (some b))

-- Every buffered bundle is what the chain answered for its height.
abbrev pub Fetched : Run → List BlockBundle → Type 0
Fetched run buf =
    All (λ (b : BlockBundle). fetch_one run.api run.backoff b.block.height ≡ ok (some b)) buf

Fetched-Answered : (run : Run) (buf : List BlockBundle) → Fetched run buf → All (Answered run) buf
Fetched-Answered run buf f = All-map _ _ buf (λ b e. (b.block.height, e)) f

abbrev pub AtMost : Option ℤ → ℤ → Type 0
AtMost none lo = Unit
AtMost (some c) lo = c ≤ℤ lo

-- The stored cursor can be read and stands at the bound or below.
abbrev pub Stands : Db → ℤ → Type 0
Stands db lo = (old : Option ℤ) × (stored_cursor db ≡ ok old) × AtMost old lo

-- Between two states of the tables: of the heights `all`, those of `gone` are present, those of `left` are
-- above the stored cursor, no row was lost, and all new rows are the chain's.
pub record Progress (run : Run) (before after : Db) (all : List BlockHeight) : Type 0 where
  pub gone : List BlockHeight
  pub left : List BlockHeight
  pub split : gone ++ left ≡ all
  pub done : All (Present run after) gone
  pub bound : ℤ
  pub stands : Stands after bound
  pub ahead : Ascending bound left
  pub grows : Grows before after
  pub adds : Extends (Answered run) before after

abbrev pub no_progress :
    (run : Run) (db : Db) (lo : ℤ) (all : List BlockHeight)
    → Stands db lo
    → Ascending lo all
    → Progress run db db all
no_progress run db lo all s a = record {
  gone = [];
  left = all;
  split = refl;
  done = tt;
  bound = lo;
  stands = s;
  ahead = a;
  grows = Grows-refl db;
  adds = Extends-refl (Answered run) db;
}

append_assoc : (xs ys zs : List BlockHeight) → (xs ++ ys) ++ zs ≡ xs ++ (ys ++ zs)
append_assoc [] ys zs = refl
append_assoc (x ∷ xs) ys zs = ap (λ r. x ∷ r) (append_assoc xs ys zs)

pub Progress-join :
    (run : Run) (a b c : Db) (all l : List BlockHeight) (p : Progress run a b all)
    → p.left ≡ l
    → (q : Progress run b c l) → (r : Progress run a c all) × (r.left ≡ q.left)
Progress-join run a b c all l p is q = (
  record {
    gone = p.gone ++ q.gone;
    left = q.left;
    split =
        append_assoc p.gone q.gone q.left ∙ (ap (λ r. p.gone ++ r) (q.split ∙ sym is) ∙ p.split);
    done =
        All-append _ p.gone q.gone
          (All-map _ _ p.gone (λ h d. Present-Grows run b c h q.grows d) p.done) q.done;
    bound = q.bound;
    stands = q.stands;
    ahead = q.ahead;
    grows = Grows-trans a b c p.grows q.grows;
    adds = Extends-trans (Answered run) a b c p.adds q.adds;
  },
  refl,
)

-- No height at or below the stored cursor is left undone.
abbrev pub NeverAhead : Run → Db → List BlockHeight → Type 0
NeverAhead run db all =
    (c : ℤ) → stored_cursor db ≡ ok (some c) → All (λ k. k ≤ℤ c → Present run db k) all

pub Progress-NeverAhead :
    (run : Run) (a b : Db) (all : List BlockHeight) → Progress run a b all → NeverAhead run b all
Progress-NeverAhead run a b all p c at =
    let (old, is, most) = p.stands in
    let same : old ≡ some c = ground arith in
    let below : c ≤ℤ p.bound = rw same at most in
    rw⁻¹ p.split (
      All-append _ p.gone p.left (All-map _ _ p.gone (λ h d le. d) p.done)
        (Ascending-None (Present run b) c p.bound p.left below p.ahead))

held-Present :
    (run : Run) (db : Db) (buf : List BlockBundle)
    → Fetched run buf
    → All (HasRows db) buf
    → All (Present run db) (heights buf)
held-Present run db [] f h = tt
held-Present run db (b ∷ buf) f h = (inr (b, f.0, h.0), held-Present run db buf f.1 h.1)

greatest-AtMost :
    (h lo : ℤ) (old : Option ℤ) → lo ≤ℤ h → AtMost old lo → AtMost (some (greatest_of h old)) h
greatest-AtMost h lo none le m = omega arith
greatest-AtMost h lo (some c) le m = ground arith

batch-Progress :
    (run : Run) (b : BlockBundle) (buf : List BlockBundle) (db db' : Db) (lo : ℤ)
    (hs : List BlockHeight)
    → Fetched run (b ∷ buf)
    → Stands db lo
    → Ascending lo (heights (b ∷ buf) ++ hs)
    → batch_rows b buf db ≡ ok db'
    → (p : Progress run db db' (heights (b ∷ buf) ++ hs)) × (p.left ≡ hs)
batch-Progress run b buf db db' lo hs f (old, is, most) a e =
    let top = last b.block.height (heights buf) in
    let highest : max_height b buf ≡ top =
      max_height-last b buf (Ascending-first _ (heights buf) hs a.1) in
    let le : lo ≤ℤ top =
      last-above lo (heights (b ∷ buf)) (Ascending-first lo (heights (b ∷ buf)) hs a) in
    (
      record {
        gone = heights (b ∷ buf);
        left = hs;
        split = refl;
        done = held-Present run db' (b ∷ buf) f (batch_rows-HasRows b buf db db' e);
        bound = top;
        stands = (
          _,
          batch_rows-cursor b buf db db' old e is,
          rw highest (greatest-AtMost top lo old le most),
        );
        ahead = Ascending-rest lo (heights (b ∷ buf)) hs a;
        grows = batch_rows-GrowsBy b buf db db' e;
        adds =
            batch_rows-ExtendsBy (Answered run) b buf (Fetched-Answered run (b ∷ buf) f) db db' e;
      },
      refl,
    )

-- How a step of the walk ends: with a value, and then the heights left are those given; or with an error.
abbrev pub Ends :
    {A : Type 0}
    → Run
    → World
    → List BlockHeight
    → Result SyncError A × World
    → (A → List BlockHeight)
    → Type 0
Ends {A} run w all r left =
    ((x : A) × (r.0 ≡ ok x) × ((p : Progress run w.db r.1.db all) × (p.left ≡ left x)))
    ⊎ ((e : SyncError) × (r.0 ≡ err e) × Progress run w.db r.1.db all)

-- A flush writes the whole buffer or nothing.
pub flush-Ends :
    (run : Run) (buf : List BlockBundle) (cursor : BlockHeight) (w : World) (lo : ℤ)
    (hs : List BlockHeight)
    → Fetched run buf
    → Stands w.db lo
    → Ascending lo (heights buf ++ hs)
    → Ends run w (heights buf ++ hs) (flush run buf cursor w) (λ c. hs)
unfolding flush
flush-Ends run [] cursor w lo hs f s a = inl (cursor, refl, (no_progress run w.db lo hs s a, refl))
flush-Ends run (b ∷ buf) cursor w lo hs f s a =
    elim (batch_write_blocks_atomic run.analytics (b ∷ buf) w) [
      | inl (done, rows) ↦
          let (p, is) = batch-Progress run b buf w.db _ lo hs f s a rows in
          inl (max_height b buf, rw done refl, rw done (p, is))
      | inr (e, fails, same) ↦
          inr (e, rw fails refl, rw (fails, same) (no_progress run w.db lo _ s a))
    ]
