-- ===== src/Coinblast/Worker/Chunk.antt =====
-- What one chunk of the scan leaves: every log of a known curve up to the cursor is recorded.
use indexer_rs.Base.{
  ◌≡◌, ◌⊎◌, inl, inr, ℕ, ℤ, pos, ◌+ℤ◌, ◌≤ℤ◌, ◌<ℤ◌, max_ℤ, String, true, Option, none, some, List,
  arith, ok, +ℤ_parts, string_eq, int_eq, pair_eq,
}
use indexer_rs.Base.Effects.{Result-cases, ◌>>=◌}
use indexer_rs.Domain.{BlockHeight}
use indexer_rs.Db.Extended.{Extended, Extended-trans}
use indexer_rs.Db.Schema.{Db, trade_key}
use indexer_rs.Db.Meta.{get_i64}
use indexer_rs.Sync.Convert.{RpcLog}
use indexer_rs.Sync.Ingest.{logs_in_range}
use indexer_rs.Coinblast.Worker.{
  WorkerConfig, Abi, ChainView, Worker, contains, run_chunk, cursor_floor, at_least, write_cursor,
  finish_chunk, attempt,
}
use indexer_rs.Coinblast.Worker.Frame.{Keeps}
use indexer_rs.Coinblast.Worker.Recorded.{Told, Recorded, Recorded-Keeps, Follows}
use indexer_rs.Coinblast.Worker.Scan.{Tracked, run_chunk-Recorded}
use indexer_rs.Coinblast.Worker.Cursor.{
  scan_cursor, Listed, All-Listed, retried-ok, logs_in_range-ok, write_cursor-cases,
}

-- `Emitted k l` says that the chain has the log `l` at the height `k`.
module _ (abi : Abi) (cfg : WorkerConfig) (Emitted : ℤ → RpcLog → Type 0) (begin : Db)
    (known : List String) where
  -- An answer over a range holds every log that the chain has there.
  abbrev pub AnswersWhole : ChainView → Type 0
  AnswersWhole chain =
      (from to n : ℕ) (ls : List RpcLog) (k : ℤ) (l : RpcLog)
      → chain.all_logs from to n ≡ ok ls
      → Emitted k l
      → pos from ≤ℤ k
      → k ≤ℤ pos to
      → Listed l ls

  -- Above `lo` and up to the stored cursor, the logs of known curves are recorded.
  abbrev pub Complete : ℤ → Db → Type 0
  Complete lo db =
      (v : Option ℤ) (k : ℤ) (l : RpcLog)
      → scan_cursor db ≡ ok v
      → Emitted k l
      → Tracked abi known l
      → lo <ℤ k
      → k ≤ℤ at_least (cursor_floor cfg.network) v
      → Recorded abi db l

  pub record Sound (lo : ℤ) (w : Worker) : Type 0 where
    pub complete : Complete lo w.db
    pub knows : (e : String) → contains e known ≡ true → contains e w.known_curves ≡ true
    pub adds : Extended trade_key (Told abi) begin.cb_trades w.db.cb_trades

  pub Complete-Keeps : (lo : ℤ) (a b : Db) → Keeps (Told abi) a b → Complete lo a → Complete lo b
  unfolding get_i64
  Complete-Keeps lo a b keeps c v k l at emitted tracked above below =
      Recorded-Keeps abi a b l keeps (c v k l (rw⁻¹ keeps.meta at) emitted tracked above below)

  pub Sound-Follows : (lo : ℤ) (a b : Worker) → Follows abi a b → Sound lo a → Sound lo b
  Sound-Follows lo a b f s = record {
    complete = Complete-Keeps lo a.db b.db f.keeps s.complete;
    knows = λ e h. f.knows e (s.knows e h);
    adds =
        Extended-trans trade_key (Told abi) begin.cb_trades a.db.cb_trades b.db.cb_trades s.adds
          f.keeps.adds;
  }

  pub Sound-same :
      (lo : ℤ) (a b : Worker)
      → b.db ≡ a.db
      → b.known_curves ≡ a.known_curves
      → Sound lo a
      → Sound lo b
  Sound-same lo a b db curves s = record {
    complete = rw db s.complete;
    knows = λ e h. rw curves (s.knows e h);
    adds = rw db s.adds;
  }

  -- A log of the range of a chunk that succeeded is recorded.
  in_range :
      (chain : ChainView) (from to : BlockHeight) (w : Worker) (k : ℤ) (l : RpcLog)
      → AnswersWhole chain
      → ((e : String) → contains e known ≡ true → contains e w.known_curves ≡ true)
      → (run_chunk abi chain from to w).0 ≡ ok tt
      → Emitted k l
      → Tracked abi known l
      → from ≤ℤ k
      → k ≤ℤ to
      → Recorded abi (run_chunk abi chain from to w).1.db l
  in_range chain from to w k l whole knows fin emitted (curve, event) above below =
      let (ls, asked, all) = (run_chunk-Recorded abi chain from to w).1 fin in
      let (n, got) = retried-ok (logs_in_range chain.all_logs from to) ls asked in
      let (f, t, is_from, is_to, answered) = logs_in_range-ok chain.all_logs from to n ls got in
      let there = whole f t n ls k l answered emitted (rw is_from at above) (rw is_to at below) in
      All-Listed
        (λ l. Tracked abi w.known_curves l → Recorded abi (run_chunk abi chain from to w).1.db l) l
        ls all there (knows _ curve, event)

  next_range : (c k : ℤ) → c <ℤ k → (c +ℤ pos 1) ≤ℤ k
  next_range c k lt = omega (arith, +ℤ_parts c (pos 1))

  old_or_new :
      (floor to k : ℤ) (v : Option ℤ)
      → k ≤ℤ max_ℤ to floor
      → (k ≤ℤ at_least floor v) ⊎ (at_least floor v <ℤ k) × (k ≤ℤ to)
  old_or_new floor to k none le = ground arith
  old_or_new floor to k (some c) le = ground arith

  -- The cursor after a chunk that succeeded.
  advanced :
      (lo : ℤ) (chain : ChainView) (to : BlockHeight) (v : Option ℤ) (w : Worker)
      → AnswersWhole chain
      → Sound lo w
      → scan_cursor w.db ≡ ok v
      → let from = at_least (cursor_floor cfg.network) v +ℤ pos 1 in
        (run_chunk abi chain from to w).0 ≡ ok tt
        → Sound lo (write_cursor to (run_chunk abi chain from to w).1).1
  advanced lo chain to v w whole s at fin =
      let from = at_least (cursor_floor cfg.network) v +ℤ pos 1 in
      let w1 = (run_chunk abi chain from to w).1 in
      let follows = (run_chunk-Recorded abi chain from to w).0 in
      let s1 = Sound-Follows lo w w1 follows s in
      let (curves, outcome) = write_cursor-cases to w1 in
      elim outcome [
        | inr same ↦ Sound-same lo w1 _ same curves s1
        | inl (stored, trades) ↦ record {
          knows = λ e h. rw curves (s1.knows e h);
          adds = rw trades s1.adds;
          complete = λ v' k l at' emitted tracked above below.
              let is : v' ≡ some to = ground (arith, stored, at') in
              let below' : k ≤ℤ max_ℤ to (cursor_floor cfg.network) = rw is at below in
              rw trades (elim (old_or_new (cursor_floor cfg.network) to k v below') [
                | inl old ↦
                    Recorded-Keeps abi w.db w1.db l follows.keeps
                      (s.complete v k l at emitted tracked above old)
                | inr (new, le) ↦
                    in_range chain from to w k l whole s.knows fin emitted tracked
                      (next_range _ k new) le
              ]);
        }
      ]

  -- The chunk with its error handled, and the cursor if there was none.
  pub chunk-Sound :
      (lo : ℤ) (chain : ChainView) (to : BlockHeight) (v : Option ℤ) (w : Worker)
      → AnswersWhole chain
      → Sound lo w
      → scan_cursor w.db ≡ ok v
      → let from = at_least (cursor_floor cfg.network) v +ℤ pos 1 in
        Sound lo ((attempt (run_chunk abi chain from to) >>= finish_chunk to) w).1
  chunk-Sound lo chain to v w whole s at =
      let from = at_least (cursor_floor cfg.network) v +ℤ pos 1 in
      elim (Result-cases (run_chunk abi chain from to w).0) [
        | inl (u, e) ↦ rw e (advanced lo chain to v w whole s at e)
        | inr (x, e) ↦ rw e (Sound-Follows lo w _ (run_chunk-Recorded abi chain from to w).0 s)
      ]
