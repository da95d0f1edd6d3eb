-- ===== src/Coinblast/Worker/Rounds.antt =====
-- The worker's cursor never passes a trade of a known curve that is not in the tables.
use indexer_rs.Base.{
  ◌≡◌, refl, string_eq, int_eq, pair_eq, ap, sym, ◌∙◌, inl, inr, ℤ, pos, ◌+ℤ◌, ◌≤ℤ◌, ◌<ℤ◌, min_ℤ,
  leb_ℤ, String, Option, List, [], ◌∷◌, arith, All, map, ok, Bool-cases, as_i64, saturating_add,
  saturating_sub,
}
use mathlib.Core.Path.{subst}
use indexer_rs.Base.Text.{to_lowercase}
use indexer_rs.Base.Effects.{Result-cases, ◌>>=◌}
use indexer_rs.Db.Extended.{Stored, has-Stored}
use indexer_rs.Db.Schema.{Db, DbResult, CbToken, CbTrade, trade_key}
use indexer_rs.Db.Session.{query}
use indexer_rs.Db.Runs.{query-cases}
use indexer_rs.Sync.Convert.{RpcLog}
use indexer_rs.Coinblast.Handlers.{on_db}
use indexer_rs.Coinblast.Worker.{
  WorkerConfig, Abi, ChainView, Worker, on_session, retried, run_chunk, known_curve_addresses,
  hydrate_known_curves, cursor_floor, at_least, read_cursor, finish_chunk, attempt, round, Round,
  run_rounds, run_coinblast_worker,
}
use indexer_rs.Coinblast.Worker.Recorded.{topic_trade, Told}
use indexer_rs.Coinblast.Worker.Scan.{Tracked}
use indexer_rs.Coinblast.Worker.Cursor.{scan_cursor, read_cursor-cases}
use indexer_rs.Coinblast.Worker.Chunk.{AnswersWhole, Complete, Sound, Sound-same, chunk-Sound}

module _ (abi : Abi) (cfg : WorkerConfig) (Emitted : ℤ → RpcLog → Type 0) (begin : Db)
    (known : List String) where
  round-Sound :
      (lo : ℤ) (chain : ChainView) (w : Worker)
      → AnswersWhole abi cfg Emitted begin known chain
      → Sound abi cfg Emitted begin known lo w
      → Sound abi cfg Emitted begin known lo (round abi cfg chain w).1
  unfolding round
  round-Sound lo chain w whole s =
      let (db, curves, value) = read_cursor-cases cfg.network w in
      let w1 = (read_cursor cfg.network w).1 in
      let s1 = Sound-same abi cfg Emitted begin known lo w w1 db curves s in
      elim (Result-cases (read_cursor cfg.network w).0) [
        | inr (x, e) ↦ rw e s1
        | inl (c, e) ↦ elim (Result-cases (retried chain.block_number)) [
          | inr (x, e2) ↦ rw (e, e2) s1
          | inl (tip, e2) ↦
              let (v, at, is) = value c e in
              let target = saturating_sub tip (as_i64 cfg.safe_lag) in
              let to = min_ℤ (saturating_add c (as_i64 cfg.chunk_size)) target in
              elim (Bool-cases (leb_ℤ target c)) [
                | inl idle ↦ rw (e, e2, idle) s1
                | inr behind ↦
                    rw (e, e2, behind)
                      (subst
                        (λ c'.
                          Sound abi cfg Emitted begin known lo
                            ((attempt (run_chunk abi chain (c' +ℤ pos 1) to) >>= finish_chunk to)
                              w1).1)
                        (sym is)
                        (chunk-Sound abi cfg Emitted begin known lo chain to v w1 whole s1
                          (rw db at)))
              ]
        ]
      ]

  run_rounds-Sound :
      (lo : ℤ) (rounds : List Round) (w : Worker)
      → All (λ (r : Round). AnswersWhole abi cfg Emitted begin known r.chain) rounds
      → Sound abi cfg Emitted begin known lo w
      → Sound abi cfg Emitted begin known lo (run_rounds abi cfg rounds w).1
  unfolding run_rounds
  run_rounds-Sound lo [] w whole s = s
  run_rounds-Sound lo (r ∷ rounds) w whole s = elim (Bool-cases r.cancelled_before) [
    | inl stop ↦ rw stop s
    | inr go ↦
        let w1 = (round abi cfg r.chain w).1 in
        let s1 = round-Sound lo r.chain w whole.0 s in
        rw go (elim (Result-cases (round abi cfg r.chain w).0) [
          | inr (x, e) ↦ rw e s1
          | inl (u, e) ↦ elim (Bool-cases r.cancelled_asleep) [
            | inl stop ↦ rw (e, stop) s1
            | inr on ↦ rw (e, on) (run_rounds-Sound lo rounds w1 whole.1 s1)
          ]
        ])
  ]

-- The curves that the worker begins with.
abbrev pub hydrated : Db → List String
hydrated db =
    map (λ (x : String). to_lowercase x) (map (λ (r : CbToken). r.curve_address) db.cb_tokens)

hydrate-cases :
    (w : Worker)
    → let r = hydrate_known_curves w in
      (r.1.db ≡ w.db) × (((u : Unit {0}) → r.0 ≡ ok u → r.1.known_curves ≡ hydrated w.db))
unfolding hydrate_known_curves on_session on_db
hydrate-cases w =
    let (outcome, same) = query-cases known_curve_addresses w.session in
    elim (Result-cases (query known_curve_addresses w.session).0) [
      | inr (x, e) ↦ rw e (same, λ u h. absurd (ground arith))
      | inl (curves, e) ↦ rw e (
        same,
        λ u h. elim outcome [
          | inl answers ↦
              ap (map (λ (x : String). to_lowercase x)) (ok-inj curves _ (sym e ∙ answers))
          | inr fails ↦ absurd (ground (arith, fails, e))
        ],
      )
    ]
  where
    ok-inj : (a b : List String) → ◌≡◌ {A = DbResult (List String)} (ok a) (ok b) → a ≡ b
    ok-inj a b h = ground arith

-- The log's trade is in the tables: with the row that stood at its key at the beginning or, if there was
-- none, with one that a log tells.
abbrev pub StoredTrade : Abi → Db → Db → RpcLog → Type 0
StoredTrade abi begin db l =
    (t : CbTrade) × (topic_trade abi l ≡ ok t)
    × Stored trade_key (Told abi) begin.cb_trades db.cb_trades t

-- The worker's cursor never passes a trade that is not stored. Whatever fails, in the chain, in the database
-- or in a handler, however the curves' probes answer and whenever the token is cancelled: if each answer
-- over a range holds every log that the chain has there, then after the worker every buy, sell and
-- graduation of a curve that it began with, at a height above its first cursor and at or below its last, has a
-- row in `cb_trades` at the key of the trade that it tells. A key that had a row before keeps it; any other has,
-- with all its columns, the trade that a log with that key tells, which for a graduation is without a fee.
pub run_coinblast_worker-NeverAhead :
    (abi : Abi) (cfg : WorkerConfig) (Emitted : ℤ → RpcLog → Type 0) (rounds : List Round)
    (w : Worker) (first last : Option ℤ) (k : ℤ) (l : RpcLog)
    → All (λ (r : Round). AnswersWhole abi cfg Emitted w.db (hydrated w.db) r.chain) rounds
    → scan_cursor w.db ≡ ok first
    → scan_cursor (run_coinblast_worker abi cfg rounds w).1.db ≡ ok last
    → Emitted k l
    → Tracked abi (hydrated w.db) l
    → at_least (cursor_floor cfg.network) first <ℤ k
    → k ≤ℤ at_least (cursor_floor cfg.network) last
    → StoredTrade abi w.db (run_coinblast_worker abi cfg rounds w).1.db l
unfolding run_coinblast_worker
run_coinblast_worker-NeverAhead abi cfg Emitted rounds w first last k l whole at_first at_last
      emitted tracked above below =
    let (same, curves) = hydrate-cases w in
    let w1 = (hydrate_known_curves w).1 in
    let lo = at_least (cursor_floor cfg.network) first in
    elim (Result-cases (hydrate_known_curves w).0) [
      | inr (x, e) ↦
          let unmoved : scan_cursor w.db ≡ ok last = rw⁻¹ same (rw e at at_last) in
          let is : first ≡ last = ground (arith, unmoved, at_first) in
          absurd (beyond lo k above (rw is below))
      | inl (u, e) ↦
          let nothing : Complete abi cfg Emitted w.db (hydrated w.db) lo w1.db =
            λ v k' l' at' emitted' tracked' above' below'.
              let is : first ≡ v = ground (arith, at_first, rw same at at') in
              absurd (beyond lo k' above' (rw is below')) in
          let s : Sound abi cfg Emitted w.db (hydrated w.db) lo w1 = record {
            complete = nothing;
            knows = λ x h. rw (curves u e) h;
            adds = rw same (λ k'. inl refl);
          } in
          let after = run_rounds-Sound abi cfg Emitted w.db (hydrated w.db) lo rounds w1 whole s in
          let (t, tells, there) =
            after.complete last k l (rw e at at_last) emitted tracked above below in
          rw e (t, tells, has-Stored trade_key (Told abi) w.db.cb_trades _ t after.adds there)
    ]
  where
    beyond : (a b : ℤ) → a <ℤ b → b ≤ℤ a → ⊥
    beyond a b lt le = omega arith
