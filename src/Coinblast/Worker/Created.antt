-- ===== src/Coinblast/Worker/Created.antt =====
-- The curves that the factory creates during a run, and a round that moves the cursor.
use mathlib.Core.Path.{subst}
use indexer_rs.Base.{
  ◌≡◌, ◌≢◌, refl, ap, sym, ◌∙◌, inl, inr, ℕ, ℤ, pos, ◌+ℤ◌, ◌<ℤ◌, min_ℤ, leb_ℤ, String, false,
  Option, some, List, [], ◌∷◌, arith, All, ok, err, string_eq, ==_iff, Bool-cases, as_i64,
  saturating_add, saturating_sub,
}
use indexer_rs.Base.Effects.{Result-cases, for_each}
use indexer_rs.Domain.{BlockHeight}
use indexer_rs.Chain.Error.{ChainError}
use indexer_rs.Db.Schema.{Db}
use indexer_rs.Db.Session.{Session, execute}
use indexer_rs.Db.Runs.{Runs-execute, execute-failed}
use indexer_rs.Db.Meta.{meta_key_coinblast_cursor, set_i64, get_i64-set_i64}
use indexer_rs.Db.Coinblast.{InsertCbToken, insert_token}
use indexer_rs.Sync.Convert.{RpcLog, hex_hash}
use indexer_rs.Sync.Ingest.{logs_in_range}
use indexer_rs.Coinblast.Handlers.{on_db, apply_curve_created, token_of}
use indexer_rs.Coinblast.Orphan.{token, call_token, probe, try_adopt}
use indexer_rs.Coinblast.Worker.{
  Abi, WorkerConfig, ChainView, Worker, on_session, contains, insert_set, emitter_of, has_topic,
  is_curve_event, factory_log, vet, curve_log, retried, run_chunk, cursor_floor, at_least,
  read_cursor, write_cursor, round,
}
use indexer_rs.Coinblast.Worker.Cursor.{scan_cursor, read_cursor-cases}

insert_token-trades :
    (t : InsertCbToken) (s : Session)
    → (on_db (execute (insert_token t)) s).1.db.cb_trades ≡ s.db.cb_trades
unfolding on_db
insert_token-trades t s = elim (Result-cases (execute (insert_token t) s).0) [
  | inl (u, e) ↦
      let rows = (Runs-execute (insert_token t)).sound s e in
      unfold insert_token in ground (arith, rows)
  | inr (x, e) ↦ ap (λ (db : Db). db.cb_trades) (execute-failed (insert_token t) s x e)
]

apply_curve_created-trades :
    (abi : Abi) (l : RpcLog) (s : Session)
    → (apply_curve_created abi.events l s).1.db.cb_trades ≡ s.db.cb_trades
unfolding apply_curve_created
apply_curve_created-trades abi l s = elim (Result-cases (token_of abi.events l)) [
  | inl (t, e) ↦ rw e (insert_token-trades t s)
  | inr (x, e) ↦ rw e refl
]

other_known :
    (x y : String) (set : List String) → x ≢ y → contains x (insert_set y set) ≡ contains x set
other_known x y set differ = ground (arith, ==_iff y x, λ (e : y ≡ x). differ (sym e))

-- No trade is stored, and only the factory's own address may become known.
abbrev pub OnlyFactory : String → Worker → Worker → Type 0
OnlyFactory factory a b =
    (b.db.cb_trades ≡ a.db.cb_trades)
    × ((x : String) → x ≢ factory → contains x b.known_curves ≡ contains x a.known_curves)

factory_log-OnlyFactory :
    (abi : Abi) (l : RpcLog) (w : Worker) → OnlyFactory (emitter_of abi l) w (factory_log abi l w).1
unfolding factory_log on_session
factory_log-OnlyFactory abi l w = elim (Bool-cases (has_topic l abi.topics.curve_created)) [
  | inr other ↦ rw other (refl, λ x differ. refl)
  | inl is ↦
      let trades = apply_curve_created-trades abi l w.session in
      rw is (elim (Result-cases (apply_curve_created abi.events l w.session).0) [
        | inl (u, e) ↦
            rw e (trades, λ x differ. other_known x (emitter_of abi l) w.known_curves differ)
        | inr (x, e) ↦ rw e (trades, λ y differ. refl)
      ])
]

factory_logs-OnlyFactory :
    (abi : Abi) (factory : List ℕ) (fs : List RpcLog) (w : Worker)
    → All (λ (l : RpcLog). l.address ≡ factory) fs
    → OnlyFactory (hex_hash abi.events.hex factory) w (for_each (factory_log abi) fs w).1
unfolding for_each
factory_logs-OnlyFactory abi factory [] w from_factory = (refl, λ x differ. refl)
factory_logs-OnlyFactory abi factory (l ∷ fs) w from_factory =
    let w1 = (factory_log abi l w).1 in
    let (trades, known) =
      subst (λ a. OnlyFactory (hex_hash abi.events.hex a) w w1) from_factory.0
        (factory_log-OnlyFactory abi l w) in
    elim (Result-cases (factory_log abi l w).0) [
      | inr (x, e) ↦ rw e (trades, known)
      | inl (u, e) ↦
          let (trades', known') = factory_logs-OnlyFactory abi factory fs w1 from_factory.1 in
          rw e (trades' ∙ trades, λ x differ. known' x differ ∙ known x differ)
    ]

-- An emitter that is not known and that the probe cannot reach.
abbrev pub Unreached : Abi → ChainView → List String → RpcLog → Type 0
Unreached abi chain known l =
    (contains (emitter_of abi l) known ≡ false)
    × ((e : ChainError) × (chain.views.call l.address token ≡ err e))

skipped :
    (abi : Abi) (chain : ChainView) (l : RpcLog) (w : Worker)
    → Unreached abi chain w.known_curves l
    → let r = curve_log abi chain l w in
      (r.0 ≡ ok tt) × (r.1.db.cb_trades ≡ w.db.cb_trades) × (r.1.known_curves ≡ w.known_curves)
unfolding curve_log vet on_session try_adopt probe call_token
skipped abi chain l w (unknown, (e, fails)) = elim (Bool-cases (is_curve_event abi l)) [
  | inr other ↦ rw other (refl, refl, refl)
  | inl event ↦ elim (Bool-cases (contains (emitter_of abi l) w.known_non_curves)) [
    | inl vetted ↦ rw (event, unknown, vetted) (refl, refl, refl)
    | inr new ↦ rw (event, unknown, new, fails) (refl, refl, refl)
  ]
]

all_skipped :
    (abi : Abi) (chain : ChainView) (ls : List RpcLog) (w : Worker)
    → All (Unreached abi chain w.known_curves) ls
    → let r = for_each (curve_log abi chain) ls w in
      (r.0 ≡ ok tt) × (r.1.db.cb_trades ≡ w.db.cb_trades)
unfolding for_each
all_skipped abi chain [] w unreached = (refl, refl)
all_skipped abi chain (l ∷ ls) w unreached =
    let (fin, trades, known) = skipped abi chain l w unreached.0 in
    let w1 = (curve_log abi chain l w).1 in
    let (fin', trades') =
      all_skipped abi chain ls w1
        (subst (λ k. All (Unreached abi chain k) ls) (sym known) unreached.1) in
    rw fin (fin', trades' ∙ trades)

after_factory :
    (abi : Abi) (chain : ChainView) (factory : String) (a b : List String) (ls : List RpcLog)
    → ((x : String) → x ≢ factory → contains x b ≡ contains x a)
    → All (λ l. Unreached abi chain a l × (emitter_of abi l ≢ factory)) ls
    → All (Unreached abi chain b) ls
after_factory abi chain factory a b [] same h = tt
after_factory abi chain factory a b (l ∷ ls) same h =
    let ((unknown, fails), differ) = h.0 in
    (
      (same (emitter_of abi l) differ ∙ unknown, fails),
      after_factory abi chain factory a b ls same h.1,
    )

-- A chunk whose first pass stores the curves that its factory created does not know them in its second: it
-- learns the factory's address in their place. If the probes of the emitters of the second pass fail, which
-- an outage of the chain's node is enough for, then the chunk still succeeds, so that the worker goes on
-- past it, and none of their trades is stored.
pub run_chunk-skips_created :
    (abi : Abi) (chain : ChainView) (from to : BlockHeight) (factory : List ℕ) (fs ls : List RpcLog)
    (w : Worker)
    → retried (logs_in_range chain.factory_logs from to) ≡ ok fs
    → All (λ (l : RpcLog). l.address ≡ factory) fs
    → (for_each (factory_log abi) fs w).0 ≡ ok tt
    → retried (logs_in_range chain.all_logs from to) ≡ ok ls
    → All
        (λ l.
          Unreached abi chain w.known_curves l
          × (emitter_of abi l ≢ hex_hash abi.events.hex factory))
        ls
    → let r = run_chunk abi chain from to w in (r.0 ≡ ok tt) × (r.1.db.cb_trades ≡ w.db.cb_trades)
unfolding run_chunk
run_chunk-skips_created abi chain from to factory fs ls w created from_factory stored asked
      unreached =
    let w1 = (for_each (factory_log abi) fs w).1 in
    let (trades, known) = factory_logs-OnlyFactory abi factory fs w from_factory in
    let later =
      after_factory abi chain (hex_hash abi.events.hex factory) w.known_curves w1.known_curves ls
        known unreached in
    let (fin, trades') = all_skipped abi chain ls w1 later in
    rw (created, stored, asked) (fin, trades' ∙ trades)

write_cursor-ok :
    (to : BlockHeight) (w : Worker)
    → (write_cursor to w).0 ≡ ok tt
    → scan_cursor (write_cursor to w).1.db ≡ ok (some to)
unfolding write_cursor on_session on_db
write_cursor-ok to w h =
    let f = set_i64 meta_key_coinblast_cursor to (pos 0) in
    elim (Result-cases (execute f w.session).0) [
      | inl (u, e) ↦
          get_i64-set_i64 meta_key_coinblast_cursor to (pos 0) w.db _
            ((Runs-execute f).sound w.session e)
      | inr (x, e) ↦ absurd (ground (arith, e))
    ]

abbrev pub scan_target : WorkerConfig → BlockHeight → BlockHeight
scan_target cfg tip = saturating_sub tip (as_i64 cfg.safe_lag)

-- Where the chunk of a round ends that found the cursor `v`.
abbrev pub chunk_end : WorkerConfig → Option ℤ → BlockHeight → BlockHeight
chunk_end cfg v tip =
    min_ℤ (saturating_add (at_least (cursor_floor cfg.network) v) (as_i64 cfg.chunk_size))
      (scan_target cfg tip)

-- A round that is behind its target, whose chunk succeeds and which itself returns without an error has
-- moved the stored cursor to the end of the chunk: `chunk_size` further, or to the target if that is nearer.
pub round_advances :
    (abi : Abi) (cfg : WorkerConfig) (chain : ChainView) (w : Worker) (v : Option ℤ)
    (tip : BlockHeight)
    → scan_cursor w.db ≡ ok v
    → retried chain.block_number ≡ ok tip
    → at_least (cursor_floor cfg.network) v <ℤ scan_target cfg tip
    → (run_chunk abi chain
        (at_least (cursor_floor cfg.network) v +ℤ pos 1)
        (chunk_end cfg v tip)
        (read_cursor cfg.network w).1).0
      ≡ ok tt
    → (round abi cfg chain w).0 ≡ ok tt
    → scan_cursor (round abi cfg chain w).1.db ≡ ok (some (chunk_end cfg v tip))
unfolding round
round_advances abi cfg chain w v tip at at_tip less done fin =
    let c = at_least (cursor_floor cfg.network) v in
    let target = saturating_sub tip (as_i64 cfg.safe_lag) in
    let to = min_ℤ (saturating_add c (as_i64 cfg.chunk_size)) target in
    let (db, curves, value) = read_cursor-cases cfg.network w in
    elim (Result-cases (read_cursor cfg.network w).0) [
      | inr (x, e) ↦ absurd (ground (arith, e))
      | inl (c', e) ↦
          let (v', at', is) = value c' e in
          let same : v' ≡ v = ground (arith, at, at') in
          let e' : (read_cursor cfg.network w).0 ≡ ok c =
            e ∙ ap ok (is ∙ ap (at_least (cursor_floor cfg.network)) same) in
          let behind : leb_ℤ target c ≡ false = ground (arith, less) in
          rw (e', at_tip, behind, done)
            (write_cursor-ok to _ (rw (e', at_tip, behind, done) at fin))
    ]
