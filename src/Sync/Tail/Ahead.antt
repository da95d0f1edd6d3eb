-- ===== src/Sync/Tail/Ahead.antt =====
-- The tail never leaves the stored cursor ahead of the data.
use indexer_rs.Base.{
  ◌≡◌, refl, ap, sym, ◌∙◌, inl, inr, ℕ, zero, suc, ℤ, ◌≤ℤ◌, ◌<ℤ◌, Bool, Option, none, some, List,
  [], ◌∷◌, arith, length, Result, ok, err, Bool-cases, Option-cases,
}
use indexer_rs.Base.Effects.{Result-cases}
use indexer_rs.Domain.{BlockHeight, height_from_u64}
use indexer_rs.Chain.Error.{ChainResult}
use indexer_rs.Chain.Retry.{default_backoff}
use indexer_rs.Sync.World.{SyncConfig}
use indexer_rs.Sync.Cursor.{stored_cursor, or_sentinel}
use indexer_rs.Sync.Ingest.{Endpoints}
use indexer_rs.Sync.Ingest.Fetch.{AnswersAsked}
use indexer_rs.Sync.Backfill.{Run}
use indexer_rs.Sync.BlockWriter.Kept.{Extends-refl}
use indexer_rs.Sync.Backfill.Flush.{Answered}
use indexer_rs.Sync.Backfill.Done.{Done, Present-Done}
use indexer_rs.Sync.SingleFlight.{offer, Offer, acquired, stashed, take_pending_and_release}
use indexer_rs.Sync.Tail.{
  Tail, TailError, on_world, on_gate, offer_all, catch_up, next_arrivals, work, handle_finalized,
}
use indexer_rs.Sync.Tail.Events.{
  TailItem, cancel_fired, broken, closed, block_finalized, lagged_sentinel, other_event, TailExit,
  cancelled, lagged, stream_ended, read_items, run_tail, Connection, TaskState, after_tail,
  tail_task,
}
use indexer_rs.Sync.Tail.Written.{Begin, UpTo, Sound, catch_up-Sound}

module _ (run : Run) (cfg : SyncConfig) (lo : Begin) (asked : AnswersAsked run.api) where
  work-Sound :
      (fuel : ℕ) (arrivals : List (List BlockHeight)) (current : BlockHeight) (t : Tail)
      → Sound run lo t.world.db
      → Sound run lo (work fuel run.api cfg run.backoff run.analytics arrivals current t).1.world.db
  unfolding work on_world on_gate
  work-Sound zero arrivals current t s = s
  work-Sound (suc fuel) arrivals current t s =
      let r = catch_up run.api cfg run.backoff run.analytics current t.world in
      let s1 = catch_up-Sound run cfg lo current t.world asked s in
      elim (Result-cases r.0) [
        | inr (x, e) ↦ rw e s1
        | inl (u, e) ↦
            let g = take_pending_and_release (offer_all (next_arrivals arrivals).0 t.gate) in
            elim (Option-cases g.0) [
              | inl none_left ↦ rw (e, none_left) s1
              | inr (h, more) ↦
                  rw (e, more)
                    (work-Sound fuel (next_arrivals arrivals).1 h
                      (record { world = r.1; gate = g.1 }) s1)
            ]
      ]

  handle_finalized-Sound :
      (arrivals : List (List BlockHeight)) (tip : BlockHeight) (t : Tail)
      → Sound run lo t.world.db
      → Sound run lo
          (handle_finalized run.api cfg run.backoff run.analytics arrivals tip t).1.world.db
  unfolding handle_finalized on_gate
  handle_finalized-Sound arrivals tip t s = by_offer (offer tip t.gate).0 refl
    where
      by_offer :
          (o : Offer)
          → (offer tip t.gate).0 ≡ o
          → Sound run lo
              (handle_finalized run.api cfg run.backoff run.analytics arrivals tip t).1.world.db
      by_offer stashed e = rw e s
      by_offer (acquired h) e = rw e (
          work-Sound (suc (length arrivals)) arrivals h (record t { gate = (offer tip t.gate).1 })
            s)

-- What the tail writes: one height at a time, with the default retries.
abbrev pub tail_run : Endpoints → Bool → Run
tail_run api analytics = record {
  api = api;
  backoff = default_backoff;
  batch_size = 1;
  analytics = analytics;
}

module _ (api : Endpoints) (cfg : SyncConfig) (analytics : Bool) (lo : Begin)
    (asked : AnswersAsked api) where
  read_items-Sound :
      (items : List TailItem) (t : Tail)
      → Sound (tail_run api analytics) lo t.world.db
      → Sound (tail_run api analytics) lo (read_items api cfg analytics items t).1.world.db
  unfolding read_items
  read_items-Sound [] t s = s
  read_items-Sound (cancel_fired ∷ items) t s = s
  read_items-Sound (broken e ∷ items) t s = s
  read_items-Sound (closed ∷ items) t s = s
  read_items-Sound (block_finalized none arrivals ∷ items) t s = read_items-Sound items t s
  read_items-Sound (block_finalized (some index) arrivals ∷ items) t s =
      let tip = height_from_u64 index in
      let r = handle_finalized api cfg default_backoff analytics arrivals tip t in
      let s1 = handle_finalized-Sound (tail_run api analytics) cfg lo asked arrivals tip t s in
      elim (Result-cases r.0) [
        | inr (x, e) ↦ rw e s1
        | inl (u, e) ↦ rw e (read_items-Sound items r.1 s1)
      ]
  read_items-Sound (lagged_sentinel ∷ items) t s = s
  read_items-Sound (other_event ∷ items) t s = read_items-Sound items t s

  run_tail-Sound :
      (subscribed : ChainResult (Unit {0})) (items : List TailItem) (t : Tail)
      → Sound (tail_run api analytics) lo t.world.db
      → Sound (tail_run api analytics) lo (run_tail api cfg analytics subscribed items t).1.world.db
  unfolding run_tail
  run_tail-Sound (err e) items t s = s
  run_tail-Sound (ok u) items t s = read_items-Sound items t s

  after_tail-Sound :
      (again : Tail → TaskState × Tail) (r : Result TailError (Option TailExit) × Tail)
      → ((t : Tail)
          → Sound (tail_run api analytics) lo t.world.db
          → Sound (tail_run api analytics) lo (again t).1.world.db)
      → Sound (tail_run api analytics) lo r.1.world.db
      → Sound (tail_run api analytics) lo (after_tail again r).1.world.db
  after_tail-Sound again (ok (some cancelled), t) keep s = s
  after_tail-Sound again (ok (some lagged), t) keep s = keep t s
  after_tail-Sound again (ok (some stream_ended), t) keep s = keep t s
  after_tail-Sound again (ok none, t) keep s = s
  after_tail-Sound again (err e, t) keep s = keep t s

  tail_task-Sound :
      (connections : List Connection) (t : Tail)
      → Sound (tail_run api analytics) lo t.world.db
      → Sound (tail_run api analytics) lo (tail_task api cfg analytics connections t).1.world.db
  unfolding tail_task
  tail_task-Sound [] t s = s
  tail_task-Sound (c ∷ connections) t s = elim (Bool-cases c.cancelled_before) [
    | inl stop ↦ rw stop s
    | inr go ↦ elim (Result-cases c.connected) [
      | inr (x, e) ↦ rw (go, e) (tail_task-Sound connections t s)
      | inl (u, e) ↦
          rw (go, e)
            (after_tail-Sound (tail_task api cfg analytics connections)
              (run_tail api cfg analytics c.subscribed c.items t)
              (λ t' s'. tail_task-Sound connections t' s')
              (run_tail-Sound c.subscribed c.items t s))
    ]
  ]

-- The tail, over any number of connections, any events, any tips that arrive meanwhile and any failures,
-- never leaves the stored cursor ahead of the data: for every height above the cursor that it began at and
-- at or below the cursor in the end, the chain has no block there, or the tables have a row for its block and
-- for each of its transactions, logs and transfers. A key that had a row before keeps that row, and any other
-- has, with all its columns, what the chain answered, the block of a height being the one answered for it.
-- The chain is one that answers with the block that it was asked for.
pub tail_task-NeverAhead :
    (api : Endpoints) (cfg : SyncConfig) (analytics : Bool) (connections : List Connection)
    (t : Tail) (old : Option ℤ) (c k : ℤ)
    → AnswersAsked api
    → stored_cursor t.world.db ≡ ok old
    → stored_cursor (tail_task api cfg analytics connections t).1.world.db ≡ ok (some c)
    → or_sentinel old <ℤ k
    → k ≤ℤ c
    → Done
        (tail_run api analytics)
        t.world.db
        (tail_task api cfg analytics connections t).1.world.db
        k
tail_task-NeverAhead api cfg analytics connections t old c k asked begins ends above below =
    let begin : Begin = record { cursor = or_sentinel old; db = t.world.db } in
    let start : UpTo (tail_run api analytics) begin (or_sentinel old) t.world.db = record {
      adds = Extends-refl (Answered (tail_run api analytics)) t.world.db;
      stored = old;
      at = begins;
      is = refl;
      done = λ k' above' below'. absurd (omega arith);
    } in
    let (c', u) =
      tail_task-Sound api cfg analytics begin asked connections t (or_sentinel old, start) in
    let same : u.stored ≡ some c = ground (arith, u.at, ends) in
    let is : c ≡ c' = sym (ap or_sentinel same) ∙ u.is in
    Present-Done (tail_run api analytics) t.world.db _ k asked u.adds
      (u.done k above (rw is at below))
