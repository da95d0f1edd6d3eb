-- ===== src/Analytics/Flusher/GivesUp.antt =====
-- A failed insert ends the flusher: no later tick tries again.
use indexer_rs.Base.{
  ◌≡◌, refl, ap, ◌∙◌, true, false, ◌||◌, some, List, [], ◌∷◌, ◌++◌, arith, is_empty, err,
}
use indexer_rs.Sync.World.{RawTxRow}
use indexer_rs.Analytics.Flusher.{
  clickhouse, channel_closed, Flusher, send, arrive, arrive_all, Insert, some_write_fails, inserted,
  insert_batch, flush, drain_queue, FlusherEvent, pushed, senders_dropped, cancel_fired, tick_fired,
  recv_polled, step, after_exit, run_flusher,
}
use indexer_rs.Analytics.Flusher.Kept.{arrive-closed}

arrive_all-stored : (rows : List RawTxRow) (f : Flusher) → (arrive_all rows f).stored ≡ f.stored
unfolding arrive_all arrive send
arrive_all-stored [] f = refl
arrive_all-stored (row ∷ rows) f =
    let one : (arrive row f).stored ≡ f.stored = ground arith in
    arrive_all-stored rows (arrive row f) ∙ one

-- What the events after the return leave alone.
after_exit-closed :
    (events : List FlusherEvent) (f : Flusher)
    → f.receiver_open ≡ false
    → ((after_exit events f).stored ≡ f.stored) × ((after_exit events f).receiver_open ≡ false)
unfolding after_exit
after_exit-closed [] f closed = (refl, closed)
after_exit-closed (pushed row ∷ events) f closed =
    let same = ap (after_exit events) (arrive-closed row f closed) in
    let rest = after_exit-closed events f closed in
    (
      ap (λ (g : Flusher). g.stored) same ∙ rest.0,
      ap (λ (g : Flusher). g.receiver_open) same ∙ rest.1,
    )
after_exit-closed (senders_dropped ∷ events) f closed =
    after_exit-closed events (record f { senders_open = false }) closed
after_exit-closed (cancel_fired calls rows ∷ events) f closed = after_exit-closed events f closed
after_exit-closed (tick_fired calls rows ∷ events) f closed = after_exit-closed events f closed
after_exit-closed (recv_polled calls ∷ events) f closed = after_exit-closed events f closed

-- An insert that fails leaves what ClickHouse has.
flush_fails :
    (calls : Insert) (rows : List RawTxRow) (f : Flusher)
    → is_empty f.buf ≡ false
    → (calls.open_fails || calls.end_fails) ≡ true
    → ((flush calls rows f).0 ≡ err clickhouse) × ((flush calls rows f).1.stored ≡ f.stored)
unfolding flush insert_batch
flush_fails calls rows f full fails =
    let broken = some_write_fails calls.write_fails f.buf || calls.end_fails in
    let r = inserted calls.open_fails broken f in
    let flushed : flush calls rows f ≡ (r.0, arrive_all rows r.1) = ground (arith, full) in
    let failed : (r.0 ≡ err clickhouse) × (r.1.stored ≡ f.stored) = ground (arith, fails) in
    rw flushed (failed.0, arrive_all-stored rows r.1 ∙ failed.1)

-- Let a tick find rows, and let its insert fail when it opens or when it ends. Whatever happens then, later
-- ticks whose inserts would succeed included, the task has returned with the error, ClickHouse has no row
-- that it did not have before the tick, and every push is refused from then on.
pub run_flusher_gives_up :
    (calls : Insert) (rows : List RawTxRow) (events : List FlusherEvent) (f : Flusher)
    → is_empty (f.buf ++ f.queue) ≡ false
    → (calls.open_fails || calls.end_fails) ≡ true
    → ((run_flusher (tick_fired calls rows ∷ events) f).0 ≡ some (err clickhouse))
      × ((run_flusher (tick_fired calls rows ∷ events) f).1.stored ≡ f.stored)
      × ((row : RawTxRow)
          → (send row (run_flusher (tick_fired calls rows ∷ events) f).1).0 ≡ err channel_closed)
unfolding run_flusher step send drain_queue
run_flusher_gives_up calls rows events f found fails =
    let flushed = flush calls rows (drain_queue f) in
    let (failed, kept) = flush_fails calls rows (drain_queue f) found fails in
    let gone = record flushed.1 { receiver_open = false } in
    let ended : run_flusher (tick_fired calls rows ∷ events) f
        ≡ (some (err clickhouse), after_exit events gone) =
      ground (arith, found, failed) in
    let after = after_exit-closed events gone refl in
    rw ended (refl, after.0 ∙ kept, λ row. ground (arith, after.1))
