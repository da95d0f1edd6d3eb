-- ===== src/Analytics/Flusher.antt =====
-- crates/analytics/src/flusher.rs: the task that drains the channel and inserts its rows in batches.
-- `stored` is what ClickHouse has, and `accepted` every row that the channel took, in its order; ClickHouse
-- keeps the rows of an insert whose `end` succeeds, and of no other.
pub mod Kept
pub mod GivesUp
mod Examples
use indexer_rs.Base.{
  Bool, true, false, ◌||◌, Option, none, some, List, [], ◌∷◌, ◌++◌, is_empty, Result, ok, err,
  if◌then◌else◌,
}
use indexer_rs.Sync.World.{RawTxRow}

pub data AnalyticsError : Type 0 where
  clickhouse channel_closed : AnalyticsError

abbrev pub AnalyticsResult : Type 0
AnalyticsResult = Result AnalyticsError (Unit {0})

pub record Flusher : Type 0 where
  pub queue : List RawTxRow
  pub buf : List RawTxRow
  pub stored : List RawTxRow
  pub accepted : List RawTxRow
  pub receiver_open : Bool
  pub senders_open : Bool

abbrev pub new_flusher : Flusher
new_flusher = record {
  queue = [];
  buf = [];
  stored = [];
  accepted = [];
  receiver_open = true;
  senders_open = true;
}

-- `AnalyticsHandle::push`.
unfoldable pub send : RawTxRow → Flusher → AnalyticsResult × Flusher
send row f = elim f.receiver_open [
  | true ↦ (ok tt, record f { queue = f.queue ++ row ∷ []; accepted = f.accepted ++ row ∷ [] })
  | false ↦ (err channel_closed, f)
]

-- A row that some holder of a handle pushes; there is none once the handles are dropped.
unfoldable pub arrive : RawTxRow → Flusher → Flusher
unfolding send
arrive row f = elim f.senders_open [ true ↦ (send row f).1 | false ↦ f ]

unfoldable pub arrive_all : List RawTxRow → Flusher → Flusher
arrive_all [] f = f
arrive_all (row ∷ rows) f = arrive_all rows (arrive row f)

-- Which calls of one insert fail.
pub record Insert : Type 0 where
  pub open_fails : Bool
  pub write_fails : List Bool
  pub end_fails : Bool

-- Whether the write of some row fails, each by the head of the list.
unfoldable pub some_write_fails : List Bool → List RawTxRow → Bool
some_write_fails fails [] = false
some_write_fails [] (row ∷ rows) = false
some_write_fails (b ∷ fails) (row ∷ rows) = b || some_write_fails fails rows

-- After the calls of an insert: whether it did not open, and whether a later call failed. `drain(..)` has
-- emptied the buffer also where a write fails.
abbrev pub inserted : Bool → Bool → Flusher → AnalyticsResult × Flusher
inserted true broken f = (err clickhouse, f)
inserted false true f = (err clickhouse, record f { buf = [] })
inserted false false f = (ok tt, record f { buf = []; stored = f.stored ++ f.buf })

unfoldable pub insert_batch : Insert → Flusher → AnalyticsResult × Flusher
unfolding some_write_fails
insert_batch calls f =
    inserted calls.open_fails (some_write_fails calls.write_fails f.buf || calls.end_fails) f

abbrev pub with_arrivals : List RawTxRow → AnalyticsResult × Flusher → AnalyticsResult × Flusher
with_arrivals rows (r, f) = (r, arrive_all rows f)

-- `flush`, with the rows that arrive while it waits for ClickHouse.
unfoldable pub flush : Insert → List RawTxRow → Flusher → AnalyticsResult × Flusher
unfolding insert_batch
flush calls arrivals f = elim (is_empty f.buf) [
  | true ↦ (ok tt, f)
  | false ↦ with_arrivals arrivals (insert_batch calls f)
]

-- `while let Ok(row) = rx.try_recv() { buf.push(row) }`
unfoldable pub drain_queue : Flusher → Flusher
drain_queue f = record f { buf = f.buf ++ f.queue; queue = [] }

-- What happens next: the branches of `select!`, and what the holders of the handles do in between.
pub data FlusherEvent : Type 0 where
  pushed : RawTxRow → FlusherEvent
  senders_dropped : FlusherEvent
  cancel_fired : Insert → List RawTxRow → FlusherEvent
  tick_fired : Insert → List RawTxRow → FlusherEvent
  recv_polled : Insert → FlusherEvent

-- Whether the task has returned, and with what.
abbrev pub Exit : Type 0
Exit = Option AnalyticsResult

abbrev pub exits : AnalyticsResult × Flusher → Exit × Flusher
exits (r, f) = (some r, f)

-- `flush(..).await?` in the loop.
abbrev pub goes_on : AnalyticsResult × Flusher → Exit × Flusher
goes_on (ok u, f) = (none, f)
goes_on (err e, f) = (some (err e), f)

abbrev pub recv : Insert → Flusher → List RawTxRow → Bool → Exit × Flusher
recv calls f (row ∷ rest) open' = (none, record f { queue = rest; buf = f.buf ++ row ∷ [] })
recv calls f [] true = (none, f)
recv calls f [] false = exits (flush calls [] f)

-- After a tick has drained the channel: nothing to do if the buffer is empty.
abbrev pub on_tick : Bool → AnalyticsResult × Flusher → Flusher → Exit × Flusher
on_tick true flushed f = (none, f)
on_tick false flushed f = goes_on flushed

unfoldable pub step : FlusherEvent → Flusher → Exit × Flusher
step (pushed row) f = (none, arrive row f)
step senders_dropped f = (none, record f { senders_open = false })
step (cancel_fired calls arrivals) f = exits (flush calls arrivals (drain_queue f))
step (tick_fired calls arrivals) f =
    let drained = drain_queue f in
    on_tick (is_empty drained.buf) (flush calls arrivals drained) drained
step (recv_polled calls) f = recv calls f f.queue f.senders_open

-- The task that returned drops its receiver: of the later events only the pushes are left.
unfoldable pub after_exit : List FlusherEvent → Flusher → Flusher
after_exit [] f = f
after_exit (pushed row ∷ events) f = after_exit events (arrive row f)
after_exit (senders_dropped ∷ events) f = after_exit events (record f { senders_open = false })
after_exit (cancel_fired calls rows ∷ events) f = after_exit events f
after_exit (tick_fired calls rows ∷ events) f = after_exit events f
after_exit (recv_polled calls ∷ events) f = after_exit events f

abbrev pub next : (Flusher → Exit × Flusher) → List FlusherEvent → Exit × Flusher → Exit × Flusher
next again events (none, f) = again f
next again events (some r, f) = (some r, after_exit events (record f { receiver_open = false }))

unfoldable pub run_flusher : List FlusherEvent → Flusher → Exit × Flusher
run_flusher [] f = (none, f)
run_flusher (e ∷ events) f = let again = run_flusher events in next again events (step e f)
