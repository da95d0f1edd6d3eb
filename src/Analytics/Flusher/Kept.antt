-- ===== src/Analytics/Flusher/Kept.antt =====
-- No row is lost on the way to ClickHouse while the flusher's inserts succeed, and none is stored twice.
use mathlib.Core.List.{append-nil, append_assoc}
use indexer_rs.Base.{
  ◌≡◌, refl, sym, ap, ◌∙◌, inl, inr, Bool, true, false, ◌||◌, none, some, List, [], ◌∷◌, ◌++◌,
  arith, is_empty, ok, err, Bool-cases,
}
use indexer_rs.Sync.World.{RawTxRow}
use indexer_rs.Analytics.Flusher.{
  AnalyticsResult, Flusher, send, arrive, arrive_all, Insert, some_write_fails, inserted,
  insert_batch, flush, drain_queue, FlusherEvent, pushed, senders_dropped, cancel_fired, tick_fired,
  recv_polled, Exit, exits, goes_on, on_tick, recv, step, after_exit, next, run_flusher,
}

-- The rows that the channel took are those stored, then the buffer, then the channel's own.
abbrev pub Conserved : Flusher → Type 0
Conserved f = f.stored ++ (f.buf ++ f.queue) ≡ f.accepted

-- The rows that are stored are the first that the channel took.
abbrev pub StoredPrefix : Flusher → Type 0
StoredPrefix f = (rest : List RawTxRow) × (f.stored ++ rest ≡ f.accepted)

abbrev pub Settled : Exit × Flusher → Type 0
Settled (none, f) = Conserved f
Settled (some (ok u), f) = Conserved f × (f.buf ≡ [])
Settled (some (err e), f) = StoredPrefix f

abbrev Flushed : AnalyticsResult × Flusher → Type 0
Flushed (ok u, f) = Conserved f × (f.buf ≡ [])
Flushed (err e, f) = StoredPrefix f

ruleset lists = (append-nil, append_assoc)

arrive-Conserved :
    (row : RawTxRow) (f : Flusher)
    → Conserved f
    → Conserved (arrive row f) × ((arrive row f).buf ≡ f.buf)
unfolding arrive send
arrive-Conserved row f h = elim (Bool-cases f.senders_open) [
  | inr dropped ↦ rw dropped (h, refl)
  | inl held ↦ elim (Bool-cases f.receiver_open) [
    | inr closed ↦ rw (held, closed) (h, refl)
    | inl open' ↦ rw (held, open') (simp (← append_assoc, h), refl)
  ]
]

arrive-StoredPrefix : (row : RawTxRow) (f : Flusher) → StoredPrefix f → StoredPrefix (arrive row f)
unfolding arrive send
arrive-StoredPrefix row f (rest, h) = elim (Bool-cases f.senders_open) [
  | inr dropped ↦ rw dropped (rest, h)
  | inl held ↦ elim (Bool-cases f.receiver_open) [
    | inr closed ↦ rw (held, closed) (rest, h)
    | inl open' ↦ rw (held, open') (rest ++ row ∷ [], simp (← append_assoc, h))
  ]
]

with_arrivals-Flushed :
    (rows : List RawTxRow) (r : AnalyticsResult) (f : Flusher)
    → Flushed (r, f)
    → Flushed (r, arrive_all rows f)
unfolding arrive_all
with_arrivals-Flushed [] r f h = h
with_arrivals-Flushed (row ∷ rows) (ok u) f h =
    let one = arrive-Conserved row f h.0 in
    with_arrivals-Flushed rows (ok u) (arrive row f) (one.0, one.1 ∙ h.1)
with_arrivals-Flushed (row ∷ rows) (err e) f h =
    with_arrivals-Flushed rows (err e) (arrive row f) (arrive-StoredPrefix row f h)

inserted-Flushed :
    (closed broken : Bool) (f : Flusher) → Conserved f → Flushed (inserted closed broken f)
inserted-Flushed true broken f h = (f.buf ++ f.queue, h)
inserted-Flushed false true f h = (f.buf ++ f.queue, h)
inserted-Flushed false false f h = (simp (append_assoc, h), refl)

flush-Flushed :
    (calls : Insert) (rows : List RawTxRow) (f : Flusher)
    → Conserved f
    → Flushed (flush calls rows f)
unfolding flush insert_batch
flush-Flushed calls rows f h = elim (Bool-cases (is_empty f.buf)) [
  | inl empty ↦
      let nothing : flush calls rows f ≡ (ok tt, f) = ground (arith, empty) in
      let empty_buf : f.buf ≡ [] = ground (arith, empty) in rw nothing (h, empty_buf)
  | inr full ↦
      let broken = some_write_fails calls.write_fails f.buf || calls.end_fails in
      let r = inserted calls.open_fails broken f in
      let some_rows : flush calls rows f ≡ (r.0, arrive_all rows r.1) = ground (arith, full) in
      rw some_rows
        (with_arrivals-Flushed rows r.0 r.1 (inserted-Flushed calls.open_fails broken f h))
]

drain_queue-Conserved : (f : Flusher) → Conserved f → Conserved (drain_queue f)
unfolding drain_queue
drain_queue-Conserved f h = simp (append-nil, h)

exits-Settled : (r : AnalyticsResult × Flusher) → Flushed r → Settled (exits r)
exits-Settled (ok u, f) h = h
exits-Settled (err e, f) h = h

goes_on-Settled : (r : AnalyticsResult × Flusher) → Flushed r → Settled (goes_on r)
goes_on-Settled (ok u, f) h = h.0
goes_on-Settled (err e, f) h = h

recv-Settled :
    (calls : Insert) (f : Flusher) (queue : List RawTxRow) (senders : Bool)
    → f.queue ≡ queue
    → Conserved f
    → Settled (recv calls f queue senders)
recv-Settled calls f (row ∷ rest) senders e h =
    ap (λ (rows : List RawTxRow). f.stored ++ rows) (append_assoc f.buf (row ∷ []) rest)
    ∙ ap (λ (rows : List RawTxRow). f.stored ++ (f.buf ++ rows)) (sym e)
    ∙ h
recv-Settled calls f [] true e h = h
recv-Settled calls f [] false e h = exits-Settled (flush calls [] f) (flush-Flushed calls [] f h)

on_tick-Settled :
    (idle : Bool) (r : AnalyticsResult × Flusher) (f : Flusher)
    → Conserved f
    → Flushed r
    → Settled (on_tick idle r f)
on_tick-Settled true r f h flushed = h
on_tick-Settled false r f h flushed = goes_on-Settled r flushed

step-Settled : (e : FlusherEvent) (f : Flusher) → Conserved f → Settled (step e f)
unfolding step
step-Settled (pushed row) f h = (arrive-Conserved row f h).0
step-Settled senders_dropped f h = h
step-Settled (cancel_fired calls rows) f h =
    exits-Settled _ (flush-Flushed calls rows (drain_queue f) (drain_queue-Conserved f h))
step-Settled (tick_fired calls rows) f h =
    let drained = drain_queue f in
    let kept = drain_queue-Conserved f h in
    on_tick-Settled (is_empty drained.buf) (flush calls rows drained) drained kept
      (flush-Flushed calls rows drained kept)
step-Settled (recv_polled calls) f h = recv-Settled calls f f.queue f.senders_open refl h

pub arrive-closed : (row : RawTxRow) (f : Flusher) → f.receiver_open ≡ false → arrive row f ≡ f
unfolding arrive send
arrive-closed row f closed = ground (arith, closed)

-- After the task has returned no row is taken.
after_exit-rows :
    (r : AnalyticsResult) (events : List FlusherEvent) (f : Flusher)
    → f.receiver_open ≡ false
    → Settled (some r, f)
    → Settled (some r, after_exit events f)
unfolding after_exit
after_exit-rows r [] f closed h = h
after_exit-rows r (pushed row ∷ events) f closed h =
    rw (arrive-closed row f closed) (after_exit-rows r events f closed h)
after_exit-rows (ok u) (senders_dropped ∷ events) f closed h =
    after_exit-rows (ok u) events (record f { senders_open = false }) closed h
after_exit-rows (err e) (senders_dropped ∷ events) f closed h =
    after_exit-rows (err e) events (record f { senders_open = false }) closed h
after_exit-rows r (cancel_fired calls rows ∷ events) f closed h =
    after_exit-rows r events f closed h
after_exit-rows r (tick_fired calls rows ∷ events) f closed h = after_exit-rows r events f closed h
after_exit-rows r (recv_polled calls ∷ events) f closed h = after_exit-rows r events f closed h

next-Settled :
    (again : Flusher → Exit × Flusher) (events : List FlusherEvent) (r : Exit × Flusher)
    → ((f : Flusher) → Conserved f → Settled (again f))
    → Settled r
    → Settled (next again events r)
next-Settled again events (none, f) goes h = goes f h
next-Settled again events (some (ok u), f) goes h =
    after_exit-rows (ok u) events (record f { receiver_open = false }) refl h
next-Settled again events (some (err e), f) goes h =
    after_exit-rows (err e) events (record f { receiver_open = false }) refl h

-- From a state in which the rows that ClickHouse has, then the buffer, then the channel's rows are those that
-- the channel took, in their order: this stays so while the flusher runs, whatever events come and whatever
-- calls fail. If it has returned without an error it is so too, and the buffer is empty. If it has returned
-- with an error, the rows that ClickHouse has are the first that the channel took, each once.
pub run_flusher-Settled :
    (events : List FlusherEvent) (f : Flusher) → Conserved f → Settled (run_flusher events f)
unfolding run_flusher
run_flusher-Settled [] f h = h
run_flusher-Settled (e ∷ events) f h =
    next-Settled (run_flusher events) events (step e f) (λ g k. run_flusher-Settled events g k)
      (step-Settled e f h)
