-- ===== src/Analytics/Flusher/Examples.antt =====
-- A row that waits for the flusher, and the theorems on it.
use indexer_rs.Base.{◌≡◌, refl, true, false, none, some, List, [], ◌∷◌, ok, err}
use indexer_rs.Sync.World.{RawTxRow}
use indexer_rs.Analytics.Flusher.{
  clickhouse, channel_closed, Flusher, new_flusher, send, arrive, Insert, insert_batch, flush,
  drain_queue, some_write_fails, FlusherEvent, pushed, cancel_fired, tick_fired, recv_polled, step,
  after_exit, run_flusher, arrive_all,
}
use indexer_rs.Analytics.Flusher.Kept.{Settled, run_flusher-Settled}
use indexer_rs.Analytics.Flusher.GivesUp.{run_flusher_gives_up}

abbrev row : RawTxRow
row = record {
  block_height = 1;
  timestamp = 5;
  tx_hash = "0x1";
  from_addr = "0xa";
  to_addr = none;
  value_str = 0;
  fee_str = 0;
  gas_used = 0;
  status = 1;
  tx_type = "evm";
}

abbrev works : Insert
works = record { open_fails = false; write_fails = []; end_fails = false }

abbrev fails : Insert
fails = record { open_fails = true; write_fails = []; end_fails = false }

-- Two rows arrive, one of them while the first is flushed; the second is flushed at the shutdown.
abbrev two_flushes : List FlusherEvent
two_flushes =
    pushed row ∷ recv_polled works ∷ tick_fired works (row ∷ []) ∷ cancel_fired works [] ∷ []

run_flusher-Settled_example : Settled (run_flusher two_flushes new_flusher)
run_flusher-Settled_example = run_flusher-Settled two_flushes new_flusher refl

both_stored : run_flusher two_flushes new_flusher ≡ (
  some (ok tt),
  record {
    queue = [];
    buf = [];
    stored = row ∷ row ∷ [];
    accepted = row ∷ row ∷ [];
    receiver_open = false;
    senders_open = true;
  },
)
unfolding run_flusher step arrive send flush insert_batch drain_queue arrive_all some_write_fails
    after_exit
both_stored = refl

abbrev one_waits : Flusher
one_waits = record new_flusher { queue = row ∷ []; accepted = row ∷ [] }

run_flusher_gives_up_example :
    ((run_flusher (tick_fired fails [] ∷ tick_fired works [] ∷ []) one_waits).0
      ≡ some (err clickhouse))
    × ((run_flusher (tick_fired fails [] ∷ tick_fired works [] ∷ []) one_waits).1.stored ≡ [])
    × ((r : RawTxRow)
        → (send r (run_flusher (tick_fired fails [] ∷ tick_fired works [] ∷ []) one_waits).1).0
          ≡ err channel_closed)
run_flusher_gives_up_example =
    run_flusher_gives_up fails [] (tick_fired works [] ∷ []) one_waits refl refl
