-- ===== src/Sync/Tail.antt =====
-- crates/sync/src/tail.rs: the handler of a finalized block. `arrivals` says for each round of a worker which
-- tips other callers offer meanwhile; the gate is taken then, so they are stashed.
pub mod Gate
pub mod Events
pub mod Written
pub mod Ahead
pub mod Reached
mod Examples
use indexer_rs.Base.{
  ℕ, zero, suc, ℤ, pos, pos_part, ◌+ℤ◌, ◌-ℤ◌, ltb_ℤ, Bool, true, false, Option, none, some, List,
  [], ◌∷◌, length, Result, ok, err, saturating_sub, as_i64, if◌then◌else◌,
}
use indexer_rs.Base.Effects.{Exec, ◌>>=◌, ◌>>◌, pure, raise, for_each}
use indexer_rs.Domain.{BlockHeight}
use indexer_rs.Chain.Retry.{BackoffConfig}
use indexer_rs.Sync.World.{World, SyncError, SyncConfig, Io}
use indexer_rs.Sync.Cursor.{read_cursor, or_sentinel}
use indexer_rs.Sync.Ingest.{Endpoints, ingest_one}
use indexer_rs.Sync.Backfill.{heights_from}
use indexer_rs.Sync.SingleFlight.{
  SingleFlight, Offer, acquired, stashed, offer, take_pending_and_release,
}

pub record Tail : Type 0 where
  pub world : World
  pub gate : SingleFlight

-- Why a call of the model ends early: the code's error, or the model's fuel.
pub data TailError : Type 0 where
  failed : SyncError → TailError
  out_of_fuel : TailError

abbrev pub TailIo : Type 0 → Type 0
TailIo A = Exec Tail TailError A

abbrev pub tail_result : {A : Type 0} → Result SyncError A → Result TailError A
tail_result (ok a) = ok a
tail_result (err e) = err (failed e)

unfoldable pub on_world : {A : Type 0} → Io A → TailIo A
on_world m t = let r = m t.world in (tail_result r.0, record t { world = r.1 })

unfoldable pub on_gate : {A : Type 0} → (SingleFlight → A × SingleFlight) → TailIo A
on_gate f t = let r = f t.gate in (ok r.0, record t { gate = r.1 })

-- The offers of the other callers during a round.
unfoldable pub offer_all : List BlockHeight → SingleFlight → SingleFlight
unfolding offer
offer_all [] g = g
offer_all (tip ∷ tips) g = offer_all tips (offer tip g).1

-- One round of the worker up to the call that takes the pending tip: from the cursor to `safe_lag` below
-- the tip. The `while` loop runs over the heights above the cursor.
unfoldable pub catch_up :
    Endpoints → SyncConfig → BackoffConfig → Bool → BlockHeight → Io (Unit {0})
catch_up api cfg backoff analytics current = do
  stored ← read_cursor
  let cursor = or_sentinel stored in
      let limit = saturating_sub current (as_i64 cfg.safe_lag) in
      if ltb_ℤ cursor limit
      then for_each (ingest_one api backoff analytics)
          (heights_from (cursor +ℤ pos 1) (pos_part (limit -ℤ cursor)))
      else pure tt

abbrev pub next_arrivals : List (List BlockHeight) → List BlockHeight × List (List BlockHeight)
next_arrivals [] = ([], [])
next_arrivals (tips ∷ arrivals) = (tips, arrivals)

-- The worker's loop, on fuel.
unfoldable pub work :
    ℕ
    → Endpoints
    → SyncConfig
    → BackoffConfig
    → Bool
    → List (List BlockHeight)
    → BlockHeight
    → TailIo (Unit {0})
work zero api cfg backoff analytics arrivals current = raise out_of_fuel
work (suc fuel) api cfg backoff analytics arrivals current =
    let (tips, later) = next_arrivals arrivals in
    let again = work fuel api cfg backoff analytics later in
    do
      on_world (catch_up api cfg backoff analytics current)
      on_gate (λ g. (tt, offer_all tips g))
      next ← on_gate take_pending_and_release
      elim next [ none ↦ pure tt | some h ↦ again h ]

abbrev pub answer_offer :
    TailIo (Unit {0}) → (BlockHeight → TailIo (Unit {0})) → Offer → TailIo (Unit {0})
answer_offer leave enter stashed = leave
answer_offer leave enter (acquired h) = enter h

-- `handle_finalized`. A round more than there are arrivals is enough fuel.
unfoldable pub handle_finalized :
    Endpoints
    → SyncConfig
    → BackoffConfig
    → Bool
    → List (List BlockHeight)
    → BlockHeight
    → TailIo (Unit {0})
handle_finalized api cfg backoff analytics arrivals tip = do
  o ← on_gate (offer tip)
  answer_offer (pure tt) (work (suc (length arrivals)) api cfg backoff analytics arrivals) o
