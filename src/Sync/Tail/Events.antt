-- ===== src/Sync/Tail/Events.antt =====
-- `run_tail` of crates/sync/src/tail.rs over the events of one subscription, and the task of bin/indexer.rs
-- that connects again and again.
use indexer_rs.Base.{ℕ, Bool, true, false, Option, none, some, List, [], ◌∷◌, Result, ok, err}
use indexer_rs.Base.Effects.{◌>>◌, pure, raise}
use indexer_rs.Domain.{BlockHeight, height_from_u64}
use indexer_rs.Chain.Error.{ChainError, ChainResult}
use indexer_rs.Chain.Retry.{default_backoff}
use indexer_rs.Sync.World.{SyncConfig, chain}
use indexer_rs.Sync.Ingest.{Endpoints}
use indexer_rs.Sync.Tail.{Tail, TailError, failed, TailIo, handle_finalized}

-- What one `select!` brings: the token first, then the stream. A finalized block comes with its index, if it
-- has one, and with the tips that other callers offer while it is handled.
pub data TailItem : Type 0 where
  cancel_fired : TailItem
  broken : ChainError → TailItem
  closed : TailItem
  block_finalized : Option ℕ → List (List BlockHeight) → TailItem
  lagged_sentinel : TailItem
  other_event : TailItem

pub data TailExit : Type 0 where
  cancelled lagged stream_ended : TailExit

module _ (api : Endpoints) (cfg : SyncConfig) (analytics : Bool) where
  -- The loop of `run_tail`; none if it still waits for its next event.
  unfoldable pub read_items : List TailItem → TailIo (Option TailExit)
  read_items [] = pure none
  read_items (cancel_fired ∷ items) = pure (some cancelled)
  read_items (broken e ∷ items) = raise (failed (chain e))
  read_items (closed ∷ items) = pure (some stream_ended)
  read_items (block_finalized none arrivals ∷ items) = read_items items
  read_items (block_finalized (some index) arrivals ∷ items) =
      let rest = read_items items in
      do handle_finalized api cfg default_backoff analytics arrivals (height_from_u64 index); rest
  read_items (lagged_sentinel ∷ items) = pure (some lagged)
  read_items (other_event ∷ items) = read_items items

  -- `run_tail`: the subscription, then its events.
  unfoldable pub run_tail : ChainResult (Unit {0}) → List TailItem → TailIo (Option TailExit)
  unfolding read_items
  run_tail (err e) items = raise (failed (chain e))
  run_tail (ok u) items = read_items items

-- One round of the task: whether the token is cancelled, whether the client connects, and what it reads.
pub record Connection : Type 0 where
  pub cancelled_before : Bool
  pub connected : ChainResult (Unit {0})
  pub subscribed : ChainResult (Unit {0})
  pub items : List TailItem

pub data TaskState : Type 0 where
  returned waiting : TaskState

-- After a call of `run_tail`: cancelled or waiting ends it, all else connects again.
abbrev pub after_tail :
    (Tail → TaskState × Tail) → Result TailError (Option TailExit) × Tail → TaskState × Tail
after_tail again (ok (some cancelled), t) = (returned, t)
after_tail again (ok (some lagged), t) = again t
after_tail again (ok (some stream_ended), t) = again t
after_tail again (ok none, t) = (waiting, t)
after_tail again (err e, t) = again t

-- The task `tail_handle`; an error of the connection or of `run_tail` is logged.
unfoldable pub tail_task : Endpoints → SyncConfig → Bool → List Connection → Tail → TaskState × Tail
tail_task api cfg analytics [] t = (waiting, t)
tail_task api cfg analytics (c ∷ connections) t =
    let again = tail_task api cfg analytics connections in
    elim c.cancelled_before [
      | true ↦ (returned, t)
      | false ↦ elim c.connected [
        | err e ↦ again t
        | ok u ↦ after_tail again (run_tail api cfg analytics c.subscribed c.items t)
      ]
    ]
