-- ===== src/Coinblast/Worker/Cursor.antt =====
-- The worker's stored cursor, what reading and writing it does, and what an answer of the chain was asked for.
use indexer_rs.Base.{
  ◌≡◌, refl, sym, ◌∙◌, ◌⊎◌, inl, inr, ℕ, ℤ, pos, negsuc, Option, some, List, [], ◌∷◌, arith, All,
  ok, err,
}
use indexer_rs.Base.Effects.{Result-cases}
use indexer_rs.Domain.{BlockHeight, as_u64}
use indexer_rs.Chain.Retry.{default_backoff, retry_with_backoff, result_of}
use indexer_rs.Chain.Retry.Outcome.{retry-ok}
use indexer_rs.Chain.Error.{ChainResult}
use indexer_rs.Db.Schema.{Db, DbResult}
use indexer_rs.Db.Session.{query, execute}
use indexer_rs.Db.Runs.{query-cases, Runs-execute, execute-failed}
use indexer_rs.Db.Meta.{meta_key_coinblast_cursor, get_i64, set_i64, get_i64-set_i64}
use indexer_rs.Sync.Convert.{RpcLog}
use indexer_rs.Sync.Ingest.{GetLogs, logs_in_range}
use indexer_rs.Coinblast.Handlers.{on_db}
use indexer_rs.Coinblast.Orphan.{called}
use indexer_rs.Coinblast.Worker.{
  Network, Worker, on_session, retried, cursor_floor, at_least, read_cursor, write_cursor,
}

abbrev pub scan_cursor : Db → DbResult (Option ℤ)
scan_cursor = get_i64 meta_key_coinblast_cursor

abbrev pub Listed : RpcLog → List RpcLog → Type 0
Listed l [] = ⊥
Listed l (x ∷ xs) = (x ≡ l) ⊎ Listed l xs

pub All-Listed :
    (P : RpcLog → Type 0) (l : RpcLog) (xs : List RpcLog) → All P xs → Listed l xs → P l
All-Listed P l [] all h = elim h [ ]
All-Listed P l (x ∷ xs) all (inl same) = rw⁻¹ same all.0
All-Listed P l (x ∷ xs) all (inr later) = All-Listed P l xs all.1 later

pub called-ok : {A : Type 0} (r : ChainResult A) (a : A) → called r ≡ ok a → r ≡ ok a
called-ok (ok b) a h = ground arith
called-ok (err e) a h = absurd (ground arith)

pub retried-ok :
    {A : Type 0} (op : ℕ → ChainResult A) (a : A) → retried op ≡ ok a → (n : ℕ) × (op n ≡ ok a)
retried-ok op a h =
    retry-ok default_backoff op a
      (called-ok (result_of (retry_with_backoff default_backoff op).ending) a h)

pub logs_in_range-ok :
    (get : GetLogs) (from to : BlockHeight) (n : ℕ) (ls : List RpcLog)
    → logs_in_range get from to n ≡ ok ls
    → (f : ℕ) × (t : ℕ) × (from ≡ pos f) × (to ≡ pos t) × (get f t n ≡ ok ls)
unfolding logs_in_range as_u64
logs_in_range-ok get (pos f) (pos t) n ls h = (f, t, refl, refl, ground (arith, h))
logs_in_range-ok get (negsuc f) (pos t) n ls h = absurd (ground (arith, h))
logs_in_range-ok get (pos f) (negsuc t) n ls h = absurd (ground (arith, h))
logs_in_range-ok get (negsuc f) (negsuc t) n ls h = absurd (ground (arith, h))

pub read_cursor-cases :
    (network : Network) (w : Worker)
    → ((read_cursor network w).1.db ≡ w.db)
      × ((read_cursor network w).1.known_curves ≡ w.known_curves)
      × ((c : ℤ)
          → (read_cursor network w).0 ≡ ok c
          → (v : Option ℤ) × (scan_cursor w.db ≡ ok v) × (c ≡ at_least (cursor_floor network) v))
unfolding read_cursor on_session on_db
read_cursor-cases network w =
    let (outcome, same) = query-cases scan_cursor w.session in
    elim (Result-cases (query scan_cursor w.session).0) [
      | inr (x, e) ↦ rw e (same, refl, λ c h. absurd (ground arith))
      | inl (v, e) ↦ rw e (
        same,
        refl,
        λ c h. (
          v,
          elim outcome [
            | inl answers ↦ sym answers ∙ e
            | inr fails ↦ absurd (ground (arith, fails, e))
          ],
          ground arith,
        ),
      )
    ]

-- The write of the cursor: it is stored, or nothing has changed.
pub write_cursor-cases :
    (to : BlockHeight) (w : Worker)
    → let r = write_cursor to w in
      (r.1.known_curves ≡ w.known_curves)
      × ((scan_cursor r.1.db ≡ ok (some to)) × (r.1.db.cb_trades ≡ w.db.cb_trades)
          ⊎ (r.1.db ≡ w.db))
unfolding write_cursor on_session on_db
write_cursor-cases to w =
    let f = set_i64 meta_key_coinblast_cursor to (pos 0) in
    (
      refl,
      elim (Result-cases (execute f w.session).0) [
        | inl (u, e) ↦
            let stored = (Runs-execute f).sound w.session e in
            inl (
              get_i64-set_i64 meta_key_coinblast_cursor to (pos 0) w.db _ stored,
              unfold set_i64 in ground (arith, stored),
            )
        | inr (x, e) ↦ inr (execute-failed f w.session x e)
      ],
    )
