-- ===== src/Db/Session.antt =====
-- The connection pool: each statement, BEGIN and COMMIT may fail, as the environment chooses; a
-- transaction that does not commit leaves the tables as they were.
use indexer_rs.Base.{Bool, true, false, List, [], ◌∷◌, ok, err}
use indexer_rs.Base.Effects.{Exec, ◌>>=◌, ◌>>◌, pure}
use indexer_rs.Db.Schema.{Db, DbError, DbResult, Statement, connection}

-- `faults` says of each round trip to come whether the connection fails; past its end none does.
pub record Session : Type 0 where
  pub db : Db
  pub faults : List Bool

abbrev pub Sql : Type 0 → Type 0
Sql A = Exec Session DbError A

-- One round trip: the head of `faults`.
abbrev pub take_fault : List Bool → Bool × List Bool
take_fault [] = (false, [])
take_fault (f ∷ fs) = (f, fs)

abbrev pub store : Session → DbResult Db → DbResult (Unit {0}) × Session
store s (ok db) = (ok tt, record s { db = db })
store s (err e) = (err e, s)

-- `.execute(executor).await?` of a statement that writes.
unfoldable pub execute : Statement → Sql (Unit {0})
execute f s =
    let (fails, rest) = take_fault s.faults in
    let s' = record s { faults = rest } in
    elim fails [ true ↦ (err connection, s') | false ↦ store s' (f s.db) ]

abbrev pub store_counted : Session → Bool × Db → DbResult Bool × Session
store_counted s (changed, db) = (ok changed, record s { db = db })

-- `.execute(executor).await?` of a statement that cannot break a constraint, and `rows_affected() > 0`.
unfoldable pub execute_counted : (Db → Bool × Db) → Sql Bool
execute_counted f s =
    let (fails, rest) = take_fault s.faults in
    let s' = record s { faults = rest } in
    elim fails [ true ↦ (err connection, s') | false ↦ store_counted s' (f s.db) ]

-- `.fetch_optional(pool).await?` and the like.
unfoldable pub query : {A : Type 0} → (Db → DbResult A) → Sql A
query f s =
    let (fails, rest) = take_fault s.faults in
    let s' = record s { faults = rest } in
    elim fails [ true ↦ (err connection, s') | false ↦ (f s.db, s') ]

-- The round trips BEGIN and COMMIT.
unfoldable pub round_trip : Sql (Unit {0})
unfolding execute
round_trip = execute (λ db. ok db)

-- Dropping an open transaction rolls it back to the tables that it began with.
abbrev pub rollback_on_error : {A : Type 0} → Db → DbResult A × Session → DbResult A × Session
rollback_on_error before (ok a, s) = (ok a, s)
rollback_on_error before (err e, s) = (err e, record s { db = before })

-- BEGIN, the body, COMMIT.
unfoldable pub in_transaction : {A : Type 0} → Sql A → Sql A
unfolding round_trip
in_transaction body = do round_trip; a ← body; round_trip; pure a

-- `pool.begin()`, the body, `tx.commit()`.
unfoldable pub transaction : {A : Type 0} → Sql A → Sql A
transaction body s = rollback_on_error s.db (in_transaction body s)
