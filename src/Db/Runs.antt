-- ===== src/Db/Runs.antt =====
-- What a sequence of round trips does to the tables, as one statement: if all goes well the tables are
-- those of the statement, with no faults it goes well exactly when the statement does, and inside a
-- transaction an error leaves the tables as they were.
use indexer_rs.Base.{
  ◌⊎◌, Bool, true, false, ◌≡◌, refl, ap, sym, ◌∙◌, inl, inr, List, [], ◌∷◌, arith, ok, err,
}
use indexer_rs.Base.Effects.{◌>>◌, pure, for_each, Result-cases}
use indexer_rs.Db.Schema.{Db, DbError, connection, DbResult, Statement}
use indexer_rs.Db.Chain.{insert_rows}
use indexer_rs.Db.Session.{
  Session, Sql, execute, query, round_trip, in_transaction, transaction, rollback_on_error,
}

-- One statement after another.
infixl 10 ◌then_do◌
abbrev pub ◌then_do◌ : Statement → Statement → Statement
◌then_do◌ f g db = elim (f db) [ ok mid ↦ g mid | err e ↦ err e ]

abbrev pub skip : Statement
skip db = ok db

-- A session whose connection does not fail.
abbrev pub healthy : Db → Session
healthy db = record { db = db; faults = [] }

-- The session after a statement without faults.
abbrev pub outcome : Db → DbResult Db → DbResult (Unit {0}) × Session
outcome db (ok db') = (ok tt, healthy db')
outcome db (err e) = (err e, healthy db)

pub record Runs (m : Sql (Unit {0})) (f : Statement) : Type 0 where
  pub sound : (s : Session) → (m s).0 ≡ ok tt → f s.db ≡ ok (m s).1.db
  pub succeeds : (db db' : Db) → f db ≡ ok db' → m (healthy db) ≡ (ok tt, healthy db')
  pub fails : (db : Db) (e : DbError) → f db ≡ err e → (m (healthy db)).0 ≡ err e

execute_sound :
    (f : Statement) (s : Session) → (execute f s).0 ≡ ok tt → f s.db ≡ ok (execute f s).1.db
unfolding execute
execute_sound f s h = ground arith

-- A statement that fails changes nothing.
pub execute-failed :
    (f : Statement) (s : Session) (e : DbError)
    → (execute f s).0 ≡ err e
    → (execute f s).1.db ≡ s.db
unfolding execute
execute-failed f s e h = ground arith

-- A query answers from the tables or fails, and changes nothing.
pub query-cases :
    {A : Type 0} (f : Db → DbResult A) (s : Session)
    → (((query f s).0 ≡ f s.db) ⊎ ((query f s).0 ≡ err connection)) × ((query f s).1.db ≡ s.db)
unfolding query
query-cases f s = by_faults s.db s.faults
  where
    by_faults :
        (db : Db) (faults : List Bool)
        → let r = query f (record { db = db; faults = faults }) in
          ((r.0 ≡ f db) ⊎ (r.0 ≡ err connection)) × (r.1.db ≡ db)
    by_faults db [] = (inl refl, refl)
    by_faults db (true ∷ faults) = (inr refl, refl)
    by_faults db (false ∷ faults) = (inl refl, refl)

pub Runs-execute : (f : Statement) → Runs (execute f) f
unfolding execute
Runs-execute f = record {
  sound = execute_sound f;
  succeeds = λ db db' h. ground arith;
  fails = λ db e h. ground arith;
}

module _ (m n : Sql (Unit {0})) (f g : Statement) (rm : Runs m f) (rn : Runs n g) where
  then_sound : (s : Session) → ((m >> n) s).0 ≡ ok tt → (f then_do g) s.db ≡ ok ((m >> n) s).1.db
  then_sound s h = elim (Result-cases (m s).0) [
    | inl (u, e) ↦
        let one = rm.sound s e in
        let two = rn.sound (m s).1 (rw e at h) in rw (one, ◌then_do◌, e) two
    | inr (x, e) ↦ absurd (ground (arith, e))
  ]

  then_succeeds :
      (db db' : Db) → (f then_do g) db ≡ ok db' → (m >> n) (healthy db) ≡ (ok tt, healthy db')
  then_succeeds db db' h = elim (Result-cases (f db)) [
    | inl (mid, e) ↦ rw (rm.succeeds db mid e) (rn.succeeds mid db' (rw (e, ◌then_do◌) at h))
    | inr (x, e) ↦ absurd (ground (arith, e))
  ]

  then_fails :
      (db : Db) (x : DbError) → (f then_do g) db ≡ err x → ((m >> n) (healthy db)).0 ≡ err x
  then_fails db x h = elim (Result-cases (f db)) [
    | inl (mid, e) ↦ rw (rm.succeeds db mid e) (rn.fails mid x (rw (e, ◌then_do◌) at h))
    | inr (y, e) ↦ let same : y ≡ x = ground (arith, e) in rw (rm.fails db y e) (ap err same)
  ]

  pub Runs-then : Runs (m >> n) (f then_do g)
  Runs-then = record { sound = then_sound; succeeds = then_succeeds; fails = then_fails }

pub Runs-pure : Runs (pure tt) skip
Runs-pure = record {
  sound = λ s h. refl;
  succeeds = λ db db' h. ground arith;
  fails = λ db e h. ground arith;
}

-- A loop that executes one statement for each element.
pub Runs-for_each :
    {R : Type 0} (insert : R → Statement) (rows : List R)
    → Runs (for_each (λ r. execute (insert r)) rows) (insert_rows insert rows)
unfolding for_each insert_rows
Runs-for_each insert [] = Runs-pure
Runs-for_each insert (r ∷ rows) =
    Runs-then (execute (insert r)) (for_each (λ q. execute (insert q)) rows) (insert r)
      (insert_rows insert rows) (Runs-execute (insert r)) (Runs-for_each insert rows)

rollback-err :
    {A : Type 0} (before : Db) (p : DbResult A × Session) (e : DbError)
    → (rollback_on_error before p).0 ≡ err e
    → (rollback_on_error before p).1.db ≡ before
rollback-err before (ok a, s) e h = absurd (ground arith)
rollback-err before (err x, s) e h = refl

rollback-ok :
    (before : Db) (p : DbResult (Unit {0}) × Session)
    → (rollback_on_error before p).0 ≡ ok tt
    → rollback_on_error before p ≡ p
rollback-ok before (ok a, s) h = refl
rollback-ok before (err x, s) h = absurd (ground arith)

rollback-result :
    {A : Type 0} (before : Db) (p : DbResult A × Session) → (rollback_on_error before p).0 ≡ p.0
rollback-result before (ok a, s) = refl
rollback-result before (err x, s) = refl

-- An error inside a transaction, BEGIN and COMMIT included, leaves the tables as they were.
pub transaction-rollback :
    {A : Type 0} (body : Sql A) (s : Session) (e : DbError)
    → (transaction body s).0 ≡ err e
    → (transaction body s).1.db ≡ s.db
unfolding transaction
transaction-rollback body s e h = rollback-err s.db (in_transaction body s) e h

abbrev bracketed : Statement → Statement
bracketed f = skip then_do (f then_do (skip then_do skip))

bracketed-eq : (f : Statement) (db : Db) → bracketed f db ≡ f db
bracketed-eq f db = ground arith

module _ (m : Sql (Unit {0})) (f : Statement) (rm : Runs m f) where
  in_transaction-Runs : Runs (in_transaction m) (bracketed f)
  unfolding in_transaction
  in_transaction-Runs =
      Runs-then _ _ _ _ (Runs-execute skip)
        (Runs-then _ _ _ _ rm (Runs-then _ _ _ _ (Runs-execute skip) Runs-pure))

  pub Runs-transaction : Runs (transaction m) f
  unfolding transaction
  Runs-transaction = record {
    sound = λ s h.
        let e = rollback-ok s.db (in_transaction m s) h in
        rw e (sym (bracketed-eq f s.db) ∙ in_transaction-Runs.sound s (rw e at h));
    succeeds = λ db db' h. rw (in_transaction-Runs.succeeds db db' (bracketed-eq f db ∙ h));
    fails = λ db e h.
        rollback-result db (in_transaction m (healthy db))
        ∙ in_transaction-Runs.fails db e (bracketed-eq f db ∙ h);
  }

round_trip-db : (s : Session) → (round_trip s).1.db ≡ s.db
unfolding round_trip execute
round_trip-db s = ground arith

-- A transaction that brings a value did what its body does from the tables that it began with.
pub transaction-ok :
    {A : Type 0} (body : Sql A) (s : Session) (a : A)
    → (transaction body s).0 ≡ ok a
    → (s' : Session) × (s'.db ≡ s.db)
      × ((body s').0 ≡ ok a)
      × ((transaction body s).1.db ≡ (body s').1.db)
unfolding transaction in_transaction
transaction-ok body s a h = elim (Result-cases (round_trip s).0) [
  | inr (x, e) ↦ absurd (ground (arith, e))
  | inl (u, e) ↦
      let s' = (round_trip s).1 in
      elim (Result-cases (body s').0) [
        | inr (x, f) ↦ absurd (ground (arith, e, f))
        | inl (b, f) ↦
            let r = round_trip (body s').1 in
            elim (Result-cases r.0) [
              | inr (x, g) ↦ absurd (ground (arith, e, f, g))
              | inl (v, g) ↦
                  let same : b ≡ a = ground (arith, e, f, g) in
                  (s', round_trip-db s, f ∙ ap ok same, rw (e, f, g) (round_trip-db (body s').1))
            ]
      ]
]
