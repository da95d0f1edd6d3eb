-- ===== src/Sync/Reorg/Rewind.antt =====
-- `rewind_to`: what it deletes, what it leaves, and where it leaves the cursor.
use indexer_rs.Base.{
  ◌≡◌, refl, ap, ◌∙◌, ◌⊎◌, inl, inr, ℤ, pos, ◌≤ℤ◌, false, not, ◌&&◌, leb_ℤ, Option, some, arith,
  All, ok, err, saturating_sub, max_ℤ-eq_left,
}
use indexer_rs.Base.Effects.{Result-cases}
use indexer_rs.Domain.{BlockHeight, Transaction, Log}
use indexer_rs.Db.Schema.{Db, Statement}
use indexer_rs.Db.Chain.{has_block, delete_from}
use indexer_rs.Db.Meta.{write_cursor_row, get_i64}
use indexer_rs.Db.Session.{transaction}
use indexer_rs.Db.Runs.{
  healthy, ◌then_do◌, Runs, Runs-execute, Runs-then, Runs-transaction, transaction-rollback,
}
use indexer_rs.Db.Integrity.{IsConsistent}
use indexer_rs.Db.Integrity.Rows.{write_cursor-IsConsistent, write_cursor-SameChain}
use indexer_rs.Db.Integrity.Delete.{
  after_delete, delete_from-IsConsistent, delete_from-Below, has_block-delete,
}
use indexer_rs.Sync.Cursor.{
  stored_cursor, stored_cursor-write_cursor, write_cursor-succeeds, write_cursor,
}
use indexer_rs.Sync.World.{World, SyncError, db_error, db_result, sql}
use indexer_rs.Sync.Reorg.{rewind_sql, rewind_to}

abbrev pub rewind_rows : BlockHeight → Statement
rewind_rows h = delete_from h then_do write_cursor_row (saturating_sub h (pos 1)) (pos 0)

Runs-rewind : (h : BlockHeight) → Runs (rewind_sql h) (rewind_rows h)
unfolding rewind_sql write_cursor
Runs-rewind h = Runs-then _ _ _ _ (Runs-execute (delete_from h)) (Runs-execute _)

-- A rewind that succeeds wrote the cursor after the deletion.
rewind_rows-inv :
    (h : BlockHeight) (db db' : Db)
    → rewind_rows h db ≡ ok db'
    → write_cursor_row (saturating_sub h (pos 1)) (pos 0) (after_delete h db) ≡ ok db'
unfolding delete_from
rewind_rows-inv h db db' e = e

-- `rewind_to` either succeeds, and then its tables are those of the deletion followed by the cursor write;
-- or it returns an error, and then the tables are as they were, whichever round trip failed.
pub rewind_to_atomic :
    (h : BlockHeight) (w : World)
    → ((rewind_to h w).0 ≡ ok tt) × (rewind_rows h w.db ≡ ok (rewind_to h w).1.db)
      ⊎ ((e : SyncError) × ((rewind_to h w).0 ≡ err e) × ((rewind_to h w).1.db ≡ w.db))
unfolding rewind_to sql
rewind_to_atomic h w = elim (Result-cases (transaction (rewind_sql h) w.session).0) [
  | inl (u, e) ↦ inl (
    ap db_result e,
    (Runs-transaction (rewind_sql h) (rewind_rows h) (Runs-rewind h)).sound w.session e,
  )
  | inr (x, e) ↦ inr (db_error x, ap db_result e, transaction-rollback (rewind_sql h) w.session x e)
]

pub rewind_rows-IsConsistent :
    (h : BlockHeight) (db db' : Db) → IsConsistent db → rewind_rows h db ≡ ok db' → IsConsistent db'
rewind_rows-IsConsistent h db db' c e =
    write_cursor-IsConsistent (saturating_sub h (pos 1)) (pos 0) (after_delete h db) db'
      (delete_from-IsConsistent h db c) (rewind_rows-inv h db db' e)

-- What a rewind to `h` leaves of the tables.
pub record Rewound (h : BlockHeight) (before after : Db) : Type 0 where
  pub blocks : (k : BlockHeight) → has_block k after ≡ (not (leb_ℤ h k) && has_block k before)
  pub txs : All (λ (t : Transaction). leb_ℤ h t.block_height ≡ false) after.transactions
  pub logs : All (λ (l : Log). leb_ℤ h l.block_height ≡ false) after.logs
  pub transfers : after.token_transfers ≡ before.token_transfers
  pub consistent : IsConsistent after

pub rewind_rows-Rewound :
    (h : BlockHeight) (db db' : Db) → IsConsistent db → rewind_rows h db ≡ ok db' → Rewound h db db'
rewind_rows-Rewound h db db' c e =
    let kept = rewind_rows-IsConsistent h db db' c e in
    let below = delete_from-Below h db c in
    let same = write_cursor-SameChain _ _ (after_delete h db) db' (rewind_rows-inv h db db' e) in
    record {
      blocks = λ k. rw same (has_block-delete h k db);
      txs = rw same below.0;
      logs = rw same below.1;
      transfers = rw same refl;
      consistent = kept;
    }

pub rewind_to-ok :
    (h : BlockHeight) (w : World)
    → (rewind_to h w).0 ≡ ok tt
    → rewind_rows h w.db ≡ ok (rewind_to h w).1.db
rewind_to-ok h w done = elim (rewind_to_atomic h w) [
  | inl (_, rows) ↦ rows
  | inr (e, fails, _) ↦ absurd (ground arith)
]

-- After a rewind to `h` that succeeds, a block is in the table exactly if it was and stands below `h`; no
-- transaction and no log of a height from `h` on is left; and the token transfers are all still there. The
-- keys and foreign keys hold if they did before.
pub rewind_to-Rewound :
    (h : BlockHeight) (w : World)
    → IsConsistent w.db
    → (rewind_to h w).0 ≡ ok tt
    → Rewound h w.db (rewind_to h w).1.db
rewind_to-Rewound h w c done =
    rewind_rows-Rewound h w.db (rewind_to h w).1.db c (rewind_to-ok h w done)

-- A rewind to `h` that succeeds does not move the stored cursor back: if it stood at `h - 1` or above, it
-- stands where it was.
pub rewind_to-cursor_stays :
    (h c : BlockHeight) (w : World)
    → stored_cursor w.db ≡ ok (some c)
    → saturating_sub h (pos 1) ≤ℤ c
    → (rewind_to h w).0 ≡ ok tt
    → stored_cursor (rewind_to h w).1.db ≡ ok (some c)
rewind_to-cursor_stays h c w stands le done =
    let after = (rewind_to h w).1.db in
    let wrote = rewind_rows-inv h w.db after (rewind_to-ok h w done) in
    let before : stored_cursor (after_delete h w.db) ≡ ok (some c) = unfold get_i64 in stands in
    stored_cursor-write_cursor _ _ (after_delete h w.db) after (some c) before wrote
    ∙ ap (λ v. ok (some v)) (max_ℤ-eq_left c (saturating_sub h (pos 1)) le)

-- With a readable stored cursor and no fault, a rewind succeeds.
pub rewind_to-succeeds :
    (h : BlockHeight) (old : Option ℤ) (w : World)
    → stored_cursor w.db ≡ ok old
    → (db' : Db) × (rewind_to h (record w { session = healthy w.db })
        ≡ (ok tt, record w { session = healthy db' }))
      × (rewind_rows h w.db ≡ ok db')
unfolding rewind_to sql
rewind_to-succeeds h old w readable =
    let before : stored_cursor (after_delete h w.db) ≡ ok old = unfold get_i64 in readable in
    let (db', wrote) =
      write_cursor-succeeds (saturating_sub h (pos 1)) (pos 0) (after_delete h w.db) old before in
    let rows : rewind_rows h w.db ≡ ok db' = unfold delete_from in wrote in
    let run =
      (Runs-transaction (rewind_sql h) (rewind_rows h) (Runs-rewind h)).succeeds w.db db' rows in
    (db', rw run refl, rows)
