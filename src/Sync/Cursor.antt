-- ===== src/Sync/Cursor.antt =====
-- crates/sync/src/cursor.rs: the height that the indexer has written through.
use indexer_rs.Base.{
  ℤ, negsuc, ◌≡◌, refl, Option, none, some, arith, ok, max_ℤ, string_eq, ==_self, ◌≤ℤ◌, List, [],
  ◌∷◌, Option-cases, inl, inr, max_ℤ-eq_left, le-max_ℤ_right, ◌∙◌,
}
use indexer_rs.Domain.{BlockHeight}
use indexer_rs.Db.Schema.{Db, DbResult, MetaRow, MetaValue, number, other_text}
use indexer_rs.Db.Meta.{
  last_synced_height_key, get_i64, set_i64, put_row, meta_row, parse_value, greatest, store_cursor,
  write_cursor_row, find-put_row_self, get_i64-set_i64,
}
use indexer_rs.Db.Session.{Sql, query, execute}
use indexer_rs.Sync.World.{Io, sql}

-- The stored cursor, as the tables hold it.
abbrev pub stored_cursor : Db → DbResult (Option ℤ)
stored_cursor = get_i64 last_synced_height_key

unfoldable pub read_cursor : Io (Option BlockHeight)
read_cursor = sql (query stored_cursor)

-- `.unwrap_or(BlockHeight(-1))`.
abbrev pub or_sentinel : Option BlockHeight → BlockHeight
or_sentinel none = negsuc 0
or_sentinel (some h) = h

-- Inside a caller's transaction.
unfoldable pub write_cursor : BlockHeight → ℤ → Sql (Unit {0})
write_cursor h now_ts = execute (write_cursor_row h now_ts)

pub stored_cursor-set_i64 :
    (v now_ts : ℤ) (db db' : Db)
    → set_i64 last_synced_height_key v now_ts db ≡ ok db'
    → stored_cursor db' ≡ ok (some v)
stored_cursor-set_i64 v now_ts db db' w = get_i64-set_i64 last_synced_height_key v now_ts db db' w

abbrev pub greatest_of : BlockHeight → Option ℤ → ℤ
greatest_of h none = h
greatest_of h (some old) = max_ℤ old h

-- A write of `h` that succeeds leaves the greater of `h` and the stored cursor, whichever was written
-- first, so a later write of a lower height does not move the cursor back.
pub stored_cursor-write_cursor :
    (h : BlockHeight) (now_ts : ℤ) (db db' : Db) (old : Option ℤ)
    → stored_cursor db ≡ ok old
    → write_cursor_row h now_ts db ≡ ok db'
    → stored_cursor db' ≡ ok (some (greatest_of h old))
unfolding get_i64 write_cursor_row
stored_cursor-write_cursor h now_ts db db' old r w =
    ground (arith, stored_cursor-set_i64 (greatest_of h old) now_ts db db')

put_row_twice : (r : MetaRow) (rows : List MetaRow) → put_row r (put_row r rows) ≡ put_row r rows
unfolding put_row
put_row_twice r [] = rw (==_self r.name)
put_row_twice r (q ∷ rows) = ground (arith, ==_self r.name, put_row_twice r rows)

-- What a cursor write that succeeds stores.
pub write_cursor-inv :
    (h : BlockHeight) (now_ts : ℤ) (db db' : Db)
    → write_cursor_row h now_ts db ≡ ok db'
    → (v : ℤ) × (h ≤ℤ v) × (set_i64 last_synced_height_key v now_ts db ≡ ok db')
unfolding write_cursor_row
write_cursor-inv h now_ts db db' w = elim (Option-cases (meta_row last_synced_height_key db)) [
  | inl e ↦ (h, omega arith, ground (arith, e))
  | inr (r, e) ↦ stored r.value (ground (arith, e))
]
  where
    stored :
        (v : MetaValue)
        → store_cursor now_ts db (greatest v h) ≡ ok db'
        → (v : ℤ) × (h ≤ℤ v) × (set_i64 last_synced_height_key v now_ts db ≡ ok db')
    stored (number old) w = (max_ℤ old h, le-max_ℤ_right old h, w)
    stored (other_text s) w = absurd (ground arith)

write_cursor-next :
    (h v : BlockHeight) (now_ts : ℤ) (db db' : Db)
    → h ≤ℤ v
    → set_i64 last_synced_height_key v now_ts db ≡ ok db'
    → write_cursor_row h now_ts db' ≡ set_i64 last_synced_height_key v now_ts db'
unfolding write_cursor_row
write_cursor-next h v now_ts db db' le w =
    let row : MetaRow = record {
      name = last_synced_height_key;
      value = number v;
      updated_at = now_ts;
    } in
    let e : meta_row last_synced_height_key db' ≡ some row =
      unfold set_i64 in ground (arith, find-put_row_self row db.meta) in
    rw (e, write_cursor_row) (rw (max_ℤ-eq_left v h le))

set_i64_twice :
    (v now_ts : ℤ) (db db' : Db)
    → set_i64 last_synced_height_key v now_ts db ≡ ok db'
    → set_i64 last_synced_height_key v now_ts db' ≡ ok db'
unfolding set_i64
set_i64_twice v now_ts db db' w = ground (
  arith,
  put_row_twice (record { name = last_synced_height_key; value = number v; updated_at = now_ts })
      db.meta,
)

-- Writing the cursor again changes nothing.
pub write_cursor_twice :
    (h : BlockHeight) (now_ts : ℤ) (db db' : Db)
    → write_cursor_row h now_ts db ≡ ok db'
    → write_cursor_row h now_ts db' ≡ ok db'
write_cursor_twice h now_ts db db' w =
    let (v, le, set) = write_cursor-inv h now_ts db db' w in
    write_cursor-next h v now_ts db db' le set ∙ set_i64_twice v now_ts db db' set

-- A cursor write fails only if the stored text is no number.
pub write_cursor-succeeds :
    (h : BlockHeight) (now_ts : ℤ) (db : Db) (old : Option ℤ)
    → stored_cursor db ≡ ok old
    → (db' : Db) × (write_cursor_row h now_ts db ≡ ok db')
unfolding get_i64 write_cursor_row set_i64
write_cursor-succeeds h now_ts db old readable =
    elim (Option-cases (meta_row last_synced_height_key db)) [
      | inl e ↦ rw (e, write_cursor_row) (_, refl)
      | inr (r, e) ↦ rw (e, write_cursor_row) (stored r.value (rw (e, get_i64) at readable))
    ]
  where
    stored :
        (v : MetaValue)
        → parse_value v ≡ ok old
        → (db' : Db) × (store_cursor now_ts db (greatest v h) ≡ ok db')
    stored (number n) p = (_, refl)
    stored (other_text s) p = absurd (ground arith)
