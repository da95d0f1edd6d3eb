-- ===== src/Db/Meta.antt =====
-- crates/db/src/meta.rs and the cursor statement of crates/sync/src/cursor.rs.
use indexer_rs.Base.{
  ◌≡◌, arith, ==_self, ℤ, String, Option, none, some, List, [], ◌∷◌, ok, err, ◌==◌, string_eq,
  max_ℤ, if◌then◌else◌,
}
use indexer_rs.Domain.{BlockHeight}
use indexer_rs.Db.Table.{find}
use indexer_rs.Db.Schema.{
  Db, DbResult, Statement, MetaRow, MetaValue, number, other_text, invalid_number,
}

-- `last_synced_height` and `last_synced_coinblast_height`.
abbrev pub last_synced_height_key : String
last_synced_height_key = "last_synced_height"

abbrev pub meta_key_coinblast_cursor : String
meta_key_coinblast_cursor = "last_synced_coinblast_height"

abbrev pub meta_row : String → Db → Option MetaRow
meta_row k db = find (λ (r : MetaRow). r.name) k db.meta

-- The text read as an `i64`.
abbrev pub parse_value : MetaValue → DbResult (Option ℤ)
parse_value (number v) = ok (some v)
parse_value (other_text s) = err invalid_number

-- `meta::get_i64`.
unfoldable pub get_i64 : String → Db → DbResult (Option ℤ)
get_i64 k db = elim (meta_row k db) [ none ↦ ok none | some r ↦ parse_value r.value ]

-- Replace the row of a key, or add it.
unfoldable pub put_row : MetaRow → List MetaRow → List MetaRow
put_row r [] = r ∷ []
put_row r (q ∷ rows) = if q.name == r.name then r ∷ rows else q ∷ put_row r rows

-- `meta::set_i64`: the later value wins.
unfoldable pub set_i64 : String → ℤ → ℤ → Statement
set_i64 k v updated_at db =
    let r : MetaRow = record { name = k; value = number v; updated_at = updated_at } in
    ok (record db { meta = put_row r db.meta })

pub find-put_row_self :
    (r : MetaRow) (rows : List MetaRow)
    → find (λ (q : MetaRow). q.name) r.name (put_row r rows) ≡ some r
unfolding find put_row
find-put_row_self r [] = rw (==_self r.name)
find-put_row_self r (q ∷ rows) = ground (arith, ==_self r.name, find-put_row_self r rows)

-- What was stored under a key is read back.
pub get_i64-set_i64 :
    (k : String) (v updated_at : ℤ) (db db' : Db)
    → set_i64 k v updated_at db ≡ ok db'
    → get_i64 k db' ≡ ok (some v)
unfolding get_i64 set_i64
get_i64-set_i64 k v updated_at db db' w = ground (
  arith,
  find-put_row_self (record { name = k; value = number v; updated_at = updated_at }) db.meta,
)

-- GREATEST(_meta.value::int8, EXCLUDED.value::int8).
abbrev pub greatest : MetaValue → ℤ → DbResult ℤ
greatest (number old) v = ok (max_ℤ old v)
greatest (other_text s) v = err invalid_number

abbrev pub store_cursor : ℤ → Db → DbResult ℤ → DbResult Db
store_cursor now_ts db (ok v) = set_i64 last_synced_height_key v now_ts db
store_cursor now_ts db (err e) = err e

-- `cursor::write_cursor`: the stored height never falls; `updated_at` is always replaced.
unfoldable pub write_cursor_row : BlockHeight → ℤ → Statement
write_cursor_row h now_ts db = elim (meta_row last_synced_height_key db) [
  | none ↦ set_i64 last_synced_height_key h now_ts db
  | some r ↦ store_cursor now_ts db (greatest r.value h)
]
