-- ===== src/Db/Addresses.antt =====
-- crates/db/src/addresses.rs: the registry of the addresses seen in transactions.
use indexer_rs.Base.{
  ℤ, Bool, false, none, some, List, [], ◌∷◌, ok, err, ◌==◌, string_eq, max_ℤ, if◌then◌else◌, ◌||◌,
}
use indexer_rs.Domain.{Address, Hash}
use indexer_rs.Db.Table.{has}
use indexer_rs.Db.Schema.{Statement, AddressRow, affects_row_twice}

-- One sighting: a new row keeps the block as first and last, an old one advances the last.
unfoldable pub upsert_address : Address × ℤ → List AddressRow → List AddressRow
upsert_address (a, block) [] =
    record {
      address = a;
      first_seen_block = block;
      last_seen_block = block;
      is_contract = false;
      code_hash = none;
    }
    ∷ []
upsert_address (a, block) (r ∷ rows) =
    if r.address == a
    then record r { last_seen_block = max_ℤ r.last_seen_block block } ∷ rows
    else r ∷ upsert_address (a, block) rows

unfoldable pub upsert_all : List (Address × ℤ) → List AddressRow → List AddressRow
upsert_all [] rows = rows
upsert_all (s ∷ seen) rows = upsert_all seen (upsert_address s rows)

-- Whether one statement would meet an address twice, which ON CONFLICT DO UPDATE refuses.
unfoldable pub meets_twice : List (Address × ℤ) → Bool
meets_twice [] = false
meets_twice (s ∷ seen) = has (λ (p : Address × ℤ). p.0) s.0 seen || meets_twice seen

-- `addresses::upsert_batch`.
unfoldable pub upsert_batch : List (Address × ℤ) → Statement
unfolding upsert_all meets_twice
upsert_batch seen db =
    if meets_twice seen
    then err affects_row_twice
    else ok (record db { addresses = upsert_all seen db.addresses })

-- UPDATE addresses SET is_contract, code_hash WHERE address.
unfoldable pub classify_rows : Address → Bool → Hash → List AddressRow → List AddressRow
classify_rows a is_contract code_hash [] = []
classify_rows a is_contract code_hash (r ∷ rows) =
    (if r.address == a
      then record r { is_contract = is_contract; code_hash = some code_hash }
      else r)
    ∷ classify_rows a is_contract code_hash rows

-- `addresses::classify`.
unfoldable pub classify : Address → Bool → Hash → Statement
unfolding classify_rows
classify a is_contract code_hash db =
    ok (record db { addresses = classify_rows a is_contract code_hash db.addresses })
