-- ===== src/Api/Blocks/Examples.antt =====
-- Three stored blocks in pages of two, and the theorems at them.
use indexer_rs.Base.{◌≡◌, refl, ◌<ℤ◌, ◌-ℤ◌, pos, true, none, some, [], ◌∷◌, arith}
use indexer_rs.Domain.{BlockHeight, Block}
use indexer_rs.Db.Schema.{Db, empty_db}
use indexer_rs.Api.Listing.{among, order_desc, insert_desc}
use indexer_rs.Api.Blocks.{height_of, list_before, cursor_below, load_page}
use indexer_rs.Api.Blocks.Paging.{below_page, walk_pages, walk_pages_complete}

abbrev pub block_at : BlockHeight → Block
block_at h = record {
  height = h;
  hash = "0xb";
  parent_hash = "0xa";
  timestamp = pos 100;
  validator = "0x1";
  gas_used = pos 0;
  gas_limit = pos 0;
  base_fee = none;
  tx_count = pos 0;
  state_root = none;
  round = pos 0;
  justification_signers = [];
}

abbrev pub three_blocks : Db
three_blocks = record empty_db {
  blocks = block_at (pos 4) ∷ block_at (pos 9) ∷ block_at (pos 2) ∷ [];
}

first_page :
    load_page none 2 three_blocks
    ≡ record { blocks = block_at (pos 9) ∷ block_at (pos 4) ∷ []; next_cursor = some (pos 3) }
unfolding load_page list_before order_desc insert_desc cursor_below ◌-ℤ◌
first_page = refl

first_cursor : (load_page none 2 three_blocks).next_cursor ≡ some (pos 3)
unfolding load_page list_before order_desc insert_desc cursor_below ◌-ℤ◌
first_cursor = refl

last_page :
    load_page (some (pos 3)) 2 three_blocks
    ≡ record { blocks = block_at (pos 2) ∷ []; next_cursor = some (pos 1) }
unfolding load_page list_before order_desc insert_desc cursor_below ◌-ℤ◌
last_page = refl

four_is_past : below_page (load_page none 2 three_blocks).next_cursor <ℤ pos 4
four_is_past = rw first_cursor (omega arith)

walk_pages_complete_example : among height_of (pos 2) (walk_pages 10 (pos 9) 2 three_blocks) ≡ true
walk_pages_complete_example =
    walk_pages_complete 10 (pos 9) 2 three_blocks (pos 2) (omega arith) (omega arith) (omega arith)
      (omega arith) refl
