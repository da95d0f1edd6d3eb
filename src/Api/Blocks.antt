-- ===== src/Api/Blocks.antt =====
-- crates/api/src/routes/blocks.rs: the page of blocks that the handler `list` loads, and `list_before` of
-- crates/db/src/blocks.rs, its query. The limit is at least 1 by `clamp_limit`; a cursor is the height that
-- its decimal text stands for, and a row is the block that it prints.
pub mod Paging
pub mod Handlers
pub mod Examples
use indexer_rs.Base.{
  take, ℕ, ℤ, pos, ◌-ℤ◌, leb_ℤ, ltb_ℤ, Bool, true, Option, none, some, List, keep, if◌then◌else◌,
}
use indexer_rs.Domain.{BlockHeight, Block}
use indexer_rs.Db.Schema.{Db}
use indexer_rs.Api.Listing.{last, order_desc}

-- WHERE height <= $1, and no condition without `before`.
abbrev pub at_most : Option BlockHeight → BlockHeight → Bool
at_most none h = true
at_most (some b) h = leb_ℤ h b

abbrev pub height_of : Block → ℤ
height_of b = b.height

unfoldable pub list_before : Option BlockHeight → ℕ → Db → List Block
list_before before limit db =
    take limit (order_desc height_of (keep (λ (b : Block). at_most before b.height) db.blocks))

-- The rows of a page and the cursor of the next one.
pub record ListResponse : Type 0 where
  pub blocks : List Block
  pub next_cursor : Option BlockHeight

-- The lowest height of the page less 1; none at the block 0.
unfoldable pub cursor_below : Option Block → Option BlockHeight
cursor_below none = none
cursor_below (some b) = if ltb_ℤ (pos 0) b.height then some (b.height -ℤ pos 1) else none

unfoldable pub load_page : Option BlockHeight → ℕ → Db → ListResponse
load_page before limit db =
    let rows = list_before before limit db in
    record { blocks = rows; next_cursor = cursor_below (last rows) }
