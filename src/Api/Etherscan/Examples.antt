-- ===== src/Api/Etherscan/Examples.antt =====
-- Queries over three stored blocks, one with a page that the shim does not honour.
use indexer_rs.Base.{
  ◌≡◌, ◌↔◌, refl, inl, inr, ◌==◌, string_eq, pos, pos_part, none, some, String, Option, List, [],
  ◌∷◌, map, arith, ok, err,
}
use Prim.Native.String.{◌++◌}
use indexer_rs.Base.Text.{to_lowercase, parse_i64}
use indexer_rs.Base.Text.Print.{to_string}
use indexer_rs.Domain.{Block, Transaction}
use indexer_rs.Api.Blocks.Examples.{three_blocks}
use indexer_rs.Api.Etherscan.{
  EsQuery, text, rows, es_ok, es_err, es_tx, join, or_text, txlist, getblocknobytime,
}
use indexer_rs.Api.Etherscan.Answers.{Found, getblocknobytime-closest}
use indexer_rs.Api.Etherscan.Lists.{Named, txlist_refuses, Newest, asked_size, txlist-Newest}
use indexer_rs.Db.Extended.{Among}
use indexer_rs.Db.Schema.{Db, connection}
use indexer_rs.Sync.BlockWriter.Examples.{tx_at}

abbrev asks : EsQuery
asks = record {
  module_name = some "block";
  action = some "getblocknobytime";
  address = some "0xAB";
  start_block = none;
  end_block = none;
  page = some "2";
  offset = none;
  sort = none;
  timestamp = some "150";
  closest = none;
}

time_read : parse_i64 "150" ≡ some (pos 150)
unfolding parse_i64
time_read = refl

getblocknobytime-closest_example :
    (b : Block) × ((getblocknobytime (ok three_blocks) asks ≡ es_ok (text (to_string b.height)))
      × Found (or_text "before" asks.closest == "after") (pos 150) (pos 100) three_blocks b)
getblocknobytime-closest_example =
    getblocknobytime-closest asks "150" (pos 150) (pos 100) three_blocks refl time_read refl
      (omega arith)

page_two : Named asks "page"
page_two = inr (
    inr (
      refl,
      λ first. elim first [
        | inl (inl empty) ↦ ground (arith, (string_eq.same_iff "2" "").1 empty)
        | inl (inr zero_page) ↦ ground (arith, (string_eq.same_iff "2" "0").1 zero_page)
        | inr one ↦ not_one one
      ],
    ))
  where
    not_one : ◌≡◌ {A = Option String} (some "2") (some "1") → ⊥
    not_one e =
        let same : ◌≡◌ {A = String} "2" "1" = cc in
        ground (arith, (string_eq.same_iff "2" "1").1 same)

txlist_refuses_example :
    (names : List String) × ((n : String) → Among names n ↔ Named asks n)
    × (txlist (err connection) asks ≡ es_err ("param not supported: " ++ join names))
txlist_refuses_example = txlist_refuses (err connection) asks "0xAB" "page" refl page_two

-- Three transactions, and a page of two.
abbrev with_txs : Db
with_txs = record three_blocks {
  transactions =
      tx_at (pos 2) "0xt2"
      ∷ tx_at (pos 1) "0xt1"
      ∷ record (tx_at (pos 3) "0xt3") { from_addr = "0xb2"; to_addr = some "0xa1" }
      ∷ [];
}

abbrev lists : EsQuery
lists = record asks { address = some "0xA1"; page = some "1"; offset = some "2" }

txlist-Newest_example :
    (txs : List Transaction) × (txlist (ok with_txs) lists ≡ es_ok (rows (map es_tx txs)))
    × Newest with_txs (to_lowercase "0xA1") (pos_part (asked_size (some "2"))) txs
txlist-Newest_example = txlist-Newest lists "0xA1" with_txs refl tt tt (inr refl)
