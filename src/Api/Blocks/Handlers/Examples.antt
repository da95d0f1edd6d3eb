-- ===== src/Api/Blocks/Handlers/Examples.antt =====
-- A client that follows the cursors over three stored blocks with the first page in the cache, and two transactions on the
-- wire.
use indexer_rs.Base.{
  ◌≡◌, refl, sym, ◌∙◌, inl, inr, pos, pos_part, none, some, String, arith, ok, ◌==◌, string_eq,
  Bool-cases, if◌then◌else◌,
}
use indexer_rs.Base.Text.Print.{to_string, print_ℕ, emit}
use indexer_rs.Domain.{Transaction}
use indexer_rs.Domain.Kinds.{evm}
use indexer_rs.Cache.Client.{Exchange, cache_get, guarded}
use indexer_rs.Api.Serialise.Faithful.{FitsTx, wire_tx-inj}
use indexer_rs.Api.Blocks.Paging.{walk_pages}
use indexer_rs.Api.Blocks.Examples.{three_blocks}
use indexer_rs.Api.Blocks.Handlers.{PageCache, WireList, wire_list, list_key}
use indexer_rs.Api.Blocks.{load_page}
use indexer_rs.Cache.Breaker.{new_breaker, is_open}
use indexer_rs.Api.Serialise.Shows.{ShowsAll}
use indexer_rs.Api.Blocks.Handlers.Follow.{Honest, asked_limit, follow, follow-walk_pages}

abbrev first_page : WireList
first_page = wire_list (load_page (some (pos 9)) 2 three_blocks)

-- Redis has the first page, and nothing else.
abbrev exchange : String → Exchange
exchange key = record {
  read_at = 0;
  read_done = 0;
  read_reply = if key == "blocks:list:2:9" then ok (some "page") else ok none;
  write_at = 0;
  write_done = 0;
  write_reply = ok tt;
}

abbrev cache : PageCache
cache = record {
  decode = λ s. ok first_page;
  encode = λ w. ok "page";
  breaker = some (new_breaker 5 1000);
  exchange = exchange;
}

page_key : list_key (pos 2) (some (pos 9)) ≡ "blocks:list:2:9"
unfolding list_key to_string print_ℕ emit
page_key = refl

cache-Honest : Honest cache three_blocks
unfolding cache_get guarded is_open
cache-Honest key b hit used found =
    let closed : b.open_until ≡ none = ground (arith, used) in
    elim (Bool-cases (key == "blocks:list:2:9")) [
      | inl is ↦ (
        pos 2,
        some (pos 9),
        omega arith,
        omega arith,
        page_key ∙ sym ((string_eq.same_iff key "blocks:list:2:9").0 is),
        ground (arith, found, closed, is),
      )
      | inr other ↦ absurd (ground (arith, found, closed, other))
    ]

follow-walk_pages_example :
    ShowsAll
      (follow 3 (λ k. cache) three_blocks (some "2") (to_string (pos 9)))
      (walk_pages 3 (pos 9) (pos_part (asked_limit (some "2"))) three_blocks)
follow-walk_pages_example =
    follow-walk_pages 3 (λ k. cache) three_blocks (some "2") (pos 9) (λ k. cache-Honest)
      (omega arith)

abbrev sample : Transaction
sample = record {
  hash = "0xaa";
  block_height = pos 9;
  tx_index = pos 0;
  from_addr = "0x1";
  to_addr = some "0x2";
  value = 5;
  gas_limit = pos 21000;
  gas_used = none;
  gas_price = none;
  fee = 1;
  nonce = pos 7;
  input = none;
  status = pos 1;
  contract_address = none;
  tx_type = evm;
}

sample-FitsTx : FitsTx sample
sample-FitsTx = record {
  block_height = omega arith;
  gas_limit = omega arith;
  gas_used = tt;
  nonce = omega arith;
}

wire_tx-inj_example : sample ≡ sample
wire_tx-inj_example = wire_tx-inj sample sample sample-FitsTx sample-FitsTx refl
