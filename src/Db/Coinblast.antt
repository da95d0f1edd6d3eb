-- ===== src/Db/Coinblast.antt =====
-- crates/db/src/cb_tokens.rs and cb_trades.rs: the curves with their totals, and the trades.
use indexer_rs.Base.{
  ◌+◌, ℤ, String, Bool, true, false, List, [], ◌∷◌, ok, err, ◌==◌, string_eq, int_eq, pair_eq,
  if◌then◌else◌,
}
use indexer_rs.Domain.{Address, Hash, Wei}
use indexer_rs.Db.Table.{has}
use indexer_rs.Db.Schema.{Db, Statement, CbToken, CbTrade, trade_key, violates_unique}

pub record InsertCbToken : Type 0 where
  pub curve_address : Address
  pub token_address : Address
  pub owner_address : Address
  pub name : String
  pub symbol : String
  pub curve_supply : Wei
  pub graduation_threshold : Wei
  pub created_block : ℤ
  pub created_tx_hash : Hash

-- `cb_tokens::insert`: the totals begin at 0; `token_address` is UNIQUE and has no conflict clause.
unfoldable pub insert_token : InsertCbToken → Statement
insert_token t db =
    if has (λ (r : CbToken). r.curve_address) t.curve_address db.cb_tokens
    then ok db
    else if has (λ (r : CbToken). r.token_address) t.token_address db.cb_tokens
    then err violates_unique
    else ok (record db {
      cb_tokens =
          record {
            curve_address = t.curve_address;
            token_address = t.token_address;
            owner_address = t.owner_address;
            name = t.name;
            symbol = t.symbol;
            curve_supply = t.curve_supply;
            graduation_threshold = t.graduation_threshold;
            is_graduated = false;
            created_block = t.created_block;
            created_tx_hash = t.created_tx_hash;
            total_volume_srx = 0;
            trade_count = 0;
            last_price_srx = 0;
          }
          ∷ db.cb_tokens;
    })

-- UPDATE cb_tokens … WHERE curve_address = curve.
unfoldable pub update_token : Address → (CbToken → CbToken) → List CbToken → List CbToken
update_token curve f [] = []
update_token curve f (r ∷ rows) =
    (if r.curve_address == curve then f r else r) ∷ update_token curve f rows

-- One more trade in a curve's totals.
unfoldable pub bump_row : Wei → Wei → CbToken → CbToken
bump_row srx_amount last_price r = record r {
  total_volume_srx = r.total_volume_srx + srx_amount;
  trade_count = r.trade_count + 1;
  last_price_srx = last_price;
}

unfoldable pub bumped : Address → Wei → Wei → Db → Db
unfolding update_token bump_row
bumped curve srx_amount last_price db = record db {
  cb_tokens = update_token curve (bump_row srx_amount last_price) db.cb_tokens;
}

-- `cb_tokens::bump_trade_aggregate`.
unfoldable pub bump_trade_aggregate : Address → Wei → Wei → Statement
unfolding bumped
bump_trade_aggregate curve srx_amount last_price db = ok (bumped curve srx_amount last_price db)

-- `cb_tokens::mark_graduated`.
unfoldable pub mark_graduated : Address → Statement
unfolding update_token
mark_graduated curve db = ok (record db {
  cb_tokens = update_token curve (λ r. record r { is_graduated = true }) db.cb_tokens;
})

-- `cb_trades::insert`: whether the trade is new.
unfoldable pub insert_trade : CbTrade → Db → Bool × Db
insert_trade t db =
    if has trade_key (trade_key t) db.cb_trades
    then (false, db)
    else (true, record db { cb_trades = t ∷ db.cb_trades })
