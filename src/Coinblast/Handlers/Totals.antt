-- ===== src/Coinblast/Handlers/Totals.antt =====
-- The totals of a curve are those of its trades.
use mathlib.Core.Path.{subst}
use indexer_rs.Base.{
  ◌≡◌, sym, ◌∙◌, inl, inr, ℕ, ◌+◌, Bool, true, false, List, [], ◌∷◌, arith, All, string_eq, int_eq,
  pair_eq, ◌==◌, ==_sym, if◌then◌else◌, Bool-cases,
}
use indexer_rs.Base.Effects.{Result-cases}
use indexer_rs.Domain.{Address, Wei}
use indexer_rs.Db.Table.{has}
use indexer_rs.Db.Schema.{Db, CbToken, CbTrade, TradeKind, buy, sell, graduated, trade_key}
use indexer_rs.Db.Session.{Session}
use indexer_rs.Db.Runs.{transaction-rollback}
use indexer_rs.Db.Coinblast.{update_token, bump_row, bumped}
use indexer_rs.Coinblast.Handlers.{trade_sql, write_trade}
use indexer_rs.Coinblast.Handlers.Trades.{trade_rows, write_trade-rows}

abbrev pub counts : TradeKind → Bool
counts buy = true
counts sell = true
counts graduated = false

-- How many buys and sells the curve has, and their SRX.
abbrev pub trade_total : Address → List CbTrade → ℕ × Wei
trade_total curve [] = (0, 0)
trade_total curve (t ∷ trades) =
    let rest = trade_total curve trades in
    if t.curve_address == curve
    then (if counts t.kind then (rest.0 + 1, rest.1 + t.srx_amount) else rest)
    else rest

abbrev pub Totalled : List CbTrade → CbToken → Type 0
Totalled trades r =
    (r.trade_count ≡ (trade_total r.curve_address trades).0)
    × (r.total_volume_srx ≡ (trade_total r.curve_address trades).1)

-- Every curve's count and volume are those of its buys and sells.
abbrev pub TotalsHold : Db → Type 0
TotalsHold db = All (Totalled db.cb_trades) db.cb_tokens

row-hit :
    (t : CbTrade) (last_price : Wei) (trades : List CbTrade) (r : CbToken)
    → counts t.kind ≡ true
    → (t.curve_address == r.curve_address) ≡ true
    → Totalled trades r
    → Totalled (t ∷ trades) (bump_row t.srx_amount last_price r)
unfolding bump_row
row-hit t last_price trades r k hit (count, volume) =
    (rw (hit, k) (omega (arith, count)), rw (hit, k) (omega (arith, volume)))

row-miss :
    (t : CbTrade) (trades : List CbTrade) (r : CbToken)
    → (t.curve_address == r.curve_address) ≡ false
    → Totalled trades r
    → Totalled (t ∷ trades) r
row-miss t trades r miss (count, volume) = (rw miss count, rw miss volume)

update_token-Totalled :
    (t : CbTrade) (last_price : Wei) (trades : List CbTrade) (rows : List CbToken)
    → counts t.kind ≡ true
    → All (Totalled trades) rows
    → All
        (Totalled (t ∷ trades))
        (update_token t.curve_address (bump_row t.srx_amount last_price) rows)
unfolding update_token
update_token-Totalled t last_price trades [] k h = tt
update_token-Totalled t last_price trades (r ∷ rows) k h =
    let turn = ==_sym t.curve_address r.curve_address in
    let row = λ (c : Bool). if c then bump_row t.srx_amount last_price r else r in
    (
      elim (Bool-cases (r.curve_address == t.curve_address)) [
        | inl hit ↦
            subst (λ c. Totalled (t ∷ trades) (row c)) (sym hit)
              (row-hit t last_price trades r k (turn ∙ hit) h.0)
        | inr miss ↦
            subst (λ c. Totalled (t ∷ trades) (row c)) (sym miss)
              (row-miss t trades r (turn ∙ miss) h.0)
      ],
      update_token-Totalled t last_price trades rows k h.1,
    )

trade_rows-TotalsHold :
    (t : CbTrade) (last_price : Wei) (db : Db)
    → counts t.kind ≡ true
    → TotalsHold db
    → TotalsHold (trade_rows t last_price db).1
unfolding trade_rows bumped
trade_rows-TotalsHold t last_price db k h =
    elim (Bool-cases (has trade_key (trade_key t) db.cb_trades)) [
      | inl old ↦ rw old h
      | inr new ↦ rw new (update_token-Totalled t last_price db.cb_trades db.cb_tokens k h)
    ]

-- Whatever fails, and however often a buy or a sell is handled, every curve's count and volume stay those of
-- its buys and sells.
pub write_trade-TotalsHold :
    (t : CbTrade) (last_price : Wei) (s : Session)
    → counts t.kind ≡ true
    → TotalsHold s.db
    → TotalsHold (write_trade t last_price s).1.db
write_trade-TotalsHold t last_price s k h = elim (Result-cases (write_trade t last_price s).0) [
  | inl (b, done) ↦
      subst (λ (r : Bool × Db). TotalsHold r.1) (write_trade-rows t last_price s b done)
        (trade_rows-TotalsHold t last_price s.db k h)
  | inr (e, fails) ↦
      let same : (write_trade t last_price s).1.db ≡ s.db =
        unfold write_trade in transaction-rollback (trade_sql t last_price) s e fails in
      rw same h
]
