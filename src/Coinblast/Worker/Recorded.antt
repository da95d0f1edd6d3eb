-- ===== src/Coinblast/Worker/Recorded.antt =====
-- A chunk that succeeds has recorded the trades of every curve that was known, and no step forgets one.
use indexer_rs.Base.{
  ◌≡◌, refl, ap, inl, inr, ℤ, String, Bool, true, List, arith, Result, ok, err, string_eq, int_eq,
  nat_eq, list_eq, pair_eq, Bool-cases, if◌then◌else◌,
}
use indexer_rs.Base.Effects.{Result-cases, ◌>>=◌, ◌>>◌, pure, lift}
use indexer_rs.Domain.{Hash}
use indexer_rs.Db.Table.{has}
use indexer_rs.Db.Schema.{Db, Statement, CbTrade, buy, sell, graduated, trade_key}
use indexer_rs.Db.Session.{Session, transaction}
use indexer_rs.Db.Coinblast.{bump_trade_aggregate, mark_graduated}
use indexer_rs.Sync.Convert.{RpcLog}
use indexer_rs.Coinblast.Handlers.{
  undecodable, Handled, Handler, on_db, db_result, trade_of, trade_sql, write_trade, graduation_sql,
  price_per_token, apply_buy, apply_sell, apply_graduated,
}
use indexer_rs.Coinblast.Worker.{
  Abi, Worker, on_session, contains, insert_set, has_topic, is_curve_event, dispatch,
}
use indexer_rs.Coinblast.Worker.Frame.{
  Keeps, Keeps-refl, Keeps-trans, KeepsBy, bump-KeepsBy, mark_graduated-KeepsBy, counted,
  counted-transaction,
}

-- A graduation is stored without a fee.
abbrev pub free_of_charge : Handled CbTrade → Handled CbTrade
free_of_charge (ok t) = ok (record t { fee = 0 })
free_of_charge (err e) = err e

-- The trade that a log tells, by its topic.
abbrev pub topic_trade : Abi → RpcLog → Handled CbTrade
topic_trade abi l =
    let events = abi.events in
    if has_topic l abi.topics.buy
    then trade_of events.hex buy events.buy_event l
    else if has_topic l abi.topics.sell
    then trade_of events.hex sell events.sell_event l
    else if has_topic l abi.topics.graduated
    then free_of_charge (trade_of events.hex graduated events.graduated_event l)
    else err undecodable

-- A trade that some log tells.
abbrev pub Told : Abi → CbTrade → Type 0
Told abi s = (l : RpcLog) × (topic_trade abi l ≡ ok s)

-- The key of the log's trade is in the tables.
abbrev pub Recorded : Abi → Db → RpcLog → Type 0
Recorded abi db l =
    (t : CbTrade) × (topic_trade abi l ≡ ok t) × (has trade_key (trade_key t) db.cb_trades ≡ true)

pub Recorded-Keeps :
    (abi : Abi) (a b : Db) (l : RpcLog) → Keeps (Told abi) a b → Recorded abi a l → Recorded abi b l
Recorded-Keeps abi a b l keeps (t, tells, there) = (t, tells, keeps.trades (trade_key t) there)

-- No trade is lost, the cursor stays, and a curve that was known is known.
pub record Follows (abi : Abi) (a b : Worker) : Type 0 where
  pub keeps : Keeps (Told abi) a.db b.db
  pub knows : (e : String) → contains e a.known_curves ≡ true → contains e b.known_curves ≡ true

pub Follows-refl : (abi : Abi) (a : Worker) → Follows abi a a
Follows-refl abi a = record { keeps = Keeps-refl (Told abi) a.db; knows = λ e h. h }

pub Follows-trans :
    (abi : Abi) (a b c : Worker) → Follows abi a b → Follows abi b c → Follows abi a c
Follows-trans abi a b c f g = record {
  keeps = Keeps-trans (Told abi) a.db b.db c.db f.keeps g.keeps;
  knows = λ e h. g.knows e (f.knows e h);
}

pub on_session-Follows :
    (abi : Abi) {A : Type 0} (m : Handler A) (w : Worker)
    → Keeps (Told abi) w.db (m w.session).1.db
    → Follows abi w (on_session m w).1
unfolding on_session
on_session-Follows abi m w keeps = record { keeps = keeps; knows = λ e h. h }

pub contains-insert_set :
    (e x : String) (xs : List String) → contains e xs ≡ true → contains e (insert_set x xs) ≡ true
contains-insert_set e x xs h = ground (arith, h)

-- A handler that writes a trade.
trade_handler :
    (abi : Abi) (r : Handled CbTrade) (g : CbTrade → CbTrade) (f : CbTrade → Statement)
    (s : Session)
    → ((t : CbTrade) → KeepsBy (Told abi) (f t))
    → ((t : CbTrade) → r ≡ ok t → Told abi (g t))
    → let o = (lift r >>= λ t. on_db (transaction (counted (g t) (f t)))) s in
      Keeps (Told abi) s.db o.1.db
      × ((b : Bool)
          → o.0 ≡ ok b
          → (t : CbTrade) × (r ≡ ok t) × (has trade_key (trade_key (g t)) o.1.db.cb_trades ≡ true))
unfolding on_db
trade_handler abi (err x) g f s keeps tells =
    (Keeps-refl (Told abi) s.db, λ b e. absurd (ground arith))
trade_handler abi (ok t) g f s keeps tells =
    let (kept, there) = counted-transaction (Told abi) (g t) (f t) s (keeps t) (tells t refl) in
    (kept, λ b e. (t, refl, there b (db_ok (transaction (counted (g t) (f t)) s).0 b e)))
  where
    db_ok : (r : Result _ Bool) (b : Bool) → db_result r ≡ ok b → r ≡ ok b
    db_ok (ok a) b e = ground arith
    db_ok (err x) b e = absurd (ground arith)

-- A handler as a step of the scan.
run_handler :
    (abi : Abi) (h : Handler Bool) (w : Worker) (Says : CbTrade → Type 0)
    (key_of : CbTrade → Hash × ℤ)
    → (let o = h w.session in
        Keeps (Told abi) w.db o.1.db
        × ((b : Bool)
            → o.0 ≡ ok b
            → (t : CbTrade) × Says t × (has trade_key (key_of t) o.1.db.cb_trades ≡ true)))
    → let r = (on_session h >> pure tt) w in
      Follows abi w r.1
      × (r.0 ≡ ok tt → (t : CbTrade) × Says t × (has trade_key (key_of t) r.1.db.cb_trades ≡ true))
unfolding on_session
run_handler abi h w Says key_of (kept, told) = elim (Result-cases (h w.session).0) [
  | inl (b, e) ↦ rw e (record { keeps = kept; knows = λ x k. k }, λ fin. told b e)
  | inr (x, e) ↦ rw e (record { keeps = kept; knows = λ y k. k }, λ fin. absurd (ground arith))
]

module _ (abi : Abi) (l : RpcLog) (w : Worker) where
  buy_step :
      ((t : CbTrade)
        → trade_of abi.events.hex buy abi.events.buy_event l ≡ ok t
        → topic_trade abi l ≡ ok t)
      → let r = (on_session (apply_buy abi.events l) >> pure tt) w in
        Follows abi w r.1
        × (r.0 ≡ ok tt
            → (t : CbTrade) × (trade_of abi.events.hex buy abi.events.buy_event l ≡ ok t)
              × (has trade_key (trade_key t) r.1.db.cb_trades ≡ true))
  buy_step tells =
      run_handler abi (apply_buy abi.events l) w
        (λ t. trade_of abi.events.hex buy abi.events.buy_event l ≡ ok t) trade_key
        (unfold apply_buy write_trade trade_sql in
          trade_handler abi (trade_of abi.events.hex buy abi.events.buy_event l) (λ t. t)
            (λ (t : CbTrade).
              bump_trade_aggregate t.curve_address t.srx_amount
                (price_per_token t.srx_amount t.token_amount))
            w.session (λ t. bump-KeepsBy (Told abi) t _) (λ t e. (l, tells t e)))

  sell_step :
      ((t : CbTrade)
        → trade_of abi.events.hex sell abi.events.sell_event l ≡ ok t
        → topic_trade abi l ≡ ok t)
      → let r = (on_session (apply_sell abi.events l) >> pure tt) w in
        Follows abi w r.1
        × (r.0 ≡ ok tt
            → (t : CbTrade) × (trade_of abi.events.hex sell abi.events.sell_event l ≡ ok t)
              × (has trade_key (trade_key t) r.1.db.cb_trades ≡ true))
  sell_step tells =
      run_handler abi (apply_sell abi.events l) w
        (λ t. trade_of abi.events.hex sell abi.events.sell_event l ≡ ok t) trade_key
        (unfold apply_sell write_trade trade_sql in
          trade_handler abi (trade_of abi.events.hex sell abi.events.sell_event l) (λ t. t)
            (λ (t : CbTrade).
              bump_trade_aggregate t.curve_address t.srx_amount
                (price_per_token t.srx_amount t.token_amount))
            w.session (λ t. bump-KeepsBy (Told abi) t _) (λ t e. (l, tells t e)))

  graduated_step :
      ((t : CbTrade)
        → trade_of abi.events.hex graduated abi.events.graduated_event l ≡ ok t
        → topic_trade abi l ≡ ok (record t { fee = 0 }))
      → let r = (on_session (apply_graduated abi.events l) >> pure tt) w in
        Follows abi w r.1
        × (r.0 ≡ ok tt
            → (t : CbTrade) × (trade_of abi.events.hex graduated abi.events.graduated_event l
                ≡ ok t)
              × (has trade_key (trade_key t) r.1.db.cb_trades ≡ true))
  graduated_step tells =
      run_handler abi (apply_graduated abi.events l) w
        (λ t. trade_of abi.events.hex graduated abi.events.graduated_event l ≡ ok t) trade_key
        (unfold apply_graduated graduation_sql in
          trade_handler abi (trade_of abi.events.hex graduated abi.events.graduated_event l)
            (λ t. record t { fee = 0 }) (λ (t : CbTrade). mark_graduated t.curve_address) w.session
            (λ t. mark_graduated-KeepsBy (Told abi) t) (λ t e. (l, tells t e)))

  pub dispatch-Recorded :
      Follows abi w (dispatch abi l w).1
      × (is_curve_event abi l ≡ true
          → (dispatch abi l w).0 ≡ ok tt
          → Recorded abi (dispatch abi l w).1.db l)
  unfolding dispatch
  dispatch-Recorded = elim (Bool-cases (has_topic l abi.topics.buy)) [
    | inl is ↦ let s = buy_step (λ t e. rw is e) in rw is (s.0, λ event. s.1)
    | inr not_buy ↦ elim (Bool-cases (has_topic l abi.topics.sell)) [
      | inl is ↦
          let s = sell_step (λ t e. rw (not_buy, is) e) in rw (not_buy, is) (s.0, λ event. s.1)
      | inr not_sell ↦ elim (Bool-cases (has_topic l abi.topics.graduated)) [
        | inl is ↦
            let tells : (t : CbTrade)
                → trade_of abi.events.hex graduated abi.events.graduated_event l ≡ ok t
                → topic_trade abi l ≡ ok (record t { fee = 0 }) =
              λ t e. rw (not_buy, not_sell, is, e) refl in
            let s = graduated_step tells in
            rw (not_buy, not_sell, is)
              (
                s.0,
                λ event fin.
                    let (t, told, there) = s.1 fin in
                    (record t { fee = 0 }, ap free_of_charge told, there),
              )
        | inr other ↦
            rw (not_buy, not_sell, other) (Follows-refl abi w, λ event. absurd (ground arith))
      ]
    ]
  ]
