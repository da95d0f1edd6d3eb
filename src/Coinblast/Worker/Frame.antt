-- ===== src/Coinblast/Worker/Frame.antt =====
-- What the statements of a scan leave alone: no trade is lost, and none but the cursor's moves the cursor.
use indexer_rs.Base.{
  ◌≡◌, refl, sym, ◌∙◌, inl, inr, ℤ, ◌∷◌, Bool, true, false, arith, ok, string_eq, int_eq, pair_eq,
  ==_self, Bool-cases, if◌then◌else◌,
}
use indexer_rs.Base.Effects.{Result-cases, ◌>>=◌, ◌>>◌, pure}
use indexer_rs.Domain.{Hash, Wei}
use indexer_rs.Db.Table.{has}
use indexer_rs.Db.Extended.{Extended, Extended-trans, Extended-cons}
use indexer_rs.Db.Schema.{Db, Statement, CbTrade, trade_key}
use indexer_rs.Db.Session.{Session, Sql, execute, execute_counted, transaction}
use indexer_rs.Db.Runs.{Runs-execute, execute-failed, transaction-ok, transaction-rollback}
use indexer_rs.Db.Coinblast.{
  InsertCbToken, insert_token, insert_trade, bumped, bump_trade_aggregate, mark_graduated,
}

-- No trade is lost, a new one is told, and the rows of `_meta` are the same.
pub record Keeps (told : CbTrade → Type 0) (a b : Db) : Type 0 where
  pub meta : b.meta ≡ a.meta
  pub trades :
      (k : Hash × ℤ) → has trade_key k a.cb_trades ≡ true → has trade_key k b.cb_trades ≡ true
  pub adds : Extended trade_key told a.cb_trades b.cb_trades

-- The insertion of a trade, and the statement that only a new trade runs.
abbrev pub counted : CbTrade → Statement → Sql Bool
counted t f = do
  inserted ← execute_counted (insert_trade t)
  if inserted then execute f else pure tt
  pure inserted

module _ (told : CbTrade → Type 0) where
  pub Keeps-refl : (a : Db) → Keeps told a a
  Keeps-refl a = record { meta = refl; trades = λ k h. h; adds = λ k. inl refl }

  pub Keeps-trans : (a b c : Db) → Keeps told a b → Keeps told b c → Keeps told a c
  Keeps-trans a b c f g = record {
    meta = g.meta ∙ f.meta;
    trades = λ k h. g.trades k (f.trades k h);
    adds = Extended-trans trade_key told a.cb_trades b.cb_trades c.cb_trades f.adds g.adds;
  }

  pub Keeps-same : (a b : Db) → b ≡ a → Keeps told a b
  Keeps-same a b e = rw e (Keeps-refl a)

  abbrev pub KeepsBy : Statement → Type 0
  KeepsBy f = (db db' : Db) → f db ≡ ok db' → Keeps told db db'

  pub insert_token-KeepsBy : (t : InsertCbToken) → KeepsBy (insert_token t)
  unfolding insert_token
  insert_token-KeepsBy t db db' e = record {
    meta = ground (arith, e);
    trades = λ k h. ground (arith, e, h);
    adds = let same : db'.cb_trades ≡ db.cb_trades = ground (arith, e) in λ k. rw same (inl refl);
  }

  pub bump-KeepsBy :
      (t : CbTrade) (p : Wei) → KeepsBy (bump_trade_aggregate t.curve_address t.srx_amount p)
  unfolding bump_trade_aggregate bumped
  bump-KeepsBy t p db db' e = record {
    meta = ground (arith, e);
    trades = λ k h. ground (arith, e, h);
    adds = let same : db'.cb_trades ≡ db.cb_trades = ground (arith, e) in λ k. rw same (inl refl);
  }

  pub mark_graduated-KeepsBy : (t : CbTrade) → KeepsBy (mark_graduated t.curve_address)
  unfolding mark_graduated
  mark_graduated-KeepsBy t db db' e = record {
    meta = ground (arith, e);
    trades = λ k h. ground (arith, e, h);
    adds = let same : db'.cb_trades ≡ db.cb_trades = ground (arith, e) in λ k. rw same (inl refl);
  }

  -- One statement outside a transaction.
  pub execute-Keeps : (f : Statement) (s : Session) → KeepsBy f → Keeps told s.db (execute f s).1.db
  execute-Keeps f s keeps = elim (Result-cases (execute f s).0) [
    | inl (u, e) ↦ keeps s.db _ ((Runs-execute f).sound s e)
    | inr (x, e) ↦ Keeps-same s.db _ (execute-failed f s x e)
  ]

  inserted_row :
      (t : CbTrade) (s : Session) (b : Bool)
      → (execute_counted (insert_trade t) s).0 ≡ ok b
      → has trade_key (trade_key t) s.db.cb_trades ≡ false
      → (execute_counted (insert_trade t) s).1.db.cb_trades ≡ t ∷ s.db.cb_trades
  unfolding execute_counted insert_trade
  inserted_row t s b h new = ground (arith, new)

  counted-inserted :
      (t : CbTrade) (s : Session) (b : Bool)
      → told t
      → (execute_counted (insert_trade t) s).0 ≡ ok b
      → let db' = (execute_counted (insert_trade t) s).1.db in
        Keeps told s.db db' × (has trade_key (trade_key t) db'.cb_trades ≡ true)
  unfolding execute_counted insert_trade
  counted-inserted t s b tells h = elim (Bool-cases (has trade_key (trade_key t) s.db.cb_trades)) [
    | inl old ↦ (
      record {
        meta = ground (arith, old);
        trades = λ k x. ground (arith, old);
        adds =
            let same : (execute_counted (insert_trade t) s).1.db.cb_trades ≡ s.db.cb_trades =
              ground (arith, old) in
            λ k. rw same (inl refl);
      },
      ground (arith, old),
    )
    | inr new ↦ (
      record {
        meta = ground (arith, new);
        trades = λ k x. unfold has in ground (arith, new);
        adds =
            let more : (execute_counted (insert_trade t) s).1.db.cb_trades ≡ t ∷ s.db.cb_trades =
              inserted_row t s b h new in
            rw more (Extended-cons trade_key told t s.db.cb_trades new tells);
      },
      unfold has in ground (arith, new, ==_self (trade_key t)),
    )
  ]

  counted-ok :
      (t : CbTrade) (f : Statement) (s : Session) (b : Bool)
      → KeepsBy f
      → told t
      → (counted t f s).0 ≡ ok b
      → let db' = (counted t f s).1.db in
        Keeps told s.db db' × (has trade_key (trade_key t) db'.cb_trades ≡ true)
  counted-ok t f s b keeps tells h = elim (Result-cases (execute_counted (insert_trade t) s).0) [
    | inr (x, e) ↦ absurd (ground (arith, e))
    | inl (true, e) ↦
        let (kept, there) = counted-inserted t s true tells e in
        let s1 = (execute_counted (insert_trade t) s).1 in
        elim (Result-cases (execute f s1).0) [
          | inr (x, g) ↦ absurd (ground (arith, e, g))
          | inl (u, g) ↦
              let more = execute-Keeps f s1 keeps in
              rw (e, g) (Keeps-trans s.db s1.db _ kept more, more.trades (trade_key t) there)
        ]
    | inl (false, e) ↦ rw e (counted-inserted t s false tells e)
  ]

  -- In a transaction the trade is stored and nothing is lost, or nothing has changed.
  pub counted-transaction :
      (t : CbTrade) (f : Statement) (s : Session)
      → KeepsBy f
      → told t
      → let r = transaction (counted t f) s in
        Keeps told s.db r.1.db
        × ((b : Bool) → r.0 ≡ ok b → has trade_key (trade_key t) r.1.db.cb_trades ≡ true)
  counted-transaction t f s keeps tells = elim (Result-cases (transaction (counted t f) s).0) [
    | inl (b, e) ↦
        let (s', same, done, after) = transaction-ok (counted t f) s b e in
        let (kept, there) = counted-ok t f s' b keeps tells done in
        (rw (after, sym same) kept, λ b' e'. rw after there)
    | inr (x, e) ↦ (
      Keeps-same s.db _ (transaction-rollback (counted t f) s x e),
      λ b' e'. absurd (ground (arith, e)),
    )
  ]
