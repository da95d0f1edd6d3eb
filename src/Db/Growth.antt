-- ===== src/Db/Growth.antt =====
-- No insertion loses a row: what the tables hold before a statement they hold after it.
use indexer_rs.Base.{
  ◌≡◌, ℤ, true, false, inl, inr, List, [], ◌∷◌, arith, All, ok, string_eq, int_eq, pair_eq, ◌==◌,
  ==_self, le-max_ℤ_left, le-max_ℤ_right, ◌≤ℤ◌, if◌then◌else◌, Bool-cases,
}
use indexer_rs.Base.Effects.{Result-cases}
use indexer_rs.Domain.{BlockHeight, LogIndex, Hash, Address, Block, Transaction, Log, TokenTransfer}
use indexer_rs.Db.Table.{has, insert_new, has-insert_new_mono}
use indexer_rs.Db.Schema.{Db, Statement, AddressRow, log_key, transfer_key}
use indexer_rs.Db.Chain.{
  has_block, has_tx, insert_block, insert_tx, insert_log, insert_transfer, insert_rows,
}
use indexer_rs.Db.Addresses.{upsert_address, upsert_all, meets_twice, upsert_batch}
use indexer_rs.Db.Meta.{write_cursor_row}
use indexer_rs.Db.Integrity.Rows.{
  insert_block-cases, insert_tx-cases, insert_log-cases, write_cursor-SameChain,
}
use indexer_rs.Db.Runs.{◌then_do◌}

-- The registry has the address, last seen no earlier than the sighting.
abbrev pub Covered : Address × ℤ → List AddressRow → Type 0
Covered s [] = ⊥
Covered s (r ∷ rows) =
    let rest = Covered s rows in if r.address == s.0 then s.1 ≤ℤ r.last_seen_block else rest

pub record Grows (a b : Db) : Type 0 where
  pub blocks : (k : BlockHeight) → has_block k a ≡ true → has_block k b ≡ true
  pub txs : (k : Hash) → has_tx k a ≡ true → has_tx k b ≡ true
  pub logs :
      (k : BlockHeight × LogIndex) → has log_key k a.logs ≡ true → has log_key k b.logs ≡ true
  pub transfers :
      (k : Hash × LogIndex)
      → has transfer_key k a.token_transfers ≡ true
      → has transfer_key k b.token_transfers ≡ true
  pub seen : (s : Address × ℤ) → Covered s a.addresses → Covered s b.addresses

pub Grows-refl : (a : Db) → Grows a a
Grows-refl a = record {
  blocks = λ k h. h;
  txs = λ k h. h;
  logs = λ k h. h;
  transfers = λ k h. h;
  seen = λ s h. h;
}

pub Grows-trans : (a b c : Db) → Grows a b → Grows b c → Grows a c
Grows-trans a b c g h = record {
  blocks = λ k x. h.blocks k (g.blocks k x);
  txs = λ k x. h.txs k (g.txs k x);
  logs = λ k x. h.logs k (g.logs k x);
  transfers = λ k x. h.transfers k (g.transfers k x);
  seen = λ s x. h.seen s (g.seen s x);
}

abbrev pub GrowsBy : Statement → Type 0
GrowsBy f = (db db' : Db) → f db ≡ ok db' → Grows db db'

pub insert_block-GrowsBy : (b : Block) → GrowsBy (insert_block b)
insert_block-GrowsBy b db db' e = elim (insert_block-cases b db db' e) [
  | inl (_, same) ↦ rw same (Grows-refl db)
  | inr (_, more) ↦ rw more (record {
    blocks = λ k h. unfold has in ground arith;
    txs = λ k h. h;
    logs = λ k h. h;
    transfers = λ k h. h;
    seen = λ s h. h;
  })
]

pub insert_tx-GrowsBy : (t : Transaction) → GrowsBy (insert_tx t)
insert_tx-GrowsBy t db db' e = elim (insert_tx-cases t db db' e) [
  | inl (_, same) ↦ rw same (Grows-refl db)
  | inr (_, _, more) ↦ rw more (record {
    txs = λ k h. unfold has in ground arith;
    blocks = λ k h. h;
    logs = λ k h. h;
    transfers = λ k h. h;
    seen = λ s h. h;
  })
]

pub insert_log-GrowsBy : (l : Log) → GrowsBy (insert_log l)
insert_log-GrowsBy l db db' e = elim (insert_log-cases l db db' e) [
  | inl (_, same) ↦ rw same (Grows-refl db)
  | inr (_, _, _, more) ↦ rw more (record {
    logs = λ k h. unfold has in ground arith;
    blocks = λ k h. h;
    txs = λ k h. h;
    transfers = λ k h. h;
    seen = λ s h. h;
  })
]

pub insert_transfer-GrowsBy : (t : TokenTransfer) → GrowsBy (insert_transfer t)
unfolding insert_transfer
insert_transfer-GrowsBy t db db' e =
    let more : db' ≡ record db { token_transfers = insert_new transfer_key t db.token_transfers } =
      cc in
    rw more (record {
      transfers = λ k h. has-insert_new_mono transfer_key k t db.token_transfers h;
      blocks = λ k h. h;
      txs = λ k h. h;
      logs = λ k h. h;
      seen = λ s h. h;
    })

upsert_address-Covered :
    (p s : Address × ℤ) (rows : List AddressRow)
    → Covered s rows
    → Covered s (upsert_address p rows)
unfolding upsert_address
upsert_address-Covered p s [] c = absurd c
upsert_address-Covered (a, k) (b, j) (r ∷ rows) c = elim (Bool-cases (r.address == a)) [
  | inl hit ↦ rw hit (elim (Bool-cases (r.address == b)) [
    | inl same ↦ rw same (le-max_ℤ_left j r.last_seen_block k (rw same at c))
    | inr other ↦ rw other (rw other at c)
  ])
  | inr miss ↦ rw miss (elim (Bool-cases (r.address == b)) [
    | inl same ↦ rw same (rw same at c)
    | inr other ↦ rw other (upsert_address-Covered (a, k) (b, j) rows (rw other at c))
  ])
]

upsert_address-Covered_self :
    (p : Address × ℤ) (rows : List AddressRow) → Covered p (upsert_address p rows)
unfolding upsert_address
upsert_address-Covered_self (a, k) [] = rw (==_self a) (omega arith)
upsert_address-Covered_self (a, k) (r ∷ rows) = elim (Bool-cases (r.address == a)) [
  | inl hit ↦ rw hit (rw hit (le-max_ℤ_right r.last_seen_block k))
  | inr miss ↦ rw miss (rw miss (upsert_address-Covered_self (a, k) rows))
]

pub upsert_all-Covered :
    (seen : List (Address × ℤ)) (s : Address × ℤ) (rows : List AddressRow)
    → Covered s rows
    → Covered s (upsert_all seen rows)
unfolding upsert_all
upsert_all-Covered [] s rows c = c
upsert_all-Covered (p ∷ seen) s rows c =
    upsert_all-Covered seen s (upsert_address p rows) (upsert_address-Covered p s rows c)

pub upsert_all-Covered_self :
    (seen : List (Address × ℤ)) (rows : List AddressRow)
    → All (λ s. Covered s (upsert_all seen rows)) seen
unfolding upsert_all
upsert_all-Covered_self [] rows = tt
upsert_all-Covered_self (p ∷ seen) rows = (
  upsert_all-Covered seen p (upsert_address p rows) (upsert_address-Covered_self p rows),
  upsert_all-Covered_self seen (upsert_address p rows),
)

pub upsert_batch-eq :
    (seen : List (Address × ℤ)) (db db' : Db)
    → upsert_batch seen db ≡ ok db'
    → (meets_twice seen ≡ false) × (db' ≡ record db { addresses = upsert_all seen db.addresses })
unfolding upsert_batch
upsert_batch-eq seen db db' e = ground arith

pub upsert_batch-GrowsBy : (seen : List (Address × ℤ)) → GrowsBy (upsert_batch seen)
upsert_batch-GrowsBy seen db db' e =
    let (_, more) = upsert_batch-eq seen db db' e in
    rw more (record {
      seen = λ s h. upsert_all-Covered seen s db.addresses h;
      blocks = λ k h. h;
      txs = λ k h. h;
      logs = λ k h. h;
      transfers = λ k h. h;
    })

pub write_cursor-GrowsBy : (h : BlockHeight) (ts : ℤ) → GrowsBy (write_cursor_row h ts)
write_cursor-GrowsBy h ts db db' e = rw (write_cursor-SameChain h ts db db' e) (record {
  blocks = λ k h. h;
  txs = λ k h. h;
  logs = λ k h. h;
  transfers = λ k h. h;
  seen = λ s h. h;
})

pub GrowsBy-then : (f g : Statement) → GrowsBy f → GrowsBy g → GrowsBy (f then_do g)
GrowsBy-then f g gf gg db db' h = elim (Result-cases (f db)) [
  | inl (mid, e) ↦ Grows-trans db mid db' (gf db mid e) (gg mid db' (rw (e, ◌then_do◌) at h))
  | inr (x, e) ↦ absurd (ground (arith, e))
]

pub insert_rows-GrowsBy :
    {R : Type 0} (insert : R → Statement)
    → ((r : R) → GrowsBy (insert r))
    → (rows : List R) → GrowsBy (insert_rows insert rows)
unfolding insert_rows
insert_rows-GrowsBy insert g [] db db' e = let same : db' ≡ db = cc in rw same (Grows-refl db)
insert_rows-GrowsBy insert g (r ∷ rows) db db' e =
    GrowsBy-then (insert r) (insert_rows insert rows) (g r) (insert_rows-GrowsBy insert g rows) db
      db' e
