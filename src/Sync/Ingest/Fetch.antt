-- ===== src/Sync/Ingest/Fetch.antt =====
-- What a fetched bundle holds: rows that the tables' foreign keys accept.
use indexer_rs.Base.{
  String, Option-cases, ◌≡◌, ◌∙◌, inl, inr, ℕ, suc, true, Option, none, some, List, [], ◌∷◌, ok,
  err, keep-All, All, arith, string_eq,
}
use indexer_rs.Base.Effects.{and_then-inv}
use indexer_rs.Domain.{BlockHeight, Block, Transaction, Log, TokenTransfer}
use indexer_rs.Chain.Error.{ChainResult}
use indexer_rs.Chain.Retry.{BackoffConfig, retry_with_backoff, result_of}
use indexer_rs.Chain.Retry.Outcome.{retry-ok}
use indexer_rs.Sync.Reorg.{chain_result}
use indexer_rs.Sync.Convert.{
  Converted, Hex, NativeBlockTx, NativeBlockResponse, RpcLog, to_domain_block_from_native,
  convert_native_tx, convert_native_txs, to_domain_txs_from_native, to_domain_logs,
}
use indexer_rs.Sync.TokenDecode.{decode_transfer}
use indexer_rs.Sync.BlockWriter.{BlockBundle}
use indexer_rs.Sync.Ingest.{
  Endpoints, or_invalid, backed_by, drop_orphans, decode_transfers, retried, logs_in_range,
  fetch_rest, bundle_of, fetch_one,
}

tx-height :
    (height : BlockHeight) (idx : ℕ) (t : NativeBlockTx) (x : Transaction)
    → convert_native_tx height idx t ≡ ok x
    → x.block_height ≡ height
unfolding convert_native_tx
tx-height height idx t x e = ground arith

txs-height :
    (height : BlockHeight) (idx : ℕ) (ts : List NativeBlockTx) (xs : List Transaction)
    → convert_native_txs height idx ts ≡ ok xs
    → All (λ (x : Transaction). x.block_height ≡ height) xs
unfolding convert_native_txs
txs-height height idx [] xs e = let none_there : [] ≡ xs = ground arith in rw⁻¹ none_there tt
txs-height height idx (t ∷ ts) xs e =
    let (x, one, more) = and_then-inv (convert_native_tx height idx t) _ xs e in
    let (rest, others, is) = and_then-inv (convert_native_txs height (suc idx) ts) _ xs more in
    let both : x ∷ rest ≡ xs = ground arith in
    rw⁻¹ both (tx-height height idx t x one, txs-height height (suc idx) ts rest others)

block-height :
    (hex : Hex) (b : NativeBlockResponse) (d : Block)
    → to_domain_block_from_native hex b ≡ ok d
    → d.height ≡ b.index
unfolding to_domain_block_from_native
block-height hex b d e = ground arith

-- A decoded transfer names the transaction and the block of its log.
transfer-of_log :
    (hex : Hex) (l : Log) (t : TokenTransfer)
    → decode_transfer hex l ≡ some t
    → (t.tx_hash ≡ l.tx_hash) × (t.block_height ≡ l.block_height)
unfolding decode_transfer
transfer-of_log hex l t e = ground arith

transfers-All :
    (hex : Hex) (P : String → Type 0) (logs : List Log)
    → All (λ (l : Log). P l.tx_hash) logs
    → All (λ (t : TokenTransfer). P t.tx_hash) (decode_transfers hex logs)
unfolding decode_transfers
transfers-All hex P [] h = tt
transfers-All hex P (l ∷ logs) h = elim (Option-cases (decode_transfer hex l)) [
  | inl skipped ↦ rw skipped (transfers-All hex P logs h.1)
  | inr (t, e) ↦ rw e (rw (transfer-of_log hex l t e).0 h.0, transfers-All hex P logs h.1)
]

-- A bundle whose rows name its own block and its own transactions.
pub record IsClosed (b : BlockBundle) : Type 0 where
  pub txs : All (λ (t : Transaction). t.block_height ≡ b.block.height) b.txs
  pub logs : All (λ (l : Log). backed_by b.txs l.tx_hash ≡ true) b.logs
  pub transfers : All (λ (t : TokenTransfer). backed_by b.txs t.tx_hash ≡ true) b.token_transfers

drop_orphans-backed :
    (txs : List Transaction) (logs : List Log)
    → All (λ (l : Log). backed_by txs l.tx_hash ≡ true) (drop_orphans txs logs)
unfolding drop_orphans
drop_orphans-backed txs logs = keep-All _ logs

chain_result-ok : {A : Type 0} (r : ChainResult A) (a : A) → chain_result r ≡ ok a → r ≡ ok a
chain_result-ok (ok x) a e = ground arith
chain_result-ok (err x) a e = absurd (ground arith)

or_invalid-ok : {A : Type 0} (r : Converted A) (a : A) → or_invalid r ≡ ok a → r ≡ ok a
or_invalid-ok (ok x) a e = ground arith
or_invalid-ok (err x) a e = absurd (ground arith)

bundle_of-inv :
    (api : Endpoints) (r : NativeBlockResponse) (ls : List RpcLog) (b : BlockBundle)
    → bundle_of api r ls ≡ ok b
    → (b.block.height ≡ r.index) × IsClosed b
unfolding bundle_of to_domain_txs_from_native
bundle_of-inv api r ls b e =
    let (block, is_block, e1) =
      and_then-inv (or_invalid (to_domain_block_from_native api.hex r)) _ b e in
    let (txs, are_txs, e2) = and_then-inv (or_invalid (to_domain_txs_from_native r)) _ b e1 in
    let (logs, are_logs, e3) = and_then-inv (or_invalid (to_domain_logs api.hex ls)) _ b e2 in
    let same_height = block-height api.hex r block (or_invalid-ok _ block is_block) in
    let same_heights = txs-height r.index 0 r.transactions txs (or_invalid-ok _ txs are_txs) in
    let backed = drop_orphans-backed txs logs in
    let built : record {
      block = block;
      txs = txs;
      logs = drop_orphans txs logs;
      token_transfers = decode_transfers api.hex (drop_orphans txs logs);
    }
        ≡ b =
      ground arith in
    rw⁻¹ built (
      same_height,
      record {
        txs = rw same_height same_heights;
        logs = backed;
        transfers =
            transfers-All api.hex (λ x. backed_by txs x ≡ true) (drop_orphans txs logs) backed;
      },
    )

-- The chain answers with the block that it was asked for.
abbrev pub AnswersAsked : Endpoints → Type 0
AnswersAsked api =
    (h : BlockHeight) (attempt : ℕ) (b : NativeBlockResponse)
    → api.block h attempt ≡ ok (some b)
    → b.index ≡ h

fetch_one-bundle :
    (api : Endpoints) (backoff : BackoffConfig) (h : BlockHeight) (b : BlockBundle)
    → fetch_one api backoff h ≡ ok (some b)
    → (r : NativeBlockResponse) × (retried backoff (api.block h) ≡ ok (some r))
      × (ls : List RpcLog) × (bundle_of api r ls ≡ ok b)
unfolding fetch_one
fetch_one-bundle api backoff h b e =
    let (block_opt, asked, e1) = and_then-inv (retried backoff (api.block h)) _ (some b) e in
    by_block block_opt asked e1
  where
    by_block :
        (o : Option NativeBlockResponse)
        → retried backoff (api.block h) ≡ ok o
        → fetch_rest api backoff h o ≡ ok (some b)
        → (r : NativeBlockResponse) × (retried backoff (api.block h) ≡ ok (some r))
          × (ls : List RpcLog) × (bundle_of api r ls ≡ ok b)
    by_block none asked e1 = absurd (ground arith)
    by_block (some r) asked e1 =
        let (ls, _, e2) =
          and_then-inv (retried backoff (logs_in_range api.get_logs h h)) _ (some b) e1 in
        let (x, built, e3) = and_then-inv (bundle_of api r ls) _ (some b) e2 in
        let same : x ≡ b = ground arith in (r, asked, ls, rw⁻¹ same built)

-- Every transaction of a fetched bundle has the height of its block, every log belongs to a transaction of
-- the bundle, and so does every token transfer, whatever the chain answered.
pub fetch_one-IsClosed :
    (api : Endpoints) (backoff : BackoffConfig) (h : BlockHeight) (b : BlockBundle)
    → fetch_one api backoff h ≡ ok (some b)
    → IsClosed b
fetch_one-IsClosed api backoff h b e =
    let (r, _, ls, built) = fetch_one-bundle api backoff h b e in (bundle_of-inv api r ls b built).1

retried-ok :
    {A : Type 0} (backoff : BackoffConfig) (op : ℕ → ChainResult A) (a : A)
    → retried backoff op ≡ ok a
    → (n : ℕ) × (op n ≡ ok a)
retried-ok backoff op a h =
    retry-ok backoff op a (chain_result-ok (result_of (retry_with_backoff backoff op).ending) a h)

pub fetch_one-height :
    (api : Endpoints) (backoff : BackoffConfig) (h : BlockHeight) (b : BlockBundle)
    → AnswersAsked api
    → fetch_one api backoff h ≡ ok (some b)
    → b.block.height ≡ h
fetch_one-height api backoff h b asked e =
    let (r, got, ls, built) = fetch_one-bundle api backoff h b e in
    let (attempt, at) = retried-ok backoff (api.block h) (some r) got in
    (bundle_of-inv api r ls b built).0 ∙ asked h attempt r at
