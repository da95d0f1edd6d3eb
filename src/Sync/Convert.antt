-- ===== src/Sync/Convert.antt =====
-- crates/sync/src/convert.rs: the chain's answers as rows. Bytes are numbers below 256, and `Hex` stands
-- for the `hex` and `alloy` packages.
use indexer_rs.Base.{
  ℕ, zero, suc, ℤ, pos, ltb_ℤ, String, Bool, ◌||◌, Option, none, some, List, [], ◌∷◌, is_empty,
  length, Result, ok, err, fits_i32, fits_i64, ◌==◌, string_eq, int_eq, if◌then◌else◌,
}
use indexer_rs.Base.Effects.{and_then}
use Prim.Native.String.{◌++◌}
use text.Mathlib.Text.{starts_with}
use indexer_rs.Domain.{BlockHeight, Hash, Block, Transaction, Log, height_from_u64}
use indexer_rs.Domain.Kinds.{TxType, evm, system, coinbase}
use indexer_rs.Sync.World.{ConvertError, missing, out_of_range}

-- `hex::encode`, `hex::decode`, and `U256::from_be_slice`.
pub record Hex : Type 0 where
  pub encode : List ℕ → String
  pub decode : String → Option (List ℕ)
  pub from_be_slice : List ℕ → ℕ

-- `alloy_rpc_types::Log`, as far as it is read.
pub record RpcLog : Type 0 where
  pub block_number : Option ℕ
  pub log_index : Option ℕ
  pub transaction_hash : Option (List ℕ)
  pub address : List ℕ
  pub topics : List (List ℕ)
  pub payload : List ℕ

pub record NativeBlockTx : Type 0 where
  pub txid : String
  pub from_address : String
  pub to_address : Option String
  pub amount : ℕ
  pub fee : ℕ
  pub nonce : ℕ
  pub timestamp : ℤ
  pub chain_id : ℤ
  pub input : Option String

pub record NativeBlockResponse : Type 0 where
  pub index : ℤ
  pub hash : String
  pub previous_hash : String
  pub timestamp : ℤ
  pub validator : String
  pub round : ℤ
  pub state_root : Option (List ℕ)
  pub transactions : List NativeBlockTx

abbrev pub Converted : Type 0 → Type 0
Converted A = Result ConvertError A

abbrev pub ok_or : {A : Type 0} → ConvertError → Option A → Converted A
ok_or e none = err e
ok_or e (some a) = ok a

-- `i32::try_from` and `i64::try_from` of an unsigned number.
abbrev pub checked : Bool → ConvertError → ℕ → Converted ℤ
checked fits e n = if fits then ok (pos n) else err e

unfoldable pub hex_hash : Hex → List ℕ → Hash
hex_hash hex bytes = "0x" ++ hex.encode bytes

abbrev pub hex_option : Hex → Option (List ℕ) → Option Hash
hex_option hex none = none
hex_option hex (some bytes) = some (hex_hash hex bytes)

unfoldable pub with_0x : String → String
with_0x s = if starts_with s "0x" || starts_with s "0X" then s else "0x" ++ s

-- `topics.get(i)`.
abbrev pub topic_at : ℕ → List (List ℕ) → Option (List ℕ)
topic_at i [] = none
topic_at zero (t ∷ topics) = some t
topic_at (suc i) (t ∷ topics) = topic_at i topics

unfoldable pub to_domain_log : Hex → RpcLog → Converted Log
unfolding hex_hash
to_domain_log hex rpc = and_then (ok_or (missing "log.block_number") rpc.block_number) (λ n.
    and_then (ok_or (missing "log.log_index") rpc.log_index) (λ i.
      and_then (checked (fits_i32 i) (out_of_range "log_index") i) (λ log_index.
        and_then (ok_or (missing "log.transaction_hash") rpc.transaction_hash) (λ x. ok (record {
          block_height = height_from_u64 n;
          tx_hash = hex_hash hex x;
          log_index = log_index;
          address = hex_hash hex rpc.address;
          topic0 = hex_option hex (topic_at 0 rpc.topics);
          topic1 = hex_option hex (topic_at 1 rpc.topics);
          topic2 = hex_option hex (topic_at 2 rpc.topics);
          topic3 = hex_option hex (topic_at 3 rpc.topics);
          payload = some ("0x" ++ hex.encode rpc.payload);
        })))))

-- An empty state root counts as none.
abbrev pub root_of : Hex → Option (List ℕ) → Option Hash
root_of hex none = none
root_of hex (some r) = if is_empty r then none else some (hex_hash hex r)

unfoldable pub to_domain_block_from_native : Hex → NativeBlockResponse → Converted Block
unfolding with_0x hex_hash
to_domain_block_from_native hex b =
    if ltb_ℤ b.index (pos 0)
    then err (out_of_range "block.index")
    else and_then
        (checked (fits_i32 (length b.transactions)) (out_of_range "tx_count")
          (length b.transactions))
        (λ tx_count. ok (record {
          height = b.index;
          hash = with_0x b.hash;
          parent_hash = with_0x b.previous_hash;
          timestamp = b.timestamp;
          validator = with_0x b.validator;
          gas_used = pos 0;
          gas_limit = pos 0;
          base_fee = none;
          tx_count = tx_count;
          state_root = root_of hex b.state_root;
          round = b.round;
          justification_signers = [];
        }))

abbrev pub with_0x_option : Option String → Option String
with_0x_option none = none
with_0x_option (some a) = some (with_0x a)

abbrev pub native_type : NativeBlockTx → TxType
native_type t =
    if t.from_address == "COINBASE" then coinbase else if t.chain_id == pos 0 then system else evm

unfoldable pub convert_native_tx : BlockHeight → ℕ → NativeBlockTx → Converted Transaction
unfolding with_0x
convert_native_tx height idx t =
    and_then (checked (fits_i32 idx) (out_of_range "tx_index") idx) (λ tx_index.
      and_then (checked (fits_i64 t.nonce) (out_of_range "tx.nonce") t.nonce) (λ nonce. ok (record {
        hash = with_0x t.txid;
        block_height = height;
        tx_index = tx_index;
        from_addr =
            if t.from_address == "COINBASE"
            then "0x0000000000000000000000000000000000000000"
            else with_0x t.from_address;
        to_addr = with_0x_option t.to_address;
        value = t.amount;
        gas_limit = pos 0;
        gas_used = none;
        gas_price = none;
        fee = t.fee;
        nonce = nonce;
        input = t.input;
        status = pos 1;
        contract_address = none;
        tx_type = native_type t;
      })))

-- `.enumerate().map(…).collect()` from an index on: the first error ends it.
unfoldable pub convert_native_txs :
    BlockHeight → ℕ → List NativeBlockTx → Converted (List Transaction)
unfolding convert_native_tx
convert_native_txs height idx [] = ok []
convert_native_txs height idx (t ∷ ts) =
    let rest = convert_native_txs height (suc idx) ts in
    and_then (convert_native_tx height idx t) (λ x. and_then rest (λ xs. ok (x ∷ xs)))

unfoldable pub to_domain_txs_from_native : NativeBlockResponse → Converted (List Transaction)
unfolding convert_native_txs
to_domain_txs_from_native b = convert_native_txs b.index 0 b.transactions

-- `.iter().map(to_domain_log).collect()`.
unfoldable pub to_domain_logs : Hex → List RpcLog → Converted (List Log)
unfolding to_domain_log
to_domain_logs hex [] = ok []
to_domain_logs hex (l ∷ ls) =
    let rest = to_domain_logs hex ls in
    and_then (to_domain_log hex l) (λ x. and_then rest (λ xs. ok (x ∷ xs)))
