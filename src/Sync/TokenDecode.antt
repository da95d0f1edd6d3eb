-- ===== src/Sync/TokenDecode.antt =====
-- crates/sync/src/token_decode.rs: a Transfer event as a row of `token_transfers`. A text is measured and
-- cut in bytes; a cut inside a character, which panics in the code, cannot come of the hex texts that
-- `to_domain_log` writes.
pub mod Kinds
mod Examples
use indexer_rs.Base.{
  ℕ, String, Bool, true, false, not, ◌&&◌, Option, none, some, List, nat_beq, ◌==◌, string_eq,
  if◌then◌else◌,
}
use Prim.Native.Char.{Char}
use Prim.Native.String.{len, slice, ◌++◌}
use indexer_rs.Domain.{Address, Log, TokenTransfer, Wei}
use indexer_rs.Domain.Kinds.{TokenStandard, erc20, erc721}
use indexer_rs.Sync.Convert.{Hex}

abbrev pub transfer_topic0 : String
transfer_topic0 = "0xddf252ad1be2c89b69c2b068fc378daa952ba7f163c4a11628f55a4df523b3ef"

abbrev pub or_else_none : {A B : Type 0} → Option A → (A → Option B) → Option B
or_else_none none f = none
or_else_none (some a) f = f a

-- `trim_start_matches("0x")`, which drops the prefix as often as it stands there.
unfoldable pub trim_0x : String → String
trim_0x String.[] = String.[]
trim_0x (String.◌∷◌ c String.[]) = String.◌∷◌ c String.[]
trim_0x (String.◌∷◌ c (String.◌∷◌ d s)) =
    let rest = trim_0x s in
    if (String.◌∷◌ c (String.◌∷◌ d String.[])) == "0x" then rest else String.◌∷◌ c (String.◌∷◌ d s)

-- The last 20 of the 32 bytes.
unfoldable pub topic_to_address : String → Option Address
topic_to_address topic =
    let hex = trim_0x topic in
    if nat_beq (len hex) 64 then some ("0x" ++ slice hex 24 (len hex)) else none

abbrev pub map_option : {A B : Type 0} → (A → B) → Option A → Option B
map_option f none = none
map_option f (some a) = some (f a)

-- `topic_to_u256`, and `data_to_u256`, which is the same.
unfoldable pub word_to_u256 : Hex → String → Option Wei
word_to_u256 h word =
    let hex = trim_0x word in
    if nat_beq (len hex) 64 then map_option h.from_be_slice (h.decode hex) else none

abbrev pub payload_empty : Option String → Bool
payload_empty none = true
payload_empty (some d) = trim_0x d == ""

-- The standard, the token and the amount: a third indexed argument tells ERC-721 from ERC-20.
unfoldable pub decode_kind :
    Hex → Option String → Option String → Option (TokenStandard × Option Wei × Wei)
decode_kind h (some id_topic) payload =
    if not (payload_empty payload)
    then none
    else map_option (λ id. (erc721, some id, 1)) (word_to_u256 h id_topic)
decode_kind h none payload =
    or_else_none payload (λ d. map_option (λ amount. (erc20, none, amount)) (word_to_u256 h d))

unfoldable pub decode_transfer : Hex → Log → Option TokenTransfer
decode_transfer h log = or_else_none log.topic0 (λ topic0.
    if not (topic0 == transfer_topic0)
    then none
    else or_else_none log.topic1 (λ from_topic. or_else_none log.topic2 (λ to_topic.
      or_else_none (topic_to_address from_topic) (λ from_addr.
        or_else_none (topic_to_address to_topic) (λ to_addr.
          map_option
            (λ (k : TokenStandard × Option Wei × Wei). record {
              id = none;
              block_height = log.block_height;
              tx_hash = log.tx_hash;
              log_index = log.log_index;
              contract = log.address;
              standard = k.0;
              from_addr = from_addr;
              to_addr = to_addr;
              token_id = k.1;
              amount = k.2;
            })
            (decode_kind h log.topic3 log.payload))))))
