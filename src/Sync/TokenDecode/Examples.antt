-- ===== src/Sync/TokenDecode/Examples.antt =====
-- decodes_erc20_transfer of the unit tests of crates/sync/src/token_decode.rs.
use indexer_rs.Base.{◌≡◌, refl, pos, none, some, [], ◌∷◌}
use indexer_rs.Domain.{Log, TokenTransfer}
use indexer_rs.Domain.Kinds.{erc20}
use indexer_rs.Sync.Convert.{Hex}
use indexer_rs.Sync.TokenDecode.{
  transfer_topic0, or_else_none, word_to_u256, trim_0x, topic_to_address, decode_kind,
  decode_transfer,
}
use indexer_rs.Sync.TokenDecode.Kinds.{KindOf, decode_transfer-KindOf}

-- A decoder that reads every text as the byte 100.
abbrev hundred : Hex
hundred = record {
  encode = λ bytes. "64";
  decode = λ s. some (100 ∷ []);
  from_be_slice = λ bytes. 100;
}

abbrev base_log : Log
base_log = record {
  block_height = pos 1;
  tx_hash = "0xabc";
  log_index = pos 0;
  address = "0xcontract";
  topic0 = some transfer_topic0;
  topic1 = some "0x000000000000000000000000aaaaaaaaaaaaaaaaaaaaaaaaaaaaaaaaaaaaaaaa";
  topic2 = some "0x000000000000000000000000bbbbbbbbbbbbbbbbbbbbbbbbbbbbbbbbbbbbbbbb";
  topic3 = none;
  payload = some "0x0000000000000000000000000000000000000000000000000000000000000064";
}

abbrev decoded : TokenTransfer
decoded = record {
  id = none;
  block_height = pos 1;
  tx_hash = "0xabc";
  log_index = pos 0;
  contract = "0xcontract";
  standard = erc20;
  from_addr = "0xaaaaaaaaaaaaaaaaaaaaaaaaaaaaaaaaaaaaaaaa";
  to_addr = "0xbbbbbbbbbbbbbbbbbbbbbbbbbbbbbbbbbbbbbbbb";
  token_id = none;
  amount = 100;
}

decodes_erc20_transfer : decode_transfer hundred base_log ≡ some decoded
unfolding decode_transfer decode_kind word_to_u256 topic_to_address trim_0x
decodes_erc20_transfer = refl

decode_transfer-KindOf_example :
    (base_log.topic0 ≡ some transfer_topic0)
    × (decoded.contract ≡ base_log.address)
    × (or_else_none base_log.topic1 topic_to_address ≡ some decoded.from_addr)
    × (or_else_none base_log.topic2 topic_to_address ≡ some decoded.to_addr)
    × KindOf hundred none base_log.payload (erc20, none, 100)
decode_transfer-KindOf_example =
    decode_transfer-KindOf hundred base_log decoded decodes_erc20_transfer
