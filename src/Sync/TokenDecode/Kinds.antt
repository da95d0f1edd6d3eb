-- ===== src/Sync/TokenDecode/Kinds.antt =====
-- Which events become transfers, and of which standard.
use indexer_rs.Base.{
  ◌≡◌, refl, ap, ◌∙◌, inl, inr, String, true, Option, none, some, arith, string_eq, ==_iff,
  Option-cases, Bool-cases,
}
use indexer_rs.Domain.{Log, TokenTransfer, Wei}
use indexer_rs.Domain.Kinds.{TokenStandard, erc20, erc721}
use indexer_rs.Sync.Convert.{Hex}
use indexer_rs.Sync.TokenDecode.{
  transfer_topic0, or_else_none, payload_empty, word_to_u256, decode_kind, topic_to_address,
  decode_transfer,
}

-- ERC-20 has its amount in the payload and no token; ERC-721 has its token in the third indexed argument, an
-- empty payload, and the amount 1.
abbrev pub KindOf : Hex → Option String → Option String → TokenStandard × Option Wei × Wei → Type 0
KindOf h none payload k =
    (k.0 ≡ erc20)
    × (k.1 ≡ none)
    × ((d : String) × (payload ≡ some d) × (word_to_u256 h d ≡ some k.2))
KindOf h (some id_topic) payload k =
    (k.0 ≡ erc721) × (payload_empty payload ≡ true) × (k.1 ≡ word_to_u256 h id_topic) × (k.2 ≡ 1)

decode_kind-KindOf :
    (h : Hex) (topic3 payload : Option String) (k : TokenStandard × Option Wei × Wei)
    → decode_kind h topic3 payload ≡ some k
    → KindOf h topic3 payload k
unfolding decode_kind
decode_kind-KindOf h none none k e = absurd (ground arith)
decode_kind-KindOf h none (some d) k e = elim (Option-cases (word_to_u256 h d)) [
  | inl bad ↦ absurd (ground (arith, bad))
  | inr (v, is) ↦
      let same : (erc20, none, v) ≡ k = ground (arith, is) in rw⁻¹ same (refl, refl, (d, refl, is))
]
decode_kind-KindOf h (some t) payload k e = elim (Bool-cases (payload_empty payload)) [
  | inr full ↦ absurd (ground (arith, full))
  | inl empty ↦ elim (Option-cases (word_to_u256 h t)) [
    | inl bad ↦ absurd (ground (arith, bad, empty))
    | inr (v, is) ↦
        let same : (erc721, some v, 1) ≡ k = ground (arith, is, empty) in
        rw⁻¹ same (refl, empty, rw is refl, refl)
  ]
]

-- A log becomes a transfer only if its first topic is that of Transfer; then the transfer names the log's
-- contract, its sender and receiver are the addresses in the second and third topics, and its standard,
-- token and amount are those of ERC-721 if there is a fourth topic and those of ERC-20 if there is none.
pub decode_transfer-KindOf :
    (h : Hex) (log : Log) (t : TokenTransfer)
    → decode_transfer h log ≡ some t
    → (log.topic0 ≡ some transfer_topic0)
      × (t.contract ≡ log.address)
      × (or_else_none log.topic1 topic_to_address ≡ some t.from_addr)
      × (or_else_none log.topic2 topic_to_address ≡ some t.to_addr)
      × KindOf h log.topic3 log.payload (t.standard, t.token_id, t.amount)
unfolding decode_transfer
decode_transfer-KindOf h log t e = elim (Option-cases log.topic0) [
  | inl n0 ↦ absurd (ground (arith, n0))
  | inr (topic0, e0) ↦ elim (Option-cases (decode_kind h log.topic3 log.payload)) [
    | inl bad ↦ absurd (ground (arith, bad))
    | inr (k, ek) ↦
        let kind = decode_kind-KindOf h log.topic3 log.payload k ek in
        let same : k ≡ (t.standard, t.token_id, t.amount) = ground (arith, ek) in
        let transfer : topic0 ≡ transfer_topic0 =
          ground (arith, e0, ==_iff topic0 transfer_topic0) in
        (e0 ∙ ap some transfer, ground arith, ground arith, ground arith, rw⁻¹ same kind)
  ]
]
