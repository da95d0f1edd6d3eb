-- ===== src/Api/Serialise/Faithful.antt =====
-- The wire tells rows apart: no number is cut and no kind confused.
use indexer_rs.Base.{◌≡◌, refl, sym, ap, ◌∙◌, ℤ, Option, none, some}
use indexer_rs.Base.Text.{parse_i64}
use indexer_rs.Base.Text.Print.{to_string, FitsI64, parse-to_string}
use indexer_rs.Domain.{Transaction, TokenTransfer}
use indexer_rs.Domain.Kinds.{
  TxType, TokenStandard, tx_type_as_str, tx_type_of_row, standard_as_str, standard_of_row,
  kinds_roundtrip,
}
use indexer_rs.Api.Serialise.{WireTransaction, WireTransfer, optional_text, wire_tx, wire_transfer}

some-inj : {A : Type 0} (a b : A) → some a ≡ some b → a ≡ b
some-inj a b e = cc

text-inj : (a b : ℤ) → FitsI64 a → FitsI64 b → to_string a ≡ to_string b → a ≡ b
text-inj a b fa fb e =
    some-inj a b (sym (parse-to_string a fa) ∙ ap parse_i64 e ∙ parse-to_string b fb)

abbrev pub FitsOption : Option ℤ → Type 0
FitsOption none = Unit
FitsOption (some n) = FitsI64 n

optional-inj :
    (a b : Option ℤ) → FitsOption a → FitsOption b → optional_text a ≡ optional_text b → a ≡ b
optional-inj none none fa fb e = refl
optional-inj none (some b) fa fb e = absurd (cc)
optional-inj (some a) none fa fb e = absurd (cc)
optional-inj (some a) (some b) fa fb e =
    ap (λ (n : ℤ). some n) (text-inj a b fa fb (some-inj _ _ e))

-- The 64-bit fields of a row hold what an `i64` can.
pub record FitsTx (t : Transaction) : Type 0 where
  pub block_height : FitsI64 t.block_height
  pub gas_limit : FitsI64 t.gas_limit
  pub gas_used : FitsOption t.gas_used
  pub nonce : FitsI64 t.nonce

tx_type-inj : (a b : TxType) → tx_type_as_str a ≡ tx_type_as_str b → a ≡ b
tx_type-inj a b e =
    some-inj a b (sym (kinds_roundtrip.0 a) ∙ ap tx_type_of_row e ∙ kinds_roundtrip.0 b)

standard-inj : (a b : TokenStandard) → standard_as_str a ≡ standard_as_str b → a ≡ b
standard-inj a b e =
    some-inj a b (sym (kinds_roundtrip.1 a) ∙ ap standard_of_row e ∙ kinds_roundtrip.1 b)

-- Two transactions whose 64-bit fields are those of an i64 and that look the same on the wire are the same.
pub wire_tx-inj : (t u : Transaction) → FitsTx t → FitsTx u → wire_tx t ≡ wire_tx u → t ≡ u
unfolding wire_tx
wire_tx-inj t u ft fu e =
    let height =
      text-inj t.block_height u.block_height ft.block_height fu.block_height
        (ap (λ (w : WireTransaction). w.block_height) e) in
    let limit =
      text-inj t.gas_limit u.gas_limit ft.gas_limit fu.gas_limit
        (ap (λ (w : WireTransaction). w.gas_limit) e) in
    let used =
      optional-inj t.gas_used u.gas_used ft.gas_used fu.gas_used
        (ap (λ (w : WireTransaction). w.gas_used) e) in
    let nonce =
      text-inj t.nonce u.nonce ft.nonce fu.nonce (ap (λ (w : WireTransaction). w.nonce) e) in
    let kind = tx_type-inj t.tx_type u.tx_type (ap (λ (w : WireTransaction). w.tx_type) e) in
    λ i. record {
      hash = (e i).hash;
      block_height = height i;
      tx_index = (e i).tx_index;
      from_addr = (e i).from;
      to_addr = (e i).to;
      value = (e i).value;
      gas_limit = limit i;
      gas_used = used i;
      gas_price = (e i).gas_price;
      fee = (e i).fee;
      nonce = nonce i;
      input = (e i).input;
      status = (e i).status;
      contract_address = (e i).contract_address;
      tx_type = kind i;
    }

wire_transfer-inj :
    (t u : TokenTransfer)
    → FitsI64 t.block_height
    → FitsI64 u.block_height
    → wire_transfer t ≡ wire_transfer u
    → t ≡ u
unfolding wire_transfer
wire_transfer-inj t u ft fu e =
    let height =
      text-inj t.block_height u.block_height ft fu (ap (λ (w : WireTransfer). w.block_height) e) in
    let kind = standard-inj t.standard u.standard (ap (λ (w : WireTransfer). w.standard) e) in
    λ i. record {
      id = (e i).id;
      block_height = height i;
      tx_hash = (e i).tx_hash;
      log_index = (e i).log_index;
      contract = (e i).contract;
      standard = kind i;
      from_addr = (e i).from_addr;
      to_addr = (e i).to_addr;
      token_id = (e i).token_id;
      amount = (e i).amount;
    }
