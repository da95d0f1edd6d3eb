-- ===== src/Domain/Kinds.antt =====
-- The kinds of transactions and token standards, and the texts that the database holds for them
-- (crates/domain/src/transaction.rs, token_transfer.rs, and the readers of crates/db).
use indexer_rs.Base.{String, ◌≡◌, refl, Option, none, some, ◌==◌, string_eq, if◌then◌else◌}

pub data TxType : Type 0 where
  native evm system coinbase : TxType

pub data TokenStandard : Type 0 where
  erc20 erc721 erc1155 : TokenStandard

unfoldable pub tx_type_as_str : TxType → String
tx_type_as_str native = "native"
tx_type_as_str evm = "evm"
tx_type_as_str system = "system"
tx_type_as_str coinbase = "coinbase"

unfoldable pub standard_as_str : TokenStandard → String
standard_as_str erc20 = "erc20"
standard_as_str erc721 = "erc721"
standard_as_str erc1155 = "erc1155"

-- `row_to_tx`: `none` is its decode error.
unfoldable pub tx_type_of_row : String → Option TxType
tx_type_of_row s =
    if s == "native"
    then some native
    else if s == "evm"
    then some evm
    else if s == "system"
    then some system
    else if s == "coinbase"
    then some coinbase
    else none

-- The reader of `token_transfers.standard`.
unfoldable pub standard_of_row : String → Option TokenStandard
standard_of_row s =
    if s == "erc20"
    then some erc20
    else if s == "erc721"
    then some erc721
    else if s == "erc1155"
    then some erc1155
    else none

tx_type_roundtrip : (t : TxType) → tx_type_of_row (tx_type_as_str t) ≡ some t
unfolding tx_type_as_str tx_type_of_row
tx_type_roundtrip native = refl
tx_type_roundtrip evm = refl
tx_type_roundtrip system = refl
tx_type_roundtrip coinbase = refl

standard_roundtrip : (s : TokenStandard) → standard_of_row (standard_as_str s) ≡ some s
unfolding standard_as_str standard_of_row
standard_roundtrip erc20 = refl
standard_roundtrip erc721 = refl
standard_roundtrip erc1155 = refl

-- A kind that is stored as text is read back as the same kind, for transactions and for tokens.
pub kinds_roundtrip :
    ((t : TxType) → tx_type_of_row (tx_type_as_str t) ≡ some t)
    × ((s : TokenStandard) → standard_of_row (standard_as_str s) ≡ some s)
kinds_roundtrip = (tx_type_roundtrip, standard_roundtrip)
