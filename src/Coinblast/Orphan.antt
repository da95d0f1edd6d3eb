-- ===== src/Coinblast/Orphan.antt =====
-- crates/coinblast/src/orphan.rs: whether an unknown emitter answers as a curve, and its adoption. `Views`
-- stands for `eth_call` and for the decoders that `alloy` derives from the ABI.
use indexer_rs.Base.{
  ℕ, ℤ, String, Bool, true, false, Option, List, length, take, ltb, ok, err, if◌then◌else◌,
}
use indexer_rs.Base.Effects.{and_then, ◌>>◌, pure}
use indexer_rs.Domain.{Address, Hash, Wei}
use indexer_rs.Chain.Error.{ChainResult}
use indexer_rs.Db.Session.{execute}
use indexer_rs.Db.Coinblast.{InsertCbToken, insert_token}
use indexer_rs.Sync.Convert.{Hex, hex_hash}
use indexer_rs.Coinblast.Handlers.{chain_failed, undecodable, Handled, required, Handler, on_db}

pub data View : Type 0 where
  token curve_supply graduation_threshold name symbol : View

pub record Views : Type 0 where
  pub call : List ℕ → View → ChainResult (List ℕ)
  pub decode_address : List ℕ → Option (List ℕ)
  pub decode_string : List ℕ → Option String

abbrev pub called : {A : Type 0} → ChainResult A → Handled A
called (ok a) = ok a
called (err e) = err (chain_failed e)

unfoldable pub call_token : Views → List ℕ → Handled (List ℕ)
call_token views addr =
    and_then (called (views.call addr token))
      (λ raw. required undecodable (views.decode_address raw))

-- The first 32 bytes of the answer; an answer that is shorter is an error.
unfoldable pub call_uint256 : Hex → Views → List ℕ → View → Handled Wei
call_uint256 hex views addr view =
    and_then (called (views.call addr view))
      (λ raw. if ltb (length raw) 32 then err undecodable else ok (hex.from_be_slice (take 32 raw)))

unfoldable pub call_string : Views → List ℕ → View → Handled String
call_string views addr view =
    and_then (called (views.call addr view)) (λ raw. required undecodable (views.decode_string raw))

abbrev pub or_else : {A : Type 0} → A → Handled A → A
or_else a (ok b) = b
or_else a (err e) = a

abbrev pub zero_address : Address
zero_address = "0x0000000000000000000000000000000000000000"

-- The row of a curve that answers all three views; none if one of them fails.
unfoldable pub probe : Hex → Views → List ℕ → ℤ → Hash → Handled InsertCbToken
unfolding call_token call_uint256 call_string
probe hex views candidate created_block created_tx_hash =
    and_then (call_token views candidate) (λ token_bytes.
      and_then (call_uint256 hex views candidate curve_supply) (λ supply.
        and_then (call_uint256 hex views candidate graduation_threshold) (λ threshold. ok (record {
          curve_address = hex_hash hex candidate;
          token_address = hex_hash hex token_bytes;
          owner_address = zero_address;
          name = or_else "Unknown" (call_string views token_bytes name);
          symbol = or_else "???" (call_string views token_bytes symbol);
          curve_supply = supply;
          graduation_threshold = threshold;
          created_block = created_block;
          created_tx_hash = created_tx_hash;
        }))))

abbrev pub adopt : Handled InsertCbToken → Handler Bool
adopt (err e) = pure false
adopt (ok row) = do on_db (execute (insert_token row)); pure true

-- `try_adopt`: a failed view is no error, but says that the emitter is no curve.
unfoldable pub try_adopt : Hex → Views → List ℕ → ℤ → Hash → Handler Bool
unfolding probe
try_adopt hex views candidate created_block created_tx_hash =
    adopt (probe hex views candidate created_block created_tx_hash)
