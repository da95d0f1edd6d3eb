-- ===== src/Api/Serialise/Shows.antt =====
-- What a client reads of a block: each field of the wire form, by itself.
use indexer_rs.Base.{◌≡◌, refl, List, [], ◌∷◌, map}
use indexer_rs.Base.Text.Print.{to_string}
use indexer_rs.Domain.{Block}
use indexer_rs.Api.Serialise.{WireBlock, wire_block}

pub record Shows (w : WireBlock) (b : Block) : Type 0 where
  pub height : w.height ≡ to_string b.height
  pub hash : w.hash ≡ b.hash
  pub parent_hash : w.parent_hash ≡ b.parent_hash
  pub timestamp : w.timestamp ≡ to_string b.timestamp
  pub validator : w.validator ≡ b.validator
  pub gas_used : w.gas_used ≡ to_string b.gas_used
  pub gas_limit : w.gas_limit ≡ to_string b.gas_limit
  pub base_fee : w.base_fee ≡ b.base_fee
  pub tx_count : w.tx_count ≡ b.tx_count
  pub state_root : w.state_root ≡ b.state_root
  pub round : w.round ≡ b.round

pub wire_block-Shows : (b : Block) → Shows (wire_block b) b
unfolding wire_block
wire_block-Shows b = record {
  height = refl;
  hash = refl;
  parent_hash = refl;
  timestamp = refl;
  validator = refl;
  gas_used = refl;
  gas_limit = refl;
  base_fee = refl;
  tx_count = refl;
  state_root = refl;
  round = refl;
}

-- One wire block for each block, in the same order.
abbrev pub ShowsAll : List WireBlock → List Block → Type 0
ShowsAll [] [] = Unit
ShowsAll (w ∷ ws) (b ∷ bs) = Shows w b × ShowsAll ws bs
ShowsAll [] (b ∷ bs) = ⊥
ShowsAll (w ∷ ws) [] = ⊥

pub map-ShowsAll : (bs : List Block) → ShowsAll (map wire_block bs) bs
map-ShowsAll [] = tt
map-ShowsAll (b ∷ bs) = (wire_block-Shows b, map-ShowsAll bs)
