-- ===== src/Sync/ContractDetect.antt =====
-- crates/sync/src/contract_detect.rs: the sweeps that classify addresses. `Codes` stands for the address
-- parser, `eth_getCode` and keccak. `unclassified_batch` has no ORDER BY: here the rows come in the order
-- of the table. The batch size, an `i64` there, is not negative.
pub mod Right
pub mod Sweeps
mod Examples
use indexer_rs.Base.{
  ℕ, String, Bool, true, false, not, Option, none, some, List, [], ◌∷◌, map, keep, take, is_empty,
  Result, ok, err, if◌then◌else◌,
}
use indexer_rs.Base.Effects.{◌>>=◌, lift}
use indexer_rs.Domain.{Address, Hash}
use indexer_rs.Chain.Error.{ChainResult}
use indexer_rs.Db.Schema.{Db, DbResult, AddressRow}
use indexer_rs.Db.Session.{query, execute}
use indexer_rs.Db.Addresses.{classify}
use indexer_rs.Sync.World.{World, SyncError, Io, sql}
use indexer_rs.Sync.Reorg.{chain_result}

pub record Codes : Type 0 where
  pub from_str : String → Option (List ℕ)
  pub get_code : List ℕ → ChainResult (List ℕ)
  pub keccak : List ℕ → Hash

abbrev pub no_code : Hash
no_code = "0x"

abbrev pub unclassified : AddressRow → Bool
unclassified r = elim r.code_hash [ none ↦ true | some h ↦ false ]

-- `addresses::unclassified_batch`.
unfoldable pub unclassified_batch : ℕ → Db → DbResult (List Address)
unclassified_batch limit db =
    ok (take limit (map (λ (r : AddressRow). r.address) (keep unclassified db.addresses)))

-- What an account's code says: whether there is some, and its hash.
abbrev pub verdict : Codes → List ℕ → Bool × Hash
verdict codes code =
    let is_contract = not (is_empty code) in
    (is_contract, if is_contract then codes.keccak code else no_code)

-- One address. A text that is no address is marked as an account without code.
unfoldable pub classify_one : Codes → Address → Io (Unit {0})
classify_one codes addr = elim (codes.from_str addr) [
  | none ↦ sql (execute (classify addr false no_code))
  | some parsed ↦ do
    code ← lift (chain_result (codes.get_code parsed))
    sql (execute (classify addr (verdict codes code).0 (verdict codes code).1))
]

abbrev pub next_flag : List Bool → Bool × List Bool
next_flag [] = (false, [])
next_flag (c ∷ cancels) = (c, cancels)

-- One sweep over its candidates: whether it was not cancelled. An error leaves the row to a later sweep.
unfoldable pub sweep : Codes → List Address → List Bool → World → Bool × World
sweep codes [] cancels w = (true, w)
sweep codes (addr ∷ candidates) cancels w =
    let (cancelled, later) = next_flag cancels in
    let rest = sweep codes candidates later (classify_one codes addr w).1 in
    if cancelled then (false, w) else rest

-- One tick: whether the token is cancelled before it, what the chain answers, and the token's state at each
-- candidate.
pub record Tick : Type 0 where
  pub cancelled_before : Bool
  pub codes : Codes
  pub cancels : List Bool

-- The loop, over the ticks that the environment lets it begin; true if it still runs.
abbrev pub go_on :
    (World → Result SyncError Bool × World) → Bool × World → Result SyncError Bool × World
go_on again (true, w) = again w
go_on again (false, w) = (ok false, w)

abbrev pub swept :
    Codes
    → List Bool
    → (World → Result SyncError Bool × World)
    → Result SyncError (List Address) × World
    → Result SyncError Bool × World
swept codes cancels again (err e, w) = (err e, w)
swept codes cancels again (ok batch, w) = go_on again (sweep codes batch cancels w)

unfoldable pub run_contract_detector : ℕ → List Tick → Io Bool
run_contract_detector batch [] w = (ok true, w)
run_contract_detector batch (t ∷ ticks) w =
    let again = run_contract_detector batch ticks in
    elim t.cancelled_before [
      | true ↦ (ok false, w)
      | false ↦ swept t.codes t.cancels again (sql (query (unclassified_batch batch)) w)
    ]
