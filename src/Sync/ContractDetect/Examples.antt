-- ===== src/Sync/ContractDetect/Examples.antt =====
-- Three addresses over two sweeps of two, and the theorems on the detector at them.
use indexer_rs.Base.{
  ◌≡◌, refl, ℕ, ◌-◌, ◌*◌, ◌≤◌, String, Bool, true, false, Option, none, some, List, [], ◌∷◌, pos,
  arith, length, ok, ◌==◌, string_eq, nat_eq, if◌then◌else◌,
}
use indexer_rs.Domain.{Address}
use indexer_rs.Db.Schema.{AddressRow, empty_db}
use indexer_rs.Sync.World.{World}
use indexer_rs.Sync.ContractDetect.{Codes, Tick, run_contract_detector}
use indexer_rs.Sync.ContractDetect.Right.{Chain, Honest, AllRight, run_contract_detector-AllRight}
use indexer_rs.Sync.ContractDetect.Sweeps.{waiting, run_contract_detector_drains}

abbrev new_row : Address → AddressRow
new_row a = record {
  address = a;
  first_seen_block = pos 1;
  last_seen_block = pos 1;
  is_contract = false;
  code_hash = none;
}

abbrev three_rows : List Bool → World
three_rows faults = record {
  session = record {
    db = record empty_db { addresses = new_row "0xa" ∷ new_row "0xb" ∷ new_row "bad" ∷ [] };
    faults = faults;
  };
  pushed = [];
  channel_open = true;
}

-- "0xa" has code, "0xb" has none, and "bad" does not parse.
abbrev parse : String → Option (List ℕ)
parse s = if s == "0xa" then some (1 ∷ []) else if s == "0xb" then some (2 ∷ []) else none

abbrev code_at : List ℕ → List ℕ
code_at [] = []
code_at (x ∷ xs) = if x == 1 then 96 ∷ [] else []

abbrev chain : Chain
chain = record { from_str = parse; keccak = λ c. "0xhash"; code_at = code_at }

abbrev answering : Codes
answering = record { from_str = parse; keccak = λ c. "0xhash"; get_code = λ p. ok (code_at p) }

abbrev tick : Tick
tick = record { cancelled_before = false; codes = answering; cancels = [] }

answering-Honest : Honest chain answering
answering-Honest = record { from_str = refl; keccak = refl; get_code = λ a x h. ground (arith, h) }

-- The second round trip, an update, fails.
run_contract_detector-AllRight_example :
    AllRight chain (run_contract_detector 2 (tick ∷ tick ∷ []) (three_rows (false ∷ true ∷ []))).1
run_contract_detector-AllRight_example =
    run_contract_detector-AllRight chain 2 (tick ∷ tick ∷ []) (three_rows (false ∷ true ∷ []))
      (answering-Honest, (answering-Honest, tt)) (tt, (tt, (tt, tt)))

run_contract_detector_drains_example :
    ((run_contract_detector 2 (tick ∷ tick ∷ []) (three_rows [])).0 ≡ ok true)
    × (length (waiting (run_contract_detector 2 (tick ∷ tick ∷ []) (three_rows [])).1) ≤ 3 - 2 * 2)
run_contract_detector_drains_example =
    run_contract_detector_drains 2 (tick ∷ tick ∷ []) (three_rows []) refl
      ((refl, refl, λ p. (code_at p, refl)), ((refl, refl, λ p. (code_at p, refl)), tt))
