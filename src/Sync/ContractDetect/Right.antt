-- ===== src/Sync/ContractDetect/Right.antt =====
-- What the detector records is what the chain's code says, whatever fails.
use indexer_rs.Base.{
  ap, sym, ◌∙◌, refl, true, ◌≡◌, inl, inr, ℕ, String, Bool, false, Option, none, some, List, [],
  ◌∷◌, arith, All, Result, ok, err, ◌==◌, string_eq, Bool-cases, Option-cases,
}
use indexer_rs.Base.Effects.{Result-cases}
use indexer_rs.Domain.{Address, Hash}
use indexer_rs.Db.Schema.{AddressRow}
use indexer_rs.Db.Session.{Session, query, execute}
use indexer_rs.Db.Addresses.{classify_rows, classify}
use indexer_rs.Db.Runs.{Runs-execute, execute-failed, query-cases}
use indexer_rs.Sync.World.{World, SyncError, db_result, sql}
use indexer_rs.Sync.ContractDetect.{
  Codes, no_code, unclassified_batch, verdict, classify_one, next_flag, sweep, Tick, swept,
  run_contract_detector,
}

-- What the calls of all ticks have in common.
pub record Chain : Type 0 where
  pub from_str : String → Option (List ℕ)
  pub keccak : List ℕ → Hash
  pub code_at : List ℕ → List ℕ

-- A call may fail, but an answer is the account's code.
pub record Honest (c : Chain) (codes : Codes) : Type 0 where
  pub from_str : codes.from_str ≡ c.from_str
  pub keccak : codes.keccak ≡ c.keccak
  pub get_code : (a x : List ℕ) → codes.get_code a ≡ ok x → x ≡ c.code_at a

-- What must be recorded of a code: an account without code has the hash text "0x", and one with code the
-- hash of it.
abbrev pub judged : (List ℕ → Hash) → List ℕ → Bool × Hash
judged keccak [] = (false, "0x")
judged keccak (x ∷ code) = (true, keccak (x ∷ code))

abbrev pub expected : Chain → Address → Bool × Hash
expected c a = elim (c.from_str a) [ none ↦ (false, "0x") | some p ↦ judged c.keccak (c.code_at p) ]

verdict-judged : (codes : Codes) (code : List ℕ) → verdict codes code ≡ judged codes.keccak code
verdict-judged codes [] = refl
verdict-judged codes (x ∷ code) = refl

-- A row that is classified says whether the account has code, and its hash.
abbrev pub IsRight : Chain → AddressRow → Type 0
IsRight c r = elim r.code_hash [
  | none ↦ Unit {0}
  | some h ↦ (r.is_contract ≡ (expected c r.address).0) × (h ≡ (expected c r.address).1)
]

abbrev pub AllRight : Chain → World → Type 0
AllRight c w = All (IsRight c) w.db.addresses

module _ (c : Chain) where
  classify_rows-AllRight :
      (a : Address) (rows : List AddressRow)
      → All (IsRight c) rows
      → All (IsRight c) (classify_rows a (expected c a).0 (expected c a).1 rows)
  unfolding classify_rows
  classify_rows-AllRight a [] h = tt
  classify_rows-AllRight a (r ∷ rows) h = elim (Bool-cases (r.address == a)) [
    | inl same ↦
        let e = (string_eq.same_iff r.address a).0 same in
        rw same (
          (
            ap (λ (x : Address). (expected c x).0) (sym e),
            ap (λ (x : Address). (expected c x).1) (sym e),
          ),
          classify_rows-AllRight a rows h.1,
        )
    | inr other ↦ rw other (h.0, classify_rows-AllRight a rows h.1)
  ]

  execute-classify-AllRight :
      (a : Address) (v : Bool × Hash) (s : Session)
      → v ≡ expected c a
      → All (IsRight c) s.db.addresses
      → All (IsRight c) (execute (classify a v.0 v.1) s).1.db.addresses
  unfolding classify
  execute-classify-AllRight a v s is_expected h =
      elim (Result-cases (execute (classify a v.0 v.1) s).0) [
        | inr (e, fails) ↦ rw (execute-failed (classify a v.0 v.1) s e fails) h
        | inl (u, done) ↦
            let ran = (Runs-execute (classify a v.0 v.1)).sound s done in
            let rows : (execute (classify a v.0 v.1) s).1.db.addresses
                ≡ classify_rows a (expected c a).0 (expected c a).1 s.db.addresses =
              ground (arith, ran, is_expected) in
            rw rows (classify_rows-AllRight a s.db.addresses h)
      ]

  classify_one-AllRight :
      (codes : Codes) (addr : Address) (w : World)
      → Honest c codes
      → AllRight c w
      → AllRight c (classify_one codes addr w).1
  unfolding classify_one sql
  classify_one-AllRight codes addr w honest h = elim (Option-cases (codes.from_str addr)) [
    | inl no_address ↦
        rw (classify_one, no_address)
          (execute-classify-AllRight addr (false, no_code) w.session
            (ground (arith, no_address, honest.from_str)) h)
    | inr (p, parsed) ↦ elim (Result-cases (codes.get_code p)) [
      | inr (e, fails) ↦ rw (classify_one, parsed, fails) h
      | inl (x, answered) ↦
          let known : verdict codes x ≡ expected c addr =
            verdict-judged codes x
            ∙ ground
                (arith, parsed, honest.from_str, honest.keccak, honest.get_code p x answered) in
          rw (classify_one, parsed, answered)
            (execute-classify-AllRight addr (verdict codes x) w.session known h)
    ]
  ]

  sweep-AllRight :
      (codes : Codes) (candidates : List Address) (cancels : List Bool) (w : World)
      → Honest c codes
      → AllRight c w
      → AllRight c (sweep codes candidates cancels w).1
  unfolding sweep
  sweep-AllRight codes [] cancels w honest h = h
  sweep-AllRight codes (addr ∷ candidates) cancels w honest h =
      let after =
        sweep-AllRight codes candidates (next_flag cancels).1 _ honest
          (classify_one-AllRight codes addr w honest h) in
      elim (Bool-cases (next_flag cancels).0) [ inl fired ↦ rw fired h | inr runs ↦ rw runs after ]

  swept-AllRight :
      (t : Tick) (again : World → Result SyncError Bool × World)
      (r : Result SyncError (List Address)) (w : World)
      → Honest c t.codes
      → ((v : World) → AllRight c v → AllRight c (again v).1)
      → AllRight c w
      → AllRight c (swept t.codes t.cancels again (r, w)).1
  swept-AllRight t again (err e) w honest next h = h
  swept-AllRight t again (ok batch) w honest next h =
      let after = sweep-AllRight t.codes batch t.cancels w honest h in
      elim (Bool-cases (sweep t.codes batch t.cancels w).0) [
        | inl runs ↦ rw runs (next _ after)
        | inr fired ↦ rw fired after
      ]

  -- Let the answers of every tick be the chain's: the address parser and keccak are the same in all ticks,
  -- and where eth_getCode answers, it answers the account's code. Then, if each classified row says whether
  -- its account has code and the hash of it ("0x" for an account without code or a text that is no address),
  -- so does each classified row after the detector, in every run of it:
  -- whichever calls and round trips fail, and whenever the token is cancelled.
  pub run_contract_detector-AllRight :
      (batch : ℕ) (ticks : List Tick) (w : World)
      → All (λ (t : Tick). Honest c t.codes) ticks
      → AllRight c w
      → AllRight c (run_contract_detector batch ticks w).1
  unfolding run_contract_detector sql
  run_contract_detector-AllRight batch [] w honest h = h
  run_contract_detector-AllRight batch (t ∷ ticks) w honest h =
      elim (Bool-cases t.cancelled_before) [
        | inl fired ↦ rw fired h
        | inr runs ↦
            let asked = query (unclassified_batch batch) w.session in
            let same : asked.1.db ≡ w.db = (query-cases (unclassified_batch batch) w.session).1 in
            rw runs (
              swept-AllRight t (run_contract_detector batch ticks) (db_result asked.0)
                (record w { session = asked.1 }) honest.0
                (λ v g. run_contract_detector-AllRight batch ticks v honest.1 g) (rw same h))
      ]
