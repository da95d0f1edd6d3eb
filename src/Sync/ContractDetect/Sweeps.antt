-- ===== src/Sync/ContractDetect/Sweeps.antt =====
-- How fast the detector works through the addresses that nobody has classified yet.
use indexer_rs.Base.{
  ◌≡◌, refl, ap, ◌∙◌, inl, inr, ℕ, zero, suc, ◌-◌, ◌*◌, ◌≤◌, Bool, true, false, not, List, [], ◌∷◌,
  map, arith, All, keep, take, length, ok, ◌==◌, ==_self, string_eq, Option-cases,
}
use indexer_rs.Domain.{Address, Hash}
use indexer_rs.Db.Schema.{Db, DbResult, AddressRow}
use indexer_rs.Db.Session.{Session, query, execute}
use indexer_rs.Db.Addresses.{classify_rows, classify}
use indexer_rs.Sync.World.{World, sql}
use indexer_rs.Sync.ContractDetect.{
  Codes, no_code, unclassified, unclassified_batch, verdict, classify_one, sweep, Tick,
  run_contract_detector,
}

-- Every address that parses has an answer of eth_getCode.
abbrev pub Answers : Codes → Type 0
Answers codes = (p : List ℕ) → (x : List ℕ) × (codes.get_code p ≡ ok x)

abbrev pub waiting : World → List AddressRow
waiting w = keep unclassified w.db.addresses

abbrev pub Quiet : World → Type 0
Quiet w = w.faults ≡ []

abbrev avoid : Address → List AddressRow → List AddressRow
avoid a rows = keep (λ (r : AddressRow). not (r.address == a)) rows

abbrev drops : List Address → List AddressRow → List AddressRow
drops [] rows = rows
drops (a ∷ addresses) rows = drops addresses (avoid a rows)

keep-keep :
    (p q : AddressRow → Bool) (rows : List AddressRow) → keep p (keep q rows) ≡ keep q (keep p rows)
keep-keep p q [] = refl
keep-keep p q (r ∷ rows) = ground (arith, keep-keep p q rows)

length-keep-le :
    (p : AddressRow → Bool) (rows : List AddressRow) → length (keep p rows) ≤ length rows
length-keep-le p [] = omega arith
length-keep-le p (r ∷ rows) = ground (arith, length-keep-le p rows)

drops-keep :
    (addresses : List Address) (p : AddressRow → Bool) (rows : List AddressRow)
    → drops addresses (keep p rows) ≡ keep p (drops addresses rows)
drops-keep [] p rows = refl
drops-keep (a ∷ addresses) p rows =
    ap (drops addresses) (keep-keep (λ (r : AddressRow). not (r.address == a)) p rows)
    ∙ drops-keep addresses p (avoid a rows)

abbrev address_of : AddressRow → Address
address_of r = r.address

avoid_self :
    (r : AddressRow) (rows : List AddressRow) → avoid r.address (r ∷ rows) ≡ avoid r.address rows
avoid_self r rows = rw (==_self r.address) refl

length-drops-le :
    (n : ℕ) (rows : List AddressRow)
    → length (drops (take n (map address_of rows)) rows) ≤ length rows - n
length-drops-le n [] = omega arith
length-drops-le zero (r ∷ rows) = omega arith
length-drops-le (suc n) (r ∷ rows) =
    let later = take n (map address_of rows) in
    let other = λ (q : AddressRow). not (q.address == r.address) in
    omega (
      arith,
      ap (λ (rows' : List AddressRow). length (drops later rows')) (avoid_self r rows),
      ap length (drops-keep later other rows),
      length-keep-le other (drops later rows),
      length-drops-le n rows,
    )

-- Classifying an address takes its rows out of those that wait.
waiting-classify_rows :
    (a : Address) (is_contract : Bool) (h : Hash) (rows : List AddressRow)
    → keep unclassified (classify_rows a is_contract h rows) ≡ avoid a (keep unclassified rows)
unfolding classify_rows
waiting-classify_rows a is_contract h [] = refl
waiting-classify_rows a is_contract h (r ∷ rows) = elim (Option-cases r.code_hash) [
  | inl new ↦ ground (arith, new, waiting-classify_rows a is_contract h rows)
  | inr (x, old) ↦ ground (arith, old, waiting-classify_rows a is_contract h rows)
]

query-quiet :
    {A : Type 0} (f : Db → DbResult A) (s : Session) → s.faults ≡ [] → query f s ≡ (f s.db, s)
unfolding query
query-quiet f s quiet = ground arith

execute-quiet :
    (a : Address) (v : Bool × Hash) (s : Session)
    → s.faults ≡ []
    → (keep unclassified (execute (classify a v.0 v.1) s).1.db.addresses
        ≡ avoid a (keep unclassified s.db.addresses))
      × ((execute (classify a v.0 v.1) s).1.faults ≡ [])
unfolding execute classify
execute-quiet a v s quiet = ground (arith, waiting-classify_rows a v.0 v.1 s.db.addresses)

classify_one-Quiet :
    (codes : Codes) (addr : Address) (w : World)
    → Answers codes
    → Quiet w
    → (waiting (classify_one codes addr w).1 ≡ avoid addr (waiting w))
      × Quiet (classify_one codes addr w).1
unfolding classify_one sql
classify_one-Quiet codes addr w answers quiet = elim (Option-cases (codes.from_str addr)) [
  | inl no_address ↦
      rw (classify_one, no_address) (execute-quiet addr (false, no_code) w.session quiet)
  | inr (p, parsed) ↦
      let (x, answered) = answers p in
      rw (classify_one, parsed, answered) (execute-quiet addr (verdict codes x) w.session quiet)
]

sweep-Quiet :
    (codes : Codes) (candidates : List Address) (w : World)
    → Answers codes
    → Quiet w
    → ((sweep codes candidates [] w).0 ≡ true)
      × (waiting (sweep codes candidates [] w).1 ≡ drops candidates (waiting w))
      × Quiet (sweep codes candidates [] w).1
unfolding sweep
sweep-Quiet codes [] w answers quiet = (refl, refl, quiet)
sweep-Quiet codes (addr ∷ candidates) w answers quiet =
    let one = classify_one-Quiet codes addr w answers quiet in
    let rest = sweep-Quiet codes candidates (classify_one codes addr w).1 answers one.1 in
    (rest.0, rest.1 ∙ ap (drops candidates) one.0, rest.2)

-- A tick that is neither cancelled nor left without an answer.
abbrev pub Serves : Tick → Type 0
Serves t = (t.cancelled_before ≡ false) × (t.cancels ≡ []) × Answers t.codes

-- Let no round trip to the database fail, let the token never be cancelled, and let eth_getCode answer in
-- every tick. Then the detector runs through its ticks, and the rows without a classification fall by at
-- least `batch` in each, or to none.
pub run_contract_detector_drains :
    (batch : ℕ) (ticks : List Tick) (w : World)
    → Quiet w
    → All Serves ticks
    → ((run_contract_detector batch ticks w).0 ≡ ok true)
      × (length (waiting (run_contract_detector batch ticks w).1)
          ≤ length (waiting w) - batch * length ticks)
unfolding run_contract_detector sql query unclassified_batch
run_contract_detector_drains batch [] w quiet serves = (refl, omega arith)
run_contract_detector_drains batch (t ∷ ticks) w quiet (serves, later) =
    let batched = take batch (map address_of (waiting w)) in
    let asked = query-quiet (unclassified_batch batch) w.session quiet in
    let (goes_on, left, quiet') = sweep-Quiet t.codes batched w serves.2 quiet in
    let rest = run_contract_detector_drains batch ticks _ quiet' later in
    let step : run_contract_detector batch (t ∷ ticks) w
        ≡ run_contract_detector batch ticks (sweep t.codes batched [] w).1 =
      ground (arith, asked, goes_on, serves.0, serves.1) in
    rw step (rest.0, omega (arith, rest.1, ap length left, length-drops-le batch (waiting w)))
