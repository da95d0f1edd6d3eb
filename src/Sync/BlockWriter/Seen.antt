-- ===== src/Sync/BlockWriter/Seen.antt =====
-- What a written bundle leaves in the registry of addresses.
use indexer_rs.Base.{
  ◌≡◌, refl, ◌∙◌, ℤ, ◌≤ℤ◌, min_ℤ, Option, none, some, List, [], ◌∷◌, arith, All, All-map, inl, inr,
  string_eq, ◌==◌, ==_self, Bool-cases, false,
}
use indexer_rs.Domain.{Address, Transaction}
use indexer_rs.Db.Table.{find}
use indexer_rs.Db.Schema.{AddressRow}
use indexer_rs.Db.Addresses.{upsert_address, upsert_all}
use indexer_rs.Sync.BlockWriter.{tx_addresses, note_address, note_receiver, note_txs}

abbrev pub address_key : AddressRow → Address
address_key r = r.address

abbrev pub sighting_key : Address × ℤ → Address
sighting_key s = s.0

abbrev pub row_of : Address → List AddressRow → Option AddressRow
row_of a rows = find address_key a rows

-- How the first block of a row stands to an earlier row of the address: it is kept, and without an earlier
-- row it is no later than the sighting.
abbrev pub FirstSeen : Option AddressRow → ℤ → AddressRow → Type 0
FirstSeen none h r = r.first_seen_block ≤ℤ h
FirstSeen (some old) h r = r.first_seen_block ≡ old.first_seen_block

-- The registry has a row for an address that was sighted at a height.
abbrev pub Seen : List AddressRow → List AddressRow → ℤ → Address → Type 0
Seen before after h a =
    (r : AddressRow) × (row_of a after ≡ some r) × FirstSeen (row_of a before) h r

abbrev pub SeenReceiver : List AddressRow → List AddressRow → ℤ → Option Address → Type 0
SeenReceiver before after h none = Unit
SeenReceiver before after h (some a) = Seen before after h a

-- The sender and the receiver of a transaction are in the registry.
abbrev pub SeenBy : List AddressRow → List AddressRow → Transaction → Type 0
SeenBy before after t =
    Seen before after t.block_height t.from_addr
    × SeenReceiver before after t.block_height t.to_addr

-- The row of an address keeps its first block.
abbrev Keeps : AddressRow → Option AddressRow → Type 0
Keeps r o = (r' : AddressRow) × (o ≡ some r') × (r'.first_seen_block ≡ r.first_seen_block)

upsert-Keeps :
    (a : Address) (p : Address × ℤ) (rows : List AddressRow) (r : AddressRow)
    → row_of a rows ≡ some r
    → Keeps r (row_of a (upsert_address p rows))
unfolding upsert_address find
upsert-Keeps a p [] r e = absurd (ground arith)
upsert-Keeps a (b, k) (q ∷ rows) r e = elim (Bool-cases (q.address == b)) [
  | inl hit ↦ rw hit (elim (Bool-cases (q.address == a)) [
    | inl same ↦ rw same (_, refl, ground (arith, rw same at e))
    | inr other ↦ rw other (r, rw other at e, refl)
  ])
  | inr miss ↦ rw miss (elim (Bool-cases (q.address == a)) [
    | inl same ↦ rw same (r, rw same at e, refl)
    | inr other ↦ rw other (upsert-Keeps a (b, k) rows r (rw other at e))
  ])
]

upsert_all-Keeps :
    (a : Address) (seen : List (Address × ℤ)) (rows : List AddressRow) (r : AddressRow)
    → row_of a rows ≡ some r
    → Keeps r (row_of a (upsert_all seen rows))
unfolding upsert_all
upsert_all-Keeps a [] rows r e = (r, e, refl)
upsert_all-Keeps a (p ∷ seen) rows r e =
    let (r1, e1, same1) = upsert-Keeps a p rows r e in
    let (r2, e2, same2) = upsert_all-Keeps a seen (upsert_address p rows) r1 e1 in
    (r2, e2, same2 ∙ same1)

upsert-new :
    (a : Address) (k : ℤ) (rows : List AddressRow)
    → row_of a rows ≡ none
    → (r : AddressRow) × (row_of a (upsert_address (a, k) rows) ≡ some r) × (r.first_seen_block ≡ k)
unfolding upsert_address find
upsert-new a k [] e = rw (==_self a) (_, refl, refl)
upsert-new a k (q ∷ rows) e = elim (Bool-cases (q.address == a)) [
  | inl same ↦ absurd (ground (arith, e, same))
  | inr other ↦ rw other (rw other (upsert-new a k rows (rw other at e)))
]

upsert-other :
    (a b : Address) (k : ℤ) (rows : List AddressRow)
    → (b == a) ≡ false
    → row_of a (upsert_address (b, k) rows) ≡ row_of a rows
unfolding upsert_address find
upsert-other a b k [] ne = rw ne refl
upsert-other a b k (q ∷ rows) ne = elim (Bool-cases (q.address == b)) [
  | inl hit ↦
      let is : q.address ≡ b = (string_eq.same_iff q.address b).0 hit in
      let ne' : (q.address == a) ≡ false = rw is ne in rw (hit, ne') refl
  | inr miss ↦ rw miss (elim (Bool-cases (q.address == a)) [
    | inl same ↦ rw same refl
    | inr other ↦ rw other (upsert-other a b k rows ne)
  ])
]

-- A new address gets the height of its sighting.
upsert_all-new :
    (a : Address) (k : ℤ) (seen : List (Address × ℤ)) (rows : List AddressRow)
    → find sighting_key a seen ≡ some (a, k)
    → row_of a rows ≡ none
    → (r : AddressRow) × (row_of a (upsert_all seen rows) ≡ some r) × (r.first_seen_block ≡ k)
unfolding upsert_all find
upsert_all-new a k [] rows e fresh = absurd (ground arith)
upsert_all-new a k ((b, j) ∷ seen) rows e fresh = elim (Bool-cases (b == a)) [
  | inl same ↦
      let head : ◌≡◌ {A = Option (Address × ℤ)} (some (b, j)) (some (a, k)) = rw same at e in
      let is : b ≡ a = ground (arith, head) in
      let at : j ≡ k = ground (arith, head) in
      let (r, there, first) = upsert-new a k rows fresh in
      let (r', there', kept) = upsert_all-Keeps a seen (upsert_address (a, k) rows) r there in
      rw (is, at) (r', there', kept ∙ first)
  | inr other ↦
      upsert_all-new a k seen (upsert_address (b, j) rows) (rw other at e)
        (upsert-other a b j rows other ∙ fresh)
]

-- The list of sightings has an address at a height or before it.
abbrev Noted : ℤ → Address → List (Address × ℤ) → Type 0
Noted h a seen = (k : ℤ) × (find sighting_key a seen ≡ some (a, k)) × (k ≤ℤ h)

note-Noted : (a : Address) (h : ℤ) (seen : List (Address × ℤ)) → Noted h a (note_address a h seen)
unfolding note_address find
note-Noted a h [] = rw (==_self a) (h, refl, omega arith)
note-Noted a h ((b, k) ∷ seen) = elim (Bool-cases (b == a)) [
  | inl same ↦
      let is : b ≡ a = (string_eq.same_iff b a).0 same in
      rw same (rw same (min_ℤ k h, rw is refl, ground arith))
  | inr other ↦ rw other (rw other (note-Noted a h seen))
]

keep-Noted :
    (a b : Address) (h j : ℤ) (seen : List (Address × ℤ))
    → Noted h a seen
    → Noted h a (note_address b j seen)
unfolding note_address find
keep-Noted a b h j [] (k, e, le) = absurd (ground (arith, e))
keep-Noted a b h j ((c, i) ∷ seen) (k, e, le) = elim (Bool-cases (c == b)) [
  | inl hit ↦ rw hit (elim (Bool-cases (c == a)) [
    | inl same ↦
        let head : ◌≡◌ {A = Option (Address × ℤ)} (some (c, i)) (some (a, k)) = rw same at e in
        let is : c ≡ a = ground (arith, head) in
        let at : i ≡ k = ground (arith, head) in
        rw same (min_ℤ i j, rw is refl, rw at (ground arith))
    | inr other ↦ rw other (k, rw other at e, le)
  ])
  | inr miss ↦ rw miss (elim (Bool-cases (c == a)) [
    | inl same ↦ rw same (k, rw same at e, le)
    | inr other ↦ rw other (keep-Noted a b h j seen (k, rw other at e, le))
  ])
]

keep_receiver-Noted :
    (a : Address) (to : Option Address) (h j : ℤ) (seen : List (Address × ℤ))
    → Noted h a seen
    → Noted h a (note_receiver to j seen)
unfolding note_receiver
keep_receiver-Noted a none h j seen n = n
keep_receiver-Noted a (some b) h j seen n = keep-Noted a b h j seen n

keep_txs-Noted :
    (a : Address) (h : ℤ) (txs : List Transaction) (seen : List (Address × ℤ))
    → Noted h a seen
    → Noted h a (note_txs txs seen)
unfolding note_txs
keep_txs-Noted a h [] seen n = n
keep_txs-Noted a h (t ∷ txs) seen n = keep_txs-Noted a h txs _ (
    keep_receiver-Noted a t.to_addr h t.block_height _
      (keep-Noted a t.from_addr h t.block_height seen n))

NotedReceiver : ℤ → Option Address → List (Address × ℤ) → Type 0
NotedReceiver h none seen = Unit
NotedReceiver h (some a) seen = Noted h a seen

note_txs-All :
    (txs : List Transaction) (seen : List (Address × ℤ))
    → All
        (λ (t : Transaction).
          Noted t.block_height t.from_addr (note_txs txs seen)
          × NotedReceiver t.block_height t.to_addr (note_txs txs seen))
        txs
unfolding note_txs note_receiver NotedReceiver
note_txs-All [] seen = tt
note_txs-All (t ∷ txs) seen =
    let h = t.block_height in
    let from = note_address t.from_addr h seen in
    (
      (
        keep_txs-Noted t.from_addr h txs _
            (keep_receiver-Noted t.from_addr t.to_addr h h from (note-Noted t.from_addr h seen)),
        receiver t.to_addr,
      ),
      note_txs-All txs _,
    )
  where
    receiver :
        (to : Option Address)
        → NotedReceiver t.block_height to (
            note_txs txs
              (note_receiver to t.block_height (note_address t.from_addr t.block_height seen)))
    receiver none = tt
    receiver (some a) =
        keep_txs-Noted a t.block_height txs _
          (note-Noted a t.block_height (note_address t.from_addr t.block_height seen))

Noted-Seen :
    (h : ℤ) (a : Address) (seen : List (Address × ℤ)) (rows : List AddressRow)
    → Noted h a seen
    → Seen rows (upsert_all seen rows) h a
Noted-Seen h a seen rows (k, e, le) = by_row (row_of a rows) refl
  where
    by_row :
        (o : Option AddressRow)
        → row_of a rows ≡ o
        → (r : AddressRow) × (row_of a (upsert_all seen rows) ≡ some r) × FirstSeen o h r
    by_row none fresh =
        let (r, there, first) = upsert_all-new a k seen rows e fresh in (r, there, rw first le)
    by_row (some old) stood = upsert_all-Keeps a seen rows old stood

-- After the sightings of a list of transactions, each sender and receiver is in the registry.
pub note_txs-SeenBy :
    (txs : List Transaction) (rows : List AddressRow)
    → All (SeenBy rows (upsert_all (tx_addresses txs) rows)) txs
unfolding tx_addresses NotedReceiver
note_txs-SeenBy txs rows =
    All-map _ _ txs
      (λ t n. (
        Noted-Seen t.block_height t.from_addr (tx_addresses txs) rows n.0,
        receiver t.block_height t.to_addr n.1,
      ))
      (note_txs-All txs [])
  where
    receiver :
        (h : ℤ) (to : Option Address)
        → NotedReceiver h to (tx_addresses txs)
        → SeenReceiver rows (upsert_all (tx_addresses txs) rows) h to
    receiver h none n = tt
    receiver h (some a) n = Noted-Seen h a (tx_addresses txs) rows n
