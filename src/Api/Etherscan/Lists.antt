-- ===== src/Api/Etherscan/Lists.antt =====
-- `txlist`: what it refuses, and which transactions it lists.
use indexer_rs.Base.{
  ◌≡◌, ◌↔◌, refl, ap, ◌∙◌, ◌⊎◌, inl, inr, ℕ, ℤ, pos, pos_part, ◌≤◌, ◌≤ℤ◌, String, Bool, true, false,
  Option, none, some, List, [], ◌∷◌, map, keep, length, arith, All, ok, ◌==◌, string_eq, Bool-cases,
  ◌||◌, leb_ℤ, max_ℤ, min_ℤ, if◌then◌else◌,
}
use Prim.Native.String.{◌++◌ as ◌+++◌}
use indexer_rs.Base.Text.{to_lowercase, parse_i64}
use indexer_rs.Domain.{Address, Transaction}
use indexer_rs.Db.Extended.{Among}
use indexer_rs.Db.Schema.{Db, DbResult}
use indexer_rs.Api.Listing.{order_desc, Descending, order_desc-Descending}
use indexer_rs.Api.Listing.Pages.{take-Descending, length-take-le}
use indexer_rs.Api.Listing.Members.{
  keep-Among, Among-keep, order-Among, Among-order, take-Among, Among-take,
}
use indexer_rs.Api.Etherscan.{
  EsQuery, EsEnvelope, rows, refuse, or_int, es_ok, es_err, is_unsupported, unsupported,
  window_params, join, touches, height_of_tx, for_address, es_tx, page_size, txlist,
}

-- A bound of the window that asks for nothing: missing, empty or "0".
abbrev pub Plain : Option String → Type 0
Plain none = Unit
Plain (some s) = (s ≡ "") ⊎ (s ≡ "0")

-- A page that asks for the first one.
abbrev pub FirstPage : Option String → Type 0
FirstPage page = Plain page ⊎ (page ≡ some "1")

-- The parameters that a query names and that the shim cannot honour, by their names.
abbrev pub Named : EsQuery → String → Type 0
Named q name =
    ((name ≡ "startblock") × ¬ Plain q.start_block)
    ⊎ ((name ≡ "endblock") × ¬ Plain q.end_block)
    ⊎ ((name ≡ "page") × ¬ FirstPage q.page)

abbrev flagged : String → Option String → Bool
flagged name none = false
flagged name (some s) = is_unsupported name s

bound-cases :
    (name : String) (o : Option String)
    → (name == "page") ≡ false
    → ((flagged name o ≡ true) × ¬ Plain o) ⊎ ((flagged name o ≡ false) × Plain o)
bound-cases name none bound = inr (refl, tt)
bound-cases name (some s) bound = elim (Bool-cases (s == "")) [
  | inl e ↦ rw e (inr (refl, inl ((string_eq.same_iff s "").0 e)))
  | inr filled ↦ elim (Bool-cases (s == "0")) [
    | inl e ↦ rw (filled, e) (inr (refl, inr ((string_eq.same_iff s "0").0 e)))
    | inr given ↦ rw (filled, given, bound) (inl (refl, λ p. asks p filled given))
  ]
]
  where
    asks : Plain (some s) → (s == "") ≡ false → (s == "0") ≡ false → ⊥
    asks (inl e) filled given = ground (arith, (string_eq.same_iff s "").1 e)
    asks (inr e) filled given = ground (arith, (string_eq.same_iff s "0").1 e)

page-cases :
    (o : Option String)
    → ((flagged "page" o ≡ true) × ¬ FirstPage o) ⊎ ((flagged "page" o ≡ false) × FirstPage o)
page-cases none = inr (refl, inl tt)
page-cases (some s) = elim (Bool-cases (s == "")) [
  | inl e ↦ rw e (inr (refl, inl (inl ((string_eq.same_iff s "").0 e))))
  | inr filled ↦ elim (Bool-cases (s == "0")) [
    | inl e ↦ rw (filled, e) (inr (refl, inl (inr ((string_eq.same_iff s "0").0 e))))
    | inr given ↦ elim (Bool-cases (s == "1")) [
      | inl e ↦
          rw (filled, given, e)
            (inr (refl, inr (ap (λ (x : String). some x) ((string_eq.same_iff s "1").0 e))))
      | inr later ↦ rw (filled, given, later) (inl (refl, λ p. asks p filled given later))
    ]
  ]
]
  where
    asks : FirstPage (some s) → (s == "") ≡ false → (s == "0") ≡ false → (s == "1") ≡ false → ⊥
    asks (inl (inl e)) filled given later = ground (arith, (string_eq.same_iff s "").1 e)
    asks (inl (inr e)) filled given later = ground (arith, (string_eq.same_iff s "0").1 e)
    asks (inr e) filled given later =
        let is : s ≡ "1" = ground (arith, e) in ground (arith, (string_eq.same_iff s "1").1 is)

unsupported-cons :
    (name : String) (o : Option String) (params : List (String × Option String))
    → unsupported ((name, o) ∷ params)
      ≡ (if flagged name o then name ∷ unsupported params else unsupported params)
unfolding unsupported
unsupported-cons name none params = refl
unsupported-cons name (some s) params = refl

-- The names that a list of flags leaves.
abbrev left : Bool → String → List String → List String
left flag name names = if flag then name ∷ names else names

Among-left :
    (flag : Bool) (name : String) (names : List String) (n : String)
    → Among (left flag name names) n
    → ((flag ≡ true) × (n ≡ name)) ⊎ Among names n
Among-left true name names n (inl same) = inl (refl, same)
Among-left true name names n (inr later) = inr later
Among-left false name names n m = inr m

left-here :
    (flag : Bool) (name : String) (names : List String)
    → flag ≡ true
    → Among (left flag name names) name
left-here flag name names on = rw on (inl refl)

left-later :
    (flag : Bool) (name n : String) (names : List String)
    → Among names n
    → Among (left flag name names) n
left-later true name n names m = inr m
left-later false name n names m = m

abbrev refused : EsQuery → List String
refused q =
    left (flagged "startblock" q.start_block) "startblock"
      (left (flagged "endblock" q.end_block) "endblock" (left (flagged "page" q.page) "page" []))

refused-eq : (q : EsQuery) → unsupported (window_params q) ≡ refused q
unfolding unsupported
refused-eq q =
    unsupported-cons "startblock" q.start_block _
    ∙ (ap (left (flagged "startblock" q.start_block) "startblock") (
        unsupported-cons "endblock" q.end_block _
        ∙ ap (left (flagged "endblock" q.end_block) "endblock")
            (unsupported-cons "page" q.page [])))

refused-Named : (q : EsQuery) (n : String) → Among (refused q) n → Named q n
refused-Named q n m = elim (Among-left (flagged "startblock" q.start_block) "startblock" _ n m) [
  | inl (on, is) ↦ inl (
    is,
    elim (bound-cases "startblock" q.start_block refl) [
      | inl (_, asks) ↦ asks
      | inr (off, _) ↦ absurd (ground (arith, on, off))
    ],
  )
  | inr m1 ↦ elim (Among-left (flagged "endblock" q.end_block) "endblock" _ n m1) [
    | inl (on, is) ↦ inr (
        inl (
          is,
          elim (bound-cases "endblock" q.end_block refl) [
            | inl (_, asks) ↦ asks
            | inr (off, _) ↦ absurd (ground (arith, on, off))
          ],
        ))
    | inr m2 ↦ elim (Among-left (flagged "page" q.page) "page" [] n m2) [
      | inl (on, is) ↦ inr (
          inr (
            is,
            elim (page-cases q.page) [
              | inl (_, asks) ↦ asks
              | inr (off, _) ↦ absurd (ground (arith, on, off))
            ],
          ))
      | inr nothing ↦ absurd nothing
    ]
  ]
]

Named-refused : (q : EsQuery) (n : String) → Named q n → Among (refused q) n
Named-refused q n (inl (is, asks)) = elim (bound-cases "startblock" q.start_block refl) [
  | inl (on, _) ↦ rw is (left-here (flagged "startblock" q.start_block) "startblock" _ on)
  | inr (_, plain) ↦ absurd (asks plain)
]
Named-refused q n (inr (inl (is, asks))) = elim (bound-cases "endblock" q.end_block refl) [
  | inl (on, _) ↦
      left-later (flagged "startblock" q.start_block) "startblock" n _
        (rw is (left-here (flagged "endblock" q.end_block) "endblock" _ on))
  | inr (_, plain) ↦ absurd (asks plain)
]
Named-refused q n (inr (inr (is, asks))) = elim (page-cases q.page) [
  | inl (on, _) ↦ left-later (flagged "startblock" q.start_block) "startblock" n _ (
      left-later (flagged "endblock" q.end_block) "endblock" n _
        (rw is (left-here (flagged "page" q.page) "page" [] on)))
  | inr (_, plain) ↦ absurd (asks plain)
]

-- A query with an address that names a parameter which the shim cannot honour, a block bound that is not
-- empty or "0" or a page that is not empty, "0" or "1", is refused, whatever the tables hold and whether
-- they can be read: the answer is an error whose message lists these parameters and no others.
pub txlist_refuses :
    (pg : DbResult Db) (q : EsQuery) (addr : Address) (name : String)
    → q.address ≡ some addr
    → Named q name
    → (names : List String) × ((n : String) → Among names n ↔ Named q n)
      × (txlist pg q ≡ es_err ("param not supported: " +++ join names))
unfolding txlist
txlist_refuses pg q addr name given asks = (
  refused q,
  λ n. (refused-Named q n, Named-refused q n),
  rw (txlist, given, refused-eq q) (refuses (refused q) (Named-refused q name asks) _),
)
  where
    refuses :
        (names : List String)
        → Among names name
        → (answer : EsEnvelope)
        → refuse names answer ≡ es_err ("param not supported: " +++ join names)
    refuses [] m answer = absurd m
    refuses (n ∷ names) m answer = refl

-- The transaction is from or to the address.
abbrev pub Party : Address → Transaction → Type 0
Party addr t = (t.from_addr ≡ addr) ⊎ (t.to_addr ≡ some addr)

touches-Party : (addr : Address) (t : Transaction) → touches addr t ≡ true → Party addr t
touches-Party addr t h = elim (Bool-cases (t.from_addr == addr)) [
  | inl from ↦ inl ((string_eq.same_iff t.from_addr addr).0 from)
  | inr other ↦ inr (by_receiver t.to_addr (rw other at h))
]
  where
    by_receiver :
        (to : Option Address)
        → elim to [ none ↦ false | some a ↦ a == addr ] ≡ true
        → to ≡ some addr
    by_receiver none e = absurd (ground arith)
    by_receiver (some a) e = ap (λ (x : Address). some x) ((string_eq.same_iff a addr).0 e)

Party-touches : (addr : Address) (t : Transaction) → Party addr t → touches addr t ≡ true
Party-touches addr t (inl from) = rw ((string_eq.same_iff t.from_addr addr).1 from) refl
Party-touches addr t (inr to) =
    rw to (by_sender (t.from_addr == addr) ((string_eq.same_iff addr addr).1 refl))
  where
    by_sender : (b : Bool) → (addr == addr) ≡ true → (b || (addr == addr)) ≡ true
    by_sender true e = refl
    by_sender false e = e

-- The page size that a query asks for: 25 if it says none that can be read, and else between 1 and 100.
abbrev pub between_1_100 : ℤ → ℤ
between_1_100 n = if leb_ℤ n (pos 1) then pos 1 else if leb_ℤ n (pos 100) then n else pos 100

abbrev pub asked_size : Option String → ℤ
asked_size none = pos 25
asked_size (some s) = elim (parse_i64 s) [ none ↦ pos 25 | some n ↦ between_1_100 n ]

page_size-asked : (offset : Option String) → page_size offset ≡ asked_size offset
unfolding page_size
page_size-asked none = refl
page_size-asked (some s) = by_value (parse_i64 s)
  where
    by_value :
        (n : Option ℤ)
        → max_ℤ (pos 1) (min_ℤ (pos 100) (or_int (pos 25) n))
          ≡ elim n [ none ↦ pos 25 | some k ↦ between_1_100 k ]
    by_value none = refl
    by_value (some n) = ground arith

-- The rows are the newest `n` transactions of the address: each is stored and from or to it, they are newest
-- first, and a stored transaction of the address that is missing is no newer than any of them, with the
-- page full.
pub record Newest (db : Db) (addr : Address) (n : ℕ) (txs : List Transaction) : Type 0 where
  pub bounded : length txs ≤ n
  pub newest_first : Descending height_of_tx txs
  pub sound : (t : Transaction) → Among txs t → Among db.transactions t × Party addr t
  pub complete :
      (t : Transaction)
      → Among db.transactions t
      → Party addr t
      → Among txs t
        ⊎ ((length txs ≡ n) × All (λ (u : Transaction). t.block_height ≤ℤ u.block_height) txs)

for_address-Newest :
    (addr : Address) (size : ℤ) (db : Db)
    → Newest db addr (pos_part size) (for_address addr size db)
unfolding for_address
for_address-Newest addr size db =
    let n = pos_part size in
    let mine = keep (touches addr) db.transactions in
    let sorted = order_desc height_of_tx mine in
    let descending = order_desc-Descending height_of_tx mine in
    record {
      bounded = length-take-le n sorted;
      newest_first = take-Descending height_of_tx n sorted descending;
      sound = λ t m.
          let (stored, hit) =
            Among-keep (touches addr) db.transactions t
              (Among-order height_of_tx mine t (Among-take n sorted t m)) in
          (stored, touches-Party addr t hit);
      complete = λ t m party. take-Among height_of_tx n sorted t descending (
          order-Among height_of_tx mine t
            (keep-Among (touches addr) db.transactions t m (Party-touches addr t party)));
    }

pub txlist-Newest :
    (q : EsQuery) (addr : Address) (db : Db)
    → q.address ≡ some addr
    → Plain q.start_block
    → Plain q.end_block
    → FirstPage q.page
    → (txs : List Transaction) × (txlist (ok db) q ≡ es_ok (rows (map es_tx txs)))
      × Newest db (to_lowercase addr) (pos_part (asked_size q.offset)) txs
unfolding txlist
txlist-Newest q addr db given start end page =
    let size = asked_size q.offset in
    let off1 = bound_off "startblock" q.start_block refl start in
    let off2 = bound_off "endblock" q.end_block refl end in
    let off3 = page_off q.page page in
    let none_refused : unsupported (window_params q) ≡ [] =
      refused-eq q ∙ rw (off1, off2, off3) refl in
    (
      for_address (to_lowercase addr) size db,
      rw (txlist, given, none_refused, page_size-asked q.offset) refl,
      for_address-Newest (to_lowercase addr) size db,
    )
  where
    bound_off :
        (name : String) (o : Option String)
        → (name == "page") ≡ false
        → Plain o
        → flagged name o ≡ false
    bound_off name o bound plain = elim (bound-cases name o bound) [
      | inl (_, asks) ↦ absurd (asks plain)
      | inr (off, _) ↦ off
    ]

    page_off : (o : Option String) → FirstPage o → flagged "page" o ≡ false
    page_off o first = elim (page-cases o) [
      | inl (_, asks) ↦ absurd (asks first)
      | inr (off, _) ↦ off
    ]
