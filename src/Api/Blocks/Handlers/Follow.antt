-- ===== src/Api/Blocks/Handlers/Follow.antt =====
-- A client that passes each printed cursor back gets the pages of `walk_pages`.
use indexer_rs.Base.{
  ◌≡◌, refl, sym, ap, ◌∙◌, inl, inr, ℕ, zero, suc, ℤ, pos, negsuc, pos_part, ◌<ℤ◌, ◌-ℤ◌, -ℤ_parts,
  ltb_ℤ, leb_ℤ, if◌then◌else◌, String, Option, none, some, List, [], ◌++◌, map, arith, ok, err,
  Bool-cases, Option-cases,
}
use mathlib.Core.List.{map-append}
use indexer_rs.Base.Text.{parse_i64}
use indexer_rs.Base.Text.Print.{to_string, FitsI64, parse-to_string}
use indexer_rs.Domain.{BlockHeight, Block}
use indexer_rs.Db.Schema.{Db}
use indexer_rs.Cache.Breaker.{CircuitBreaker}
use indexer_rs.Cache.Client.{cache_get}
use indexer_rs.Cache.Client.Fallback.{get_or_load-cases}
use indexer_rs.Api.Error.{ApiError, ApiResult, clamped, clamp_limit}
use indexer_rs.Api.Listing.{last}
use indexer_rs.Api.Serialise.{WireBlock, wire_block}
use indexer_rs.Api.Blocks.{load_page, list_before, cursor_below}
use indexer_rs.Api.Blocks.Paging.{walk_pages, load_page-next_lt}
use indexer_rs.Api.Serialise.Shows.{ShowsAll, map-ShowsAll}
use indexer_rs.Api.Blocks.Handlers.Keys.{FitsBefore, list_key-inj}
use indexer_rs.Api.Blocks.Handlers.{PageCache, WireList, wire_list, parse_before, list_key, list}

-- What Redis returns under a key is a page that the handler stored under that key, for some query over these
-- tables.
abbrev pub Honest : PageCache → Db → Type 0
Honest cache db =
    (key : String) (b : CircuitBreaker) (hit : WireList)
    → cache.breaker ≡ some b
    → (cache_get cache.decode (cache.exchange key).read_at (cache.exchange key).read_done
        (cache.exchange key).read_reply b).0
      ≡ ok (some hit)
    → (limit : ℤ) × (before : Option BlockHeight) × FitsI64 limit
      × FitsBefore before
      × (list_key limit before ≡ key)
      × (hit ≡ wire_list (load_page before (pos_part limit) db))

-- The page size that a query asks for: 25 if it says none that is a positive number, and at most 100.
abbrev pub up_to_100 : ℤ → ℤ
up_to_100 n = if leb_ℤ n (pos 0) then pos 25 else if leb_ℤ n (pos 100) then n else pos 100

abbrev pub asked_limit : Option String → ℤ
asked_limit none = pos 25
asked_limit (some s) = elim (parse_i64 s) [ none ↦ pos 25 | some n ↦ up_to_100 n ]

clamp_limit-asked : (limit : Option String) → clamp_limit limit ≡ asked_limit limit
unfolding clamp_limit
clamp_limit-asked none = refl
clamp_limit-asked (some s) = by_value (parse_i64 s)
  where
    by_value : (n : Option ℤ) → clamped n ≡ elim n [ none ↦ pos 25 | some k ↦ up_to_100 k ]
    by_value none = refl
    by_value (some n) = ground arith

asked_limit-Fits : (limit : Option String) → FitsI64 (asked_limit limit)
asked_limit-Fits none = omega arith
asked_limit-Fits (some s) = by_value (parse_i64 s)
  where
    clamp : (n : ℤ) → FitsI64 (up_to_100 n)
    clamp (pos n) = ground arith
    clamp (negsuc n) = ground arith

    by_value : (n : Option ℤ) → FitsI64 (elim n [ none ↦ pos 25 | some k ↦ up_to_100 k ])
    by_value none = omega arith
    by_value (some n) = clamp n

parse_before-to_string :
    (h : BlockHeight) → FitsI64 h → parse_before (some (to_string h)) ≡ ok (some h)
unfolding parse_before
parse_before-to_string h fits = ground (arith, parse-to_string h fits)

list-page :
    (cache : PageCache) (db : Db) (limit : Option String) (t : BlockHeight)
    → Honest cache db
    → FitsI64 t
    → (list cache (ok db) (record { limit = limit; before = some (to_string t) })).0
      ≡ ok (wire_list (load_page (some t) (pos_part (asked_limit limit)) db))
unfolding list
list-page cache db limit t honest fits =
    let n = asked_limit limit in
    let page = wire_list (load_page (some t) (pos_part n) db) in
    rw (parse_before-to_string t fits, clamp_limit-asked limit)
      (elim (get_or_load-cases {E = ApiError} cache.decode cache.encode
        (cache.exchange (list_key n (some t))) (ok page) cache.breaker) [
          | inl (b, hit, used, found, returned) ↦
              let (n', before', f', g', key, is) = honest (list_key n (some t)) b hit used found in
              let (same, same_before) =
                list_key-inj n' n before' (some t) f' (asked_limit-Fits limit) g' fits key in
              returned
              ∙ ap (λ (w : WireList). ok w)
                  (is
                    ∙ ap
                        (λ (q : ℤ × Option BlockHeight).
                          wire_list (load_page q.1 (pos_part q.0) db))
                        (λ i. (same i, same_before i)))
          | inr loaded ↦ loaded
        ])

abbrev pub then_next : (String → List WireBlock) → Option String → List WireBlock
then_next again none = []
then_next again (some s) = again s

abbrev pub collect : (String → List WireBlock) → ApiResult WireList → List WireBlock
collect again (err e) = []
collect again (ok page) = page.blocks ++ then_next again page.next_cursor

-- What a client collects in `n` requests: `caches` says in which state each of them finds the cache.
abbrev pub follow : ℕ → (ℕ → PageCache) → Db → Option String → String → List WireBlock
follow zero caches db limit before = []
follow (suc n) caches db limit before =
    collect (follow n caches db limit)
      (list (caches n) (ok db) (record { limit = limit; before = some before })).0

cursor_natural : (b : Option Block) (c : ℤ) → cursor_below b ≡ some c → negsuc 0 <ℤ c
unfolding cursor_below
cursor_natural none c e = absurd (cc)
cursor_natural (some b) c e = elim (Bool-cases (ltb_ℤ (pos 0) b.height)) [
  | inl above ↦
      let e' : some (b.height -ℤ pos 1) ≡ some c = rw above at e in
      let same : b.height -ℤ pos 1 ≡ c = cc in
      let parts = -ℤ_parts b.height (pos 1) in rw⁻¹ same (ground (arith, parts, above))
  | inr low ↦ let e' : none ≡ some c = rw low at e in absurd (cc)
]

next-natural :
    (t : BlockHeight) (limit : ℕ) (db : Db) (c : BlockHeight)
    → (load_page (some t) limit db).next_cursor ≡ some c
    → negsuc 0 <ℤ c
unfolding load_page
next-natural t limit db c e = cursor_natural (last (list_before (some t) limit db)) c e

FitsI64-below : (c t : ℤ) → negsuc 0 <ℤ c → c <ℤ t → FitsI64 t → FitsI64 c
FitsI64-below c t natural below fits = ground (arith, natural, below, fits)

follow-eq :
    (n : ℕ) (caches : ℕ → PageCache) (db : Db) (limit : Option String) (t : BlockHeight)
    → ((k : ℕ) → Honest (caches k) db)
    → FitsI64 t
    → follow n caches db limit (to_string t)
      ≡ map wire_block (walk_pages n t (pos_part (asked_limit limit)) db)
unfolding wire_list
follow-eq zero caches db limit t honest fits = refl
follow-eq (suc n) caches db limit t honest fits =
    let page = load_page (some t) (pos_part (asked_limit limit)) db in
    elim (Option-cases page.next_cursor) [
      | inl last_page ↦
          ap (collect (follow n caches db limit)) (list-page (caches n) db limit t (honest n) fits)
          ∙ rw last_page (sym (map-append wire_block page.blocks []))
      | inr (c, more) ↦
          let below = load_page-next_lt t (pos_part (asked_limit limit)) db c more in
          let natural = next-natural t (pos_part (asked_limit limit)) db c more in
          let rest = follow-eq n caches db limit c honest (FitsI64-below c t natural below fits) in
          ap (collect (follow n caches db limit)) (list-page (caches n) db limit t (honest n) fits)
          ∙ rw more (
              ap (λ (ws : List WireBlock). map wire_block page.blocks ++ ws) rest
              ∙ sym (map-append wire_block page.blocks _))
    ]

-- Let the cache, in every state in which a request finds it, return under a key nothing, or a page that the
-- handler stored under that key for some query over the same tables, whether it answers or fails. Then a
-- client of `/blocks` that starts at a height of an i64 and passes each printed cursor back collects, in
-- `n` requests, one wire block for each block of the first `n` pages of `walk_pages`, in their order and with
-- every field as stored. The pages have the size that the client asks for: 25 if its limit is missing or no
-- positive number, and at most 100.
pub follow-walk_pages :
    (n : ℕ) (caches : ℕ → PageCache) (db : Db) (limit : Option String) (t : BlockHeight)
    → ((k : ℕ) → Honest (caches k) db)
    → FitsI64 t
    → ShowsAll
        (follow n caches db limit (to_string t))
        (walk_pages n t (pos_part (asked_limit limit)) db)
follow-walk_pages n caches db limit t honest fits =
    rw (follow-eq n caches db limit t honest fits)
      (map-ShowsAll (walk_pages n t (pos_part (asked_limit limit)) db))
