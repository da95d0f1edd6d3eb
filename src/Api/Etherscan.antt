-- ===== src/Api/Etherscan.antt =====
-- crates/api/src/routes/etherscan.rs: the shim for Etherscan's clients, and `for_address` of
-- crates/db/src/transactions.rs. A result is a text or a list of rows.
pub mod Answers
pub mod Lists
mod Examples
use Prim.Native.String.{◌++◌}
use indexer_rs.Base.{
  ℕ, ℤ, pos, pos_part, String, Bool, true, false, not, ◌&&◌, ◌||◌, Option, none, some, List, [],
  ◌∷◌, map, keep, take, Result, ok, err, ◌==◌, string_eq, leb_ℤ, beq_ℤ, max_ℤ, min_ℤ, if◌then◌else◌,
}
use indexer_rs.Base.Text.{to_lowercase, parse_i64}
use indexer_rs.Base.Text.Print.{print_ℕ, to_string}
use indexer_rs.Domain.{Wei, Hash, Address, Block, Transaction}
use indexer_rs.Db.Schema.{Db, DbResult}
use indexer_rs.Api.Listing.{order_desc}
use indexer_rs.Api.Listing.Front.{front, opposite}

pub record EsQuery : Type 0 where
  pub module_name : Option String
  pub action : Option String
  pub address : Option String
  pub start_block : Option String
  pub end_block : Option String
  pub page : Option String
  pub offset : Option String
  pub sort : Option String
  pub timestamp : Option String
  pub closest : Option String

-- A row of `txlist`; an amount stands for its decimal text, a missing gas price for the empty text.
pub record EsTx : Type 0 where
  pub block_number : String
  pub hash : Hash
  pub from : Address
  pub to : Option Address
  pub value : Wei
  pub gas : String
  pub gas_used : String
  pub gas_price : Option Wei
  pub nonce : String
  pub input : String
  pub is_error : String
  pub txreceipt_status : String
  pub contract_address : String

pub data EsResult : Type 0 where
  text : String → EsResult
  rows : List EsTx → EsResult

pub record EsEnvelope : Type 0 where
  pub status : String
  pub message : String
  pub result : EsResult

unfoldable pub es_ok : EsResult → EsEnvelope
es_ok result = record { status = "1"; message = "OK"; result = result }

unfoldable pub es_err : String → EsEnvelope
es_err msg = record { status = "0"; message = msg; result = text msg }

unfoldable pub db_err : EsEnvelope
unfolding es_err
db_err = es_err "database error"

abbrev pub or_text : String → Option String → String
or_text default none = default
or_text default (some s) = s

abbrev pub or_int : ℤ → Option ℤ → ℤ
or_int default none = default
or_int default (some n) = n

-- A parameter that the shim does not honour: given, not empty and not "0", and for `page` not "1".
abbrev pub is_unsupported : String → String → Bool
is_unsupported name s =
    not (s == "") && (not (s == "0") && (not (name == "page") || not (s == "1")))

unfoldable pub unsupported : List (String × Option String) → List String
unsupported [] = []
unsupported ((name, none) ∷ params) = unsupported params
unsupported ((name, some s) ∷ params) =
    let rest = unsupported params in if is_unsupported name s then name ∷ rest else rest

abbrev pub window_params : EsQuery → List (String × Option String)
window_params q = ("startblock", q.start_block) ∷ ("endblock", q.end_block) ∷ ("page", q.page) ∷ []

unfoldable pub join : List String → String
join [] = ""
join (s ∷ []) = s
join (s ∷ t ∷ more) = s ++ ("," ++ join (t ∷ more))

abbrev pub touches : Address → Transaction → Bool
touches addr t = t.from_addr == addr || elim t.to_addr [ none ↦ false | some to ↦ to == addr ]

abbrev pub height_of_tx : Transaction → ℤ
height_of_tx t = t.block_height

-- `transactions::for_address`.
unfoldable pub for_address : Address → ℤ → Db → List Transaction
for_address addr limit db =
    take (pos_part limit) (order_desc height_of_tx (keep (touches addr) db.transactions))

unfoldable pub es_tx : Transaction → EsTx
es_tx t = record {
  block_number = to_string t.block_height;
  hash = t.hash;
  from = t.from_addr;
  to = t.to_addr;
  value = t.value;
  gas = to_string t.gas_limit;
  gas_used = to_string (or_int (pos 0) t.gas_used);
  gas_price = t.gas_price;
  nonce = to_string t.nonce;
  input = or_text "" t.input;
  is_error = if beq_ℤ t.status (pos 1) then "0" else "1";
  txreceipt_status = to_string t.status;
  contract_address = or_text "" t.contract_address;
}

abbrev pub parsed_offset : Option String → Option ℤ
parsed_offset none = none
parsed_offset (some s) = parse_i64 s

-- The page size: 25, or what `offset` says between 1 and 100.
unfoldable pub page_size : Option String → ℤ
page_size offset = max_ℤ (pos 1) (min_ℤ (pos 100) (or_int (pos 25) (parsed_offset offset)))

abbrev pub listed : DbResult Db → (Db → List Transaction) → EsEnvelope
listed (err e) f = db_err
listed (ok db) f = es_ok (rows (map es_tx (f db)))

abbrev pub refuse : List String → EsEnvelope → EsEnvelope
refuse [] answer = answer
refuse (name ∷ names) answer = es_err ("param not supported: " ++ join (name ∷ names))

unfoldable pub txlist : DbResult Db → EsQuery → EsEnvelope
unfolding es_ok es_err db_err unsupported
txlist pg q = elim q.address [
  | none ↦ es_err "address parameter is required"
  | some addr ↦
      refuse (unsupported (window_params q))
        (listed pg (for_address (to_lowercase addr) (page_size q.offset)))
]

abbrev pub time_of : Block → ℤ
time_of b = b.timestamp

-- WHERE timestamp >= $1 ORDER BY timestamp ASC LIMIT 1, and its mirror image.
unfoldable pub block_after : ℤ → Db → Option Block
block_after ts db =
    front (order_desc (opposite time_of) (keep (λ (b : Block). leb_ℤ ts b.timestamp) db.blocks))

unfoldable pub block_before : ℤ → Db → Option Block
block_before ts db =
    front (order_desc time_of (keep (λ (b : Block). leb_ℤ b.timestamp ts) db.blocks))

abbrev pub height_or : String → ℤ → Option Block → EsEnvelope
height_or closest ts none =
    es_err ("no block at-or-" ++ (closest ++ (" timestamp " ++ to_string ts)))
height_or closest ts (some b) = es_ok (text (to_string b.height))

abbrev pub closest_to : DbResult Db → String → ℤ → EsEnvelope
closest_to (err e) closest ts = db_err
closest_to (ok db) closest ts =
    height_or closest ts (if closest == "after" then block_after ts db else block_before ts db)

abbrev pub at_time : DbResult Db → String → Option ℤ → EsEnvelope
at_time pg closest none = es_err "timestamp must be a positive integer"
at_time pg closest (some ts) = closest_to pg closest ts

unfoldable pub getblocknobytime : DbResult Db → EsQuery → EsEnvelope
unfolding es_ok es_err db_err
getblocknobytime pg q = elim q.timestamp [
  | none ↦ es_err "timestamp parameter is required"
  | some ts_str ↦ at_time pg (or_text "before" q.closest) (parse_i64 ts_str)
]

unfoldable pub ethsupply : EsEnvelope
unfolding es_ok
ethsupply = es_ok (text "0")

unfoldable pub dispatch : DbResult Db → EsQuery → EsEnvelope
unfolding txlist getblocknobytime ethsupply
dispatch pg q =
    let m = or_text "" q.module_name in
    let a = or_text "" q.action in
    if m == "account" && a == "txlist"
    then txlist pg q
    else if m == "block" && a == "getblocknobytime"
    then getblocknobytime pg q
    else if m == "stats" && a == "ethsupply"
    then ethsupply
    else es_err ("module/action not supported: " ++ (m ++ ("/" ++ a)))
