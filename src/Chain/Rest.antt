-- ===== src/Chain/Rest.antt =====
-- crates/chain/src/rest.rs: the client of the native REST endpoints. `parses` stands for the URL parser,
-- `Http` for the HTTP client, `decode` for serde.

pub mod RoundRobin
mod Examples
use Prim.Native.Char.{Char, code}
use Prim.Native.String.{String, ◌++◌}
use indexer_rs.Base.{
  ◌≡◌, refl, ℕ, zero, suc, ◌+◌, ◌%◌, ◌^◌, Bool, true, false, not, ◌&&◌, Option, none, some, List,
  [], ◌∷◌, length, Result, ok, err, leb, nat_beq, nat_eq, ◌==◌, string_eq, if◌then◌else◌,
}
use indexer_rs.Base.Text.{trim, trim_end_matches}
use indexer_rs.Base.Text.Print.{to_string}
use indexer_rs.Base.Effects.{and_then}
use indexer_rs.Domain.{BlockHeight, Hash}
use indexer_rs.Chain.Error.{ChainError, ChainResult, rpc, invalid_argument}

pub record RestClient : Type 0 where
  pub bases : List String
  pub cursor : ℕ

abbrev pub onto_first : Char → List String → List String
onto_first c [] = []
onto_first c (s ∷ more) = String.◌∷◌ c s ∷ more

-- `raw.split(',')`.
unfoldable pub split_commas : String → List String
split_commas String.[] = "" ∷ []
split_commas (String.◌∷◌ c s) =
    let rest = split_commas s in if nat_beq (code c) b',' then "" ∷ rest else onto_first c rest

abbrev pub is_slash : Char → Bool
is_slash c = nat_beq (code c) b'/'

-- One entry per URL, in their order; empty ones are skipped.
unfoldable pub bases_of : (String → Option String) → List String → ChainResult (List String)
bases_of parses [] = ok []
bases_of parses (entry ∷ entries) =
    let trimmed = trim_end_matches is_slash (trim entry) in
    let rest = bases_of parses entries in
    if trimmed == "" then rest else elim (parses trimmed) [
      | some e ↦ err (invalid_argument ("bad rest url '" ++ (trimmed ++ ("': " ++ e))))
      | none ↦ and_then rest (λ bases. ok (trimmed ∷ bases))
    ]

abbrev pub client_of : List String → ChainResult RestClient
client_of [] = err (invalid_argument "rest base url is empty")
client_of (base ∷ bases) = ok (record { bases = base ∷ bases; cursor = 0 })

-- `RestClient::new`; `parses` is the error of the URL parser, if it has one. A client of HTTP is always built.
unfoldable pub new_client : (String → Option String) → String → ChainResult RestClient
unfolding bases_of split_commas
new_client parses raw = and_then (bases_of parses (split_commas raw)) client_of

abbrev pub get_or : String → List String → ℕ → String
get_or d [] i = d
get_or d (x ∷ xs) zero = x
get_or d (x ∷ xs) (suc i) = get_or d xs i

-- `next_base`; the counter wraps, and a client has a base.
unfoldable pub next_base : RestClient → String × RestClient
next_base c =
    (get_or "" c.bases (c.cursor % length c.bases), record c { cursor = (c.cursor + 1) % 2 ^ 64 })

pub record Response : Type 0 where
  pub status : ℕ
  pub status_text : String
  pub text : String
  pub body : ChainResult (List ℕ)

abbrev pub Http : Type 0
Http = String → ChainResult Response

abbrev pub is_success : ℕ → Bool
is_success status = leb 200 status && leb status 299

-- A response other than 404: its body decoded, or its status as an error.
abbrev pub decoded : {A : Type 0} → (List ℕ → ChainResult A) → Response → ChainResult A
decoded decode r =
    if is_success r.status
    then and_then r.body decode
    else err (rpc ("native rest " ++ (r.status_text ++ (": " ++ r.text))))

abbrev pub unless_missing :
    {A : Type 0} → (List ℕ → ChainResult A) → Response → ChainResult (Option A)
unless_missing decode r =
    if nat_beq r.status 404 then ok none else and_then (decoded decode r) (λ a. ok (some a))

module _ {A : Type 0} (http : Http) (decode : List ℕ → ChainResult A) where
  -- `RestClient::tx`.
  unfoldable pub get_tx : Hash → RestClient → ChainResult (Option A) × RestClient
  unfolding next_base
  get_tx hash c =
      let (base, c') = next_base c in
      (and_then (http (base ++ ("/tx/" ++ hash))) (unless_missing decode), c')

  -- `RestClient::chain_info`.
  unfoldable pub get_chain_info : RestClient → ChainResult A × RestClient
  unfolding next_base
  get_chain_info c =
      let (base, c') = next_base c in (and_then (http (base ++ "/chain/info")) (decoded decode), c')

  -- `RestClient::block`.
  unfoldable pub get_block : BlockHeight → RestClient → ChainResult (Option A) × RestClient
  unfolding next_base
  get_block h c =
      let (base, c') = next_base c in
      (and_then (http (base ++ ("/chain/blocks/" ++ to_string h))) (unless_missing decode), c')

two_bases :
    new_client (λ s. none) " http://a/ ,,http://b"
    ≡ ok (record { bases = "http://a" ∷ "http://b" ∷ []; cursor = 0 })
unfolding new_client trim trim_end_matches
two_bases = refl
