-- ===== src/Api/Auth/Decides.antt =====
-- Which requests the middleware lets through.
use Prim.Native.Char.{Char, code}
use Prim.Native.String.{String}
use Prim.Native.String.{◌++◌ as ◌+++◌}
use Prim.Native.String.append
use text.Mathlib.TextEquality.{Char-path}
use indexer_rs.Base.{
  ◌≡◌, refl, sym, ap, ◌∙◌, ◌↔◌, ◌⊎◌, inl, inr, false, Option, none, some, nat_beq, nat_beq_iff,
  arith, ◌==◌, string_eq, Bool-cases,
}
use indexer_rs.Base.Text.{trim}
use indexer_rs.Api.Auth.{
  strip_prefix, AuthState, Request, runs, unauthorized, trimmed, presented, matches, require_bearer,
}

strip_prefix_sound : (p s r : String) → strip_prefix p s ≡ some r → s ≡ p +++ r
unfolding strip_prefix
strip_prefix_sound String.[] s r e = let same : s ≡ r = cc in same ∙ sym (append.nil r)
strip_prefix_sound (String.◌∷◌ c p) String.[] r e = absurd (cc)
strip_prefix_sound (String.◌∷◌ c p) (String.◌∷◌ d s) r e =
    elim (Bool-cases (nat_beq (code c) (code d))) [
      | inr differ ↦ let e' : none ≡ some r = rw differ at e in absurd (cc)
      | inl same ↦
          let rest = strip_prefix_sound p s r (rw same at e) in
          let head = Char-path d c (sym ((nat_beq_iff (code c) (code d)).0 same)) in
          ap (λ (x : Char). String.◌∷◌ x s) head
          ∙ ap (λ (t : String). String.◌∷◌ c t) rest
          ∙ sym (append.cons c p r)
    ]

strip_prefix-append : (p r : String) → strip_prefix p (p +++ r) ≡ some r
unfolding strip_prefix
strip_prefix-append String.[] r = ap (λ (s : String). some s) (append.nil r)
strip_prefix-append (String.◌∷◌ c p) r =
    ap (strip_prefix (String.◌∷◌ c p)) (append.cons c p r)
    ∙ rw ((nat_beq_iff (code c) (code c)).1 refl) (strip_prefix-append p r)

-- The header carries the token, with white space around it or none.
abbrev pub Carries : String → Request → Type 0
Carries expected req =
    (rest : String) × (req.authorization ≡ some ("Bearer " +++ rest)) × (trim rest ≡ expected)

-- A request that may pass: to /health, on an open API, or with the token.
abbrev pub Admitted : AuthState → Request → Type 0
Admitted state req =
    (req.path ≡ "/health")
    ⊎ ((state ≡ none) ⊎ ((expected : String) × (state ≡ some expected) × Carries expected req))

matches-runs : (expected token : String) → matches expected (some token) ≡ runs → token ≡ expected
matches-runs expected token e = elim (Bool-cases (token == expected)) [
  | inl same ↦ (string_eq.same_iff token expected).0 same
  | inr differ ↦ let e' : unauthorized ≡ runs = rw differ at e in absurd (cc)
]

header-Carries :
    (expected : String) (req : Request) (header : String) (stripped : Option String)
    → req.authorization ≡ some header
    → strip_prefix "Bearer " header ≡ stripped
    → matches expected (trimmed stripped) ≡ runs
    → Carries expected req
header-Carries expected req header none given s e = absurd (cc)
header-Carries expected req header (some rest) given s e = (
  rest,
  given ∙ ap (λ (h : String). some h) (strip_prefix_sound "Bearer " header rest s),
  matches-runs expected (trim rest) e,
)

presented-Carries :
    (expected : String) (req : Request) (given : Option String)
    → req.authorization ≡ given
    → matches expected (presented given) ≡ runs
    → Carries expected req
presented-Carries expected req none missing e = absurd (cc)
presented-Carries expected req (some header) given e =
    header-Carries expected req header (strip_prefix "Bearer " header) given refl e

Carries-presented :
    (expected : String) (req : Request)
    → Carries expected req
    → matches expected (presented req.authorization) ≡ runs
Carries-presented expected req (rest, given, same) =
    ap (λ (h : Option String). matches expected (presented h)) given
    ∙ ap (λ (t : Option String). matches expected (trimmed t)) (strip_prefix-append "Bearer " rest)
    ∙ rw ((string_eq.same_iff (trim rest) expected).1 same) refl

decides :
    (state : AuthState) (req : Request)
    → (req.path == "/health") ≡ false
    → require_bearer state req ≡ runs
    → (state ≡ none) ⊎ ((expected : String) × (state ≡ some expected) × Carries expected req)
unfolding require_bearer
decides none req elsewhere e = inl refl
decides (some expected) req elsewhere e =
    inr (expected, refl, presented-Carries expected req req.authorization refl (rw elsewhere at e))

admits : (state : AuthState) (req : Request) → Admitted state req → require_bearer state req ≡ runs
unfolding require_bearer
admits state req (inl health) = rw ((string_eq.same_iff req.path "/health").1 health) refl
admits state req (inr (inl open')) = rw open' (ground arith)
admits state req (inr (inr (expected, configured, carries))) =
    rw configured (ground (arith, Carries-presented expected req carries))

-- A request is run exactly if it goes to /health, or no token is configured, or its Authorization header is
-- "Bearer " followed by the token with white space around it or none; every other request is refused.
pub require_bearer_iff :
    (state : AuthState) (req : Request) → (require_bearer state req ≡ runs) ↔ Admitted state req
require_bearer_iff state req = (
  λ e. elim (Bool-cases (req.path == "/health")) [
    | inl health ↦ inl ((string_eq.same_iff req.path "/health").0 health)
    | inr elsewhere ↦ inr (decides state req elsewhere e)
  ],
  λ a. admits state req a,
)
