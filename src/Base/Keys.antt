-- ===== src/Base/Keys.antt =====
-- The types that serve as keys of rows: each decides whether two of its values are the same.
use Prim.Native.Nat.{ℕ}
use Prim.Native.String.{String}
use mathlib.Core.Path.{◌≡◌, refl, sym}
use mathlib.Core.Bool.{Bool, true, false, ◌&&◌}
use mathlib.Core.List.{List, [], ◌∷◌}
use mathlib.Core.Logic.{◌↔◌, inl, inr}
use native.Mathlib.Omega.{arith}
use text.Mathlib.Text.{◌==◌ as same_text}
use text.Mathlib.TextEquality.{eq_iff}
use indexer_rs.Base.Tests.{Bool-cases, nat_beq, nat_beq_iff}
use indexer_rs.Base.Int.{ℤ, beq_ℤ, beq_ℤ_iff}

pub record Key {κ} (K : Type κ) : Type κ where
  pub same : K → K → Bool
  pub same_iff : (j k : K) → (same j k ≡ true) ↔ (j ≡ k)

instance abbrev pub string_eq : Key String
string_eq = record { same_iff = eq_iff; same = same_text }

instance abbrev pub int_eq : Key ℤ
int_eq = record { same_iff = beq_ℤ_iff; same = beq_ℤ }

instance abbrev pub nat_eq : Key ℕ
nat_eq = record { same_iff = nat_beq_iff; same = nat_beq }

module _ {κ μ} {J : Type κ} {K : Type μ} ⦃j : Key J⦄ ⦃k : Key K⦄ where
  abbrev pub same_pair : J × K → J × K → Bool
  same_pair (a, b) (c, d) = j.same a c && k.same b d

  pub same_pair_iff : (p q : J × K) → (same_pair p q ≡ true) ↔ (p ≡ q)
  same_pair_iff (a, b) (c, d) = (
    λ h. ground (arith, j.same_iff a c, k.same_iff b d),
    λ h. ground (arith, j.same_iff a c, k.same_iff b d),
  )

  instance abbrev pub pair_eq : Key (J × K)
  pair_eq = record { same_iff = same_pair_iff; same = same_pair }

module _ {κ} {K : Type κ} ⦃key : Key K⦄ where
  abbrev pub same_list : List K → List K → Bool
  same_list [] [] = true
  same_list [] (y ∷ ys) = false
  same_list (x ∷ xs) [] = false
  same_list (x ∷ xs) (y ∷ ys) = key.same x y && same_list xs ys

  pub same_list_iff : (xs ys : List K) → (same_list xs ys ≡ true) ↔ (xs ≡ ys)
  same_list_iff [] [] = ground arith
  same_list_iff [] (y ∷ ys) = ground arith
  same_list_iff (x ∷ xs) [] = ground arith
  same_list_iff (x ∷ xs) (y ∷ ys) = ground (arith, key.same_iff x y, same_list_iff xs ys)

  instance abbrev pub list_eq : Key (List K)
  list_eq = record { same_iff = same_list_iff; same = same_list }

  infix 50 ◌==◌
  abbrev pub ◌==◌ : K → K → Bool
  j == k = key.same j k

  pub ==_iff : (j k : K) → ((j == k) ≡ true) ↔ (j ≡ k)
  ==_iff j k = key.same_iff j k

  pub ==_self : (k : K) → (k == k) ≡ true
  ==_self k = (key.same_iff k k).1 refl

  pub ==_sym : (j k : K) → (j == k) ≡ (k == j)
  ==_sym j k = elim (Bool-cases (j == k)) [
    | inl e ↦ rw (e, (key.same_iff k j).1 (sym ((key.same_iff j k).0 e))) refl
    | inr e ↦ elim (Bool-cases (k == j)) [
      | inl f ↦ rw ((key.same_iff j k).1 (sym ((key.same_iff k j).0 f)), f) refl
      | inr f ↦ rw (e, f) refl
    ]
  ]
