-- ===== src/Base/Map.antt =====
-- `std::unordered_map` as an association list over a type with an equality test.
use mathlib.Core.Bool.{Bool, true}
use mathlib.Core.Path.{◌≡◌, refl, subst}
use mathlib.Core.Logic.{◌↔◌, inl, inr}
use mathlib.Core.Option.{Option, none, some}
use mathlib.Core.List.{List, [], ◌∷◌}
use Prim.Native.Nat.{ℕ}
use native.Mathlib.Omega.{arith}
use tiny_cp.Base.Tests.{◌==◌, ==_iff, if◌then◌else◌, Bool-cases}

-- A key type with its `operator==`.
pub record Eq {ℓ} (A : Type ℓ) : Type ℓ where
  pub beq : A → A → Bool
  pub beq_iff : (a b : A) → (beq a b ≡ true) ↔ (a ≡ b)

instance abbrev pub nat_eq : Eq ℕ
nat_eq = record { beq = ◌==◌; beq_iff = ==_iff }

abbrev pub Map : Type 0 → Type 0 → Type 0
Map K V = List (K × V)

module _ {K V : Type 0} ⦃e : Eq K⦄ where
  -- `find`
  unfoldable pub lookup : K → Map K V → Option V
  lookup k [] = none
  lookup k ((j, v) ∷ m) = if e.beq j k then some v else lookup k m

  -- `map[k] = v`
  unfoldable pub insert : K → V → Map K V → Map K V
  insert k v [] = (k, v) ∷ []
  insert k v ((j, w) ∷ m) = if e.beq j k then (k, v) ∷ m else (j, w) ∷ insert k v m

  -- `erase(k)`
  unfoldable pub erase : K → Map K V → Map K V
  erase k [] = []
  erase k ((j, w) ∷ m) = let rest = erase k m in if e.beq j k then rest else (j, w) ∷ rest

  pub lookup-insert :
      (k j : K) (v : V) (m : Map K V)
      → lookup j (insert k v m) ≡ (if e.beq k j then some v else lookup j m)
  unfolding lookup insert
  lookup-insert k j v [] = refl
  lookup-insert k j v ((i, w) ∷ m) =
      ground (arith, e.beq_iff i k, e.beq_iff i j, e.beq_iff k j, lookup-insert k j v m)

  pub lookup-erase :
      (k j : K) (m : Map K V) → lookup j (erase k m) ≡ (if e.beq k j then none else lookup j m)
  unfolding lookup erase
  lookup-erase k j [] = ground arith
  lookup-erase k j ((i, w) ∷ m) =
      ground (arith, e.beq_iff i k, e.beq_iff i j, e.beq_iff k j, lookup-erase k j m)

-- Every value of a map has a property.
abbrev pub AllValues {κ} : {K V : Type 0} → (V → Type κ) → Map K V → Type κ
AllValues P [] = Unit {κ}
AllValues P ((k, v) ∷ m) = P v × AllValues P m

module _ {κ} {K V : Type 0} ⦃e : Eq K⦄ (P : V → Type κ) where
  pub AllValues-insert :
      (k : K) (v : V) (m : Map K V) → P v → AllValues P m → AllValues P (insert k v m)
  unfolding insert
  AllValues-insert k v [] p all = (p, tt)
  AllValues-insert k v ((j, w) ∷ m) p (q, all) = elim (Bool-cases (e.beq j k)) [
    | inl same ↦ rw same (p, all)
    | inr other ↦ rw other (q, AllValues-insert k v m p all)
  ]

  pub AllValues-erase : (k : K) (m : Map K V) → AllValues P m → AllValues P (erase k m)
  unfolding erase
  AllValues-erase k [] all = tt
  AllValues-erase k ((j, w) ∷ m) (q, all) = elim (Bool-cases (e.beq j k)) [
    | inl same ↦ rw same (AllValues-erase k m all)
    | inr other ↦ rw other (q, AllValues-erase k m all)
  ]

  pub AllValues-lookup : (k : K) (m : Map K V) {v : V} → AllValues P m → lookup k m ≡ some v → P v
  unfolding lookup
  AllValues-lookup k [] all found = absurd (cc)
  AllValues-lookup k ((j, w) ∷ m) {v} (q, all) found = elim (Bool-cases (e.beq j k)) [
    | inl same ↦ let eq : w ≡ v = ground (arith, same, found) in subst P eq q
    | inr other ↦ AllValues-lookup k m all (rw other at found)
  ]
