-- ===== src/Common/Keys.antt =====
-- `===` on the keys of the program, and `Map`: a list of entries in the order of insertion.
use text.Mathlib.Text.{◌==◌ as str_eq}
use text.Mathlib.TextEquality.{eq_iff}
use Prim.Native.Nat.{ℕ, ◌+◌, ◌≤◌}
use Prim.Native.String.{String}
use mathlib.Core.Path.{◌≡◌, refl}
use mathlib.Core.Logic.{◌↔◌, ◌⊎◌, inl, inr}
use mathlib.Core.Bool.{Bool, true, false, ◌||◌}
use mathlib.Core.Option.{Option, none, some}
use mathlib.Core.List.{List, [], ◌∷◌}
use native.Mathlib.Omega.{arith}
use cere_ddc_sdk_js.Common.Tests.{◌==◌ as nat_beq, ==_iff, if◌then◌else◌, Bool-cases}
use cere_ddc_sdk_js.Common.Lists.{All, is_defined, length}

pub record Eq {ℓ} (A : Type ℓ) : Type ℓ where
  pub beq : A → A → Bool
  pub beq_iff : (a b : A) → (beq a b ≡ true) ↔ (a ≡ b)

infix 50 ◌===◌
abbrev pub ◌===◌ {ℓ} : {A : Type ℓ} ⦃e : Eq A⦄ → A → A → Bool
◌===◌ ⦃e⦄ = e.beq

instance abbrev pub nat_eq : Eq ℕ
nat_eq = record { beq = nat_beq; beq_iff = ==_iff }

instance abbrev pub string_eq : Eq String
string_eq = record { beq = str_eq; beq_iff = eq_iff }

module _ {ℓ} {K : Type ℓ} ⦃e : Eq K⦄ where
  pub ===_refl : (k : K) → (k === k) ≡ true
  ===_refl k = (e.beq_iff k k).1 refl

  -- `xs.includes(k)`
  abbrev pub includes : List K → K → Bool
  includes [] k = false
  includes (x ∷ xs) k = x === k || includes xs k

  module _ {κ} {V : Type κ} where
    -- `map.get(k)`
    unfoldable pub lookup : K → List (K × V) → Option V
    lookup k [] = none
    lookup k ((j, v) ∷ m) = if j === k then some v else lookup k m

    -- `map.has(k)`
    abbrev pub has : K → List (K × V) → Bool
    has k m = is_defined (lookup k m)

    -- `map.set(k, v)`: a new key goes to the end.
    unfoldable pub insert : K → V → List (K × V) → List (K × V)
    insert k v [] = (k, v) ∷ []
    insert k v ((j, w) ∷ m) = if j === k then (j, v) ∷ m else (j, w) ∷ insert k v m

    pub lookup-insert :
        (k j : K) (v : V) (m : List (K × V))
        → lookup j (insert k v m) ≡ (if k === j then some v else lookup j m)
    unfolding lookup insert
    lookup-insert k j v [] = refl
    lookup-insert k j v ((i, w) ∷ m) =
        ground (arith, e.beq_iff k j, e.beq_iff i k, e.beq_iff i j, lookup-insert k j v m)

    pub lookup-insert_self : (k : K) (v : V) (m : List (K × V)) → lookup k (insert k v m) ≡ some v
    lookup-insert_self k v m = ground (arith, lookup-insert k k v m, ===_refl k)

    pub length-insert : (k : K) (v : V) (m : List (K × V)) → length (insert k v m) ≤ length m + 1
    unfolding insert
    length-insert k v [] = omega arith
    length-insert k v ((j, w) ∷ m) = ground (arith, length-insert k v m)

    pub All-insert {μ} :
        (P : K × V → Type μ) (k : K) (v : V) (m : List (K × V))
        → ((j : K) → j ≡ k → P (j, v))
        → All P m
        → All P (insert k v m)
    unfolding insert
    All-insert P k v [] p h = (p k refl, tt)
    All-insert P k v ((j, w) ∷ m) p h = elim (Bool-cases (j === k)) [
      | inl same ↦ rw (same, if◌then◌else◌) (p j ((e.beq_iff j k).0 same), h.1)
      | inr other ↦ rw (other, if◌then◌else◌) (h.0, All-insert P k v m p h.1)
    ]

    pub All-lookup {μ} :
        (P : K × V → Type μ) (k : K) (m : List (K × V)) {v : V}
        → lookup k m ≡ some v
        → All P m
        → P (k, v)
    unfolding lookup
    All-lookup P k [] h a = cc
    All-lookup P k ((j, w) ∷ m) {v} h a = elim (Bool-cases (j === k)) [
      | inl same ↦
          let keys : j ≡ k = (e.beq_iff j k).0 same in
          let vals : w ≡ v = ground arith in rw (← keys, ← vals) a.0
      | inr other ↦ All-lookup P k m (ground arith) a.1
    ]

    -- What is found after an insertion was inserted, or was there before.
    pub lookup-insert_cases :
        (k j : K) (v w : V) (m : List (K × V))
        → lookup j (insert k v m) ≡ some w
        → ((k ≡ j) × (v ≡ w)) ⊎ (lookup j m ≡ some w)
    lookup-insert_cases k j v w m h = elim (Bool-cases (k === j)) [
      | inl same ↦ inl ((e.beq_iff k j).0 same, ground (arith, lookup-insert k j v m))
      | inr other ↦ inr (ground (arith, lookup-insert k j v m))
    ]
