-- ===== src/Routing/Shuffle.antt =====
-- `shuffle` of packages/ddc/src/routing/RandomStrategy.ts. The draws `Math.floor(Math.random() *
-- (index + 1))` of the rounds are an argument; a missing draw is 0.
use mathlib.Core.List.{Perm}
use mathlib.Core.List.Perm
use native.Mathlib.Decide.{ℕ_discrete}
use cere_ddc_sdk_js.Common.{
  ℕ, zero, suc, ◌-◌, ◌<◌, ◌≡◌, refl, Option, none, some, List, [], ◌∷◌, length, get_elem?, set,
  arith, ap, ◌∙◌, get_elem?-set_self, get_elem?-set_ne,
}

module _ {ℓ} {A : Type ℓ} where
  write : List A → ℕ → Option A → List A
  write xs i none = xs
  write xs i (some a) = set xs i a

  -- `[array[index], array[random]] = [array[random], array[index]]`
  swap : ℕ → ℕ → List A → List A
  swap index random array =
      write (write array index (get_elem? array random)) random (get_elem? array index)

  -- The loop, from `index` down to 1.
  shuffle_from : ℕ → List ℕ → List A → List A
  shuffle_from zero draws array = array
  shuffle_from (suc index) [] array = shuffle_from index [] (swap (suc index) 0 array)
  shuffle_from (suc index) (random ∷ draws) array =
      shuffle_from index draws (swap (suc index) random array)

  unfoldable pub shuffle : List ℕ → List A → List A
  unfolding shuffle_from swap write
  shuffle draws array = shuffle_from (length array - 1) draws array

  set-perm :
      (xs : List A) (i : ℕ) (a b : A) → get_elem? xs i ≡ some a → Perm (b ∷ xs) (a ∷ set xs i b)
  set-perm [] i a b e = cc
  set-perm (x ∷ xs) zero a b e = let same : x ≡ a = cc in rw same (Perm.swap a b xs)
  set-perm (x ∷ xs) (suc i) a b e =
      Perm.trans (Perm.swap x b xs)
        (Perm.trans (Perm.cons x (set-perm xs i a b e)) (Perm.swap a x (set xs i b)))

  set_beyond : (xs : List A) (i : ℕ) (a : A) → get_elem? xs i ≡ none → set xs i a ≡ xs
  set_beyond [] i a e = refl
  set_beyond (x ∷ xs) zero a e = cc
  set_beyond (x ∷ xs) (suc i) a e = ap (◌∷◌ x) (set_beyond xs i a e)

  get_elem?-lt : (xs : List A) (i : ℕ) (a : A) → get_elem? xs i ≡ some a → i < length xs
  get_elem?-lt [] i a e = cc
  get_elem?-lt (x ∷ xs) zero a e = omega arith
  get_elem?-lt (x ∷ xs) (suc i) a e = omega (arith, get_elem?-lt xs i a e)

  get_elem?-set_same :
      (xs : List A) (i j : ℕ) (a b : A)
      → get_elem? xs i ≡ some a
      → get_elem? xs j ≡ some b
      → get_elem? (set xs i b) j ≡ some b
  get_elem?-set_same xs i j a b hi hj = elim (ℕ_discrete i j) [
    | yes e ↦ rw (← e) (get_elem?-set_self xs i b (get_elem?-lt xs i a hi))
    | no ne ↦ get_elem?-set_ne xs b ne ∙ hj
  ]

  write-perm :
      (xs : List A) (i j : ℕ) (at_i at_j : Option A)
      → get_elem? xs i ≡ at_i
      → get_elem? xs j ≡ at_j
      → Perm (write (write xs i at_j) j at_i) xs
  unfolding write
  write-perm xs i j none none hi hj = Perm.rfl
  write-perm xs i j none (some b) hi hj = rw (set_beyond xs i b hi) Perm.rfl
  write-perm xs i j (some a) none hi hj = rw (set_beyond xs j a hj) Perm.rfl
  write-perm xs i j (some a) (some b) hi hj = Perm.symm (
      Perm.cons_inv (
        Perm.trans (set-perm xs i a b hi)
          (set-perm (set xs i b) j b a (get_elem?-set_same xs i j a b hi hj))))

  swap-perm : (index random : ℕ) (xs : List A) → Perm (swap index random xs) xs
  unfolding swap
  swap-perm i j xs = write-perm xs i j _ _ refl refl

  shuffle_from-perm :
      (index : ℕ) (draws : List ℕ) (array : List A) → Perm (shuffle_from index draws array) array
  unfolding shuffle_from
  shuffle_from-perm zero draws array = Perm.rfl
  shuffle_from-perm (suc index) [] array =
      Perm.trans (shuffle_from-perm index [] (swap (suc index) 0 array)) (swap-perm _ _ array)
  shuffle_from-perm (suc index) (random ∷ draws) array =
      Perm.trans (shuffle_from-perm index draws (swap (suc index) random array))
        (swap-perm _ _ array)

  -- Whatever the draws, shuffling loses and invents no element.
  pub shuffle-perm : (draws : List ℕ) (array : List A) → Perm (shuffle draws array) array
  unfolding shuffle
  shuffle-perm draws array = shuffle_from-perm _ draws array
