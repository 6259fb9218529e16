-- ===== src/Common/Sort.antt =====
-- `Array.prototype.sort` with a comparator. The language fixes a stable sort, so that for a
-- consistent comparator the result is the one of insertion sort.
use Prim.Native.Nat.{ℕ, compare, Ordering}
use mathlib.Core.Path.{◌≡◌, refl, subst}
use mathlib.Core.Logic.{◌≢◌, ∥∥₁_elim}
use mathlib.Core.Bool.{Bool, true, false}
use mathlib.Core.List.{List, [], ◌∷◌, Perm, Permᴰ, Perm-prop}
use mathlib.Core.List.Perm
use mathlib.Core.HLevel.{×_prop, Unit-prop}
use native.Mathlib.Omega.{arith}
use cere_ddc_sdk_js.Common.Lists.{All, keep}
use cere_ddc_sdk_js.Common.Tests.{if◌then◌else◌}

-- Every element is related to all that stand behind it.
abbrev pub IsOrdered {ℓ κ} : {A : Type ℓ} (R : A → A → Type κ) → List A → Type κ
IsOrdered R [] = Unit
IsOrdered R (x ∷ xs) = All (R x) xs × IsOrdered R xs

pub All-imp {ℓ κ μ ν} :
    {A : Type ℓ} (P : A → Type κ) (Q : A → Type μ) (S : A → Type ν) (xs : List A)
    → ((a : A) → P a → Q a → S a)
    → All P xs
    → All Q xs
    → All S xs
All-imp P Q S [] f h k = tt
All-imp P Q S (x ∷ xs) f (p, h) (q, k) = (f x p q, All-imp P Q S xs f h k)

-- The comparator's result is not positive.
abbrev pub NotAfter {ℓ} : {A : Type ℓ} → (A → A → Ordering) → A → A → Type 0
NotAfter cmp a b = cmp a b ≢ Ordering.gt

pub record IsConsistent {ℓ} {A : Type ℓ} (cmp : A → A → Ordering) : Type ℓ where
  pub flip : (a b : A) → cmp a b ≡ Ordering.gt → cmp b a ≡ Ordering.lt
  pub trans : (a b c : A) → NotAfter cmp a b → NotAfter cmp b c → NotAfter cmp a c

-- First by the comparator, and where it says equal by another relation.
abbrev pub Lex {ℓ} : {A : Type ℓ} → (A → A → Ordering) → (A → A → Type 0) → A → A → Type 0
Lex cmp R a b = NotAfter cmp a b × (cmp a b ≡ Ordering.eq → R a b)

pub Ordering-cases : (o : Ordering) → Dec (o ≡ Ordering.gt)
Ordering-cases Ordering.lt = no (λ e. cc)
Ordering-cases Ordering.eq = no (λ e. cc)
Ordering-cases Ordering.gt = yes refl

module _ {ℓ} {A : Type ℓ} (cmp : A → A → Ordering) where
  insert_by : A → List A → List A
  insert_by x [] = x ∷ []
  insert_by x (y ∷ ys) = elim (cmp x y) [ Ordering.gt ↦ y ∷ insert_by x ys | _ ↦ x ∷ y ∷ ys ]

  unfoldable pub sort_by : List A → List A
  unfolding insert_by
  sort_by [] = []
  sort_by (x ∷ xs) = insert_by x (sort_by xs)

  insert_by_after :
      (x y : A) (ys : List A) → cmp x y ≡ Ordering.gt → insert_by x (y ∷ ys) ≡ y ∷ insert_by x ys
  unfolding insert_by
  insert_by_after x y ys e = rw (e, insert_by)

  insert_by_before : (x y : A) (ys : List A) → NotAfter cmp x y → insert_by x (y ∷ ys) ≡ x ∷ y ∷ ys
  unfolding insert_by
  insert_by_before x y ys h = ground arith

  insert_by-perm : (x : A) (ys : List A) → Perm (insert_by x ys) (x ∷ ys)
  unfolding insert_by
  insert_by-perm x [] = Perm.rfl
  insert_by-perm x (y ∷ ys) = elim (Ordering-cases (cmp x y)) [
    | yes e ↦
        rw (insert_by_after x y ys e)
          (Perm.trans (Perm.cons y (insert_by-perm x ys)) (Perm.swap x y ys))
    | no h ↦ rw (insert_by_before x y ys h) Perm.rfl
  ]

  -- Sorting loses and invents nothing.
  pub sort_by-perm : (xs : List A) → Perm (sort_by xs) xs
  unfolding sort_by
  sort_by-perm [] = Perm.rfl
  sort_by-perm (x ∷ xs) = Perm.trans (insert_by-perm x (sort_by xs)) (Perm.cons x (sort_by-perm xs))

  All-insert_by {κ} :
      (P : A → Type κ) (x : A) (ys : List A) → P x → All P ys → All P (insert_by x ys)
  unfolding insert_by
  All-insert_by P x [] p h = (p, tt)
  All-insert_by P x (y ∷ ys) p h = elim (Ordering-cases (cmp x y)) [
    | yes e ↦ rw (insert_by_after x y ys e) (h.0, All-insert_by P x ys p h.1)
    | no g ↦ rw (insert_by_before x y ys g) (p, h)
  ]

  pub All-sort_by {κ} : (P : A → Type κ) (xs : List A) → All P xs → All P (sort_by xs)
  unfolding sort_by
  All-sort_by P [] h = tt
  All-sort_by P (x ∷ xs) h = All-insert_by P x (sort_by xs) h.0 (All-sort_by P xs h.1)

  module _ (law : IsConsistent cmp) (R : A → A → Type 0) where
    behind :
        (x y : A) (ys : List A)
        → NotAfter cmp x y
        → All (R x) ys
        → All (Lex cmp R y) ys
        → All (Lex cmp R x) ys
    behind x y ys g h k =
        All-imp (R x) (Lex cmp R y) (Lex cmp R x) ys (λ z r l. (law.trans x y z g l.0, λ e. r)) h k

    insert_by-IsOrdered :
        (x : A) (ys : List A)
        → All (R x) ys
        → IsOrdered (Lex cmp R) ys
        → IsOrdered (Lex cmp R) (insert_by x ys)
    unfolding insert_by
    insert_by-IsOrdered x [] h o = (tt, tt)
    insert_by-IsOrdered x (y ∷ ys) h o = elim (Ordering-cases (cmp x y)) [
      | yes e ↦
          let back : cmp y x ≡ Ordering.lt = law.flip x y e in
          let first : Lex cmp R y x = ((λ g. cc), (λ g. cc)) in
          rw (insert_by_after x y ys e)
            (All-insert_by (Lex cmp R y) x ys first o.0, insert_by-IsOrdered x ys h.1 o.1)
      | no g ↦ rw (insert_by_before x y ys g) (((g, λ e. h.0), behind x y ys g h.1 o.0), o)
    ]

    -- What was in order by `R` is, once sorted, in order by the comparator, and by `R` where the
    -- comparator says equal.
    pub sort_by-IsOrdered : (xs : List A) → IsOrdered R xs → IsOrdered (Lex cmp R) (sort_by xs)
    unfolding sort_by
    sort_by-IsOrdered [] o = tt
    sort_by-IsOrdered (x ∷ xs) o =
        insert_by-IsOrdered x (sort_by xs) (All-sort_by (R x) xs o.0) (sort_by-IsOrdered xs o.1)

-- `a.key - b.key` for keys that are natural numbers.
pub by_key-IsConsistent {ℓ} :
    {A : Type ℓ} (key : A → ℕ) → IsConsistent (λ a b. compare (key a) (key b))
by_key-IsConsistent key = record {
  flip = λ a b e. ground arith;
  trans = λ a b c h k e. ground arith;
}

module _ {ℓ κ} {A : Type ℓ} (R : A → A → Type κ) where
  pub IsOrdered-trivial : (xs : List A) → ((a b : A) → R a b) → IsOrdered R xs
  IsOrdered-trivial [] h = tt
  IsOrdered-trivial (x ∷ xs) h = (everywhere xs, IsOrdered-trivial xs h)
    where
      everywhere : (ys : List A) → All (R x) ys
      everywhere [] = tt
      everywhere (y ∷ ys) = (h x y, everywhere ys)

  pub IsOrdered-imp {μ} :
      (S : A → A → Type μ) (xs : List A)
      → ((a b : A) → R a b → S a b)
      → IsOrdered R xs
      → IsOrdered S xs
  IsOrdered-imp S [] f o = tt
  IsOrdered-imp S (x ∷ xs) f o =
      (All-imp (R x) (R x) (S x) xs (λ b r _. f x b r) o.0 o.0, IsOrdered-imp S xs f o.1)

abbrev cons_if {ℓ} : {A : Type ℓ} → Bool → A → List A → List A
cons_if c a l = if c then a ∷ l else l

-- Filtering a rearrangement gives a rearrangement.
module _ {ℓ} {A : Type ℓ} (p : A → Bool) where
  cons_if-perm :
      (c : Bool) (a : A) {xs ys : List A} → Perm xs ys → Perm (cons_if c a xs) (cons_if c a ys)
  cons_if-perm true a h = Perm.cons a h
  cons_if-perm false a h = h

  cons_if-swap :
      (c d : Bool) (a b : A) (l : List A)
      → Perm (cons_if c a (cons_if d b l)) (cons_if d b (cons_if c a l))
  cons_if-swap true true a b l = Perm.swap b a l
  cons_if-swap true false a b l = Perm.rfl
  cons_if-swap false d a b l = Perm.rfl

  keep-Permᴰ : {xs ys : List A} → Permᴰ xs ys → Perm (keep p xs) (keep p ys)
  keep-Permᴰ Permᴰ.nil = Perm.rfl
  keep-Permᴰ (Permᴰ.cons {a} {l₁} {l₂} e h) =
      subst (λ b. Perm (keep p (a ∷ l₁)) (keep p (b ∷ l₂))) e (cons_if-perm (p a) a (keep-Permᴰ h))
  keep-Permᴰ (Permᴰ.swap {a} {b} {a'} {l} e f) =
      subst (λ b'. Perm (keep p (a ∷ b ∷ l)) (keep p (a' ∷ b' ∷ l))) e
        (subst (λ a'. Perm (keep p (a ∷ b ∷ l)) (keep p (a' ∷ a ∷ l))) f
          (cons_if-swap (p a) (p b) a b (keep p l)))
  keep-Permᴰ (Permᴰ.trans h k) = Perm.trans (keep-Permᴰ h) (keep-Permᴰ k)

  pub keep-perm : {xs ys : List A} → Perm xs ys → Perm (keep p xs) (keep p ys)
  keep-perm h = ∥∥₁_elim h Perm-prop keep-Permᴰ

module _ {ℓ κ} {A : Type ℓ} (P : A → Type κ) (prop : (a : A) → IsProp (P a)) where
  All-prop : (xs : List A) → IsProp (All P xs)
  All-prop [] = Unit-prop
  All-prop (x ∷ xs) = ×_prop (prop x) (All-prop xs)

  All-Permᴰ : {xs ys : List A} → Permᴰ xs ys → All P xs → All P ys
  All-Permᴰ Permᴰ.nil h = tt
  All-Permᴰ (Permᴰ.cons e k) (p, h) = (subst P e p, All-Permᴰ k h)
  All-Permᴰ (Permᴰ.swap e f) (p, (q, h)) = (subst P f q, (subst P e p, h))
  All-Permᴰ (Permᴰ.trans k l) h = All-Permᴰ l (All-Permᴰ k h)

  pub All-perm : {xs ys : List A} → Perm xs ys → All P xs → All P ys
  All-perm {ys} k h = ∥∥₁_elim k (All-prop ys) (λ d. All-Permᴰ d h)
