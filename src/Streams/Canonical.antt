-- ===== src/Streams/Canonical.antt =====
-- There is one way to cut bytes into chunks of a size, so the chunks that enter the transform of
-- packages/ddc/src/streams/createStream.ts leave no trace in the chunks that come out.
use mathlib.Core.List.{flatten}
use cere_ddc_sdk_js.Common.{
  ℕ, ◌≤◌, ◌<◌, ◌≡◌, refl, sym, ap, ◌∙◌, Option, none, some, List, [], ◌∷◌, ◌++◌, length, arith,
  append-nil, length-append, subst,
}
use cere_ddc_sdk_js.Streams.{Bytes, with_chunk_size}
use cere_ddc_sdk_js.Streams.Chunks.{IsChunked, Delivers, with_chunk_size-Delivers}

append_cancel : (a b u v : Bytes) → length a ≡ length b → a ++ u ≡ b ++ v → (a ≡ b) × (u ≡ v)
append_cancel [] [] u v h e = (refl, e)
append_cancel [] (y ∷ b) u v h e = absurd (omega arith)
append_cancel (x ∷ a) [] u v h e = absurd (omega arith)
append_cancel (x ∷ a) (y ∷ b) u v h e =
    let heads : x ≡ y = cc in
    let tails : a ++ u ≡ b ++ v = cc in
    let (same, rest) = append_cancel a b u v (omega arith) tails in (cc, rest)

module _ (n : ℕ) (positive : 0 < n) where
  IsChunked-pos :
      (c : Bytes) (cs : List Bytes) → IsChunked n (c ∷ cs) → 0 < length (flatten (c ∷ cs))
  unfolding flatten
  IsChunked-pos c [] h = omega (arith, length-append c [])
  IsChunked-pos c (d ∷ cs) h = omega (arith, length-append c (flatten (d ∷ cs)))

  last_only :
      (x y z : Bytes) (zs : List Bytes)
      → length x ≤ n
      → length y ≡ n
      → IsChunked n (z ∷ zs)
      → flatten (x ∷ []) ≡ flatten (y ∷ z ∷ zs)
      → ⊥
  unfolding flatten
  last_only x y z zs hx hy hz e = omega (
    arith,
    ap length e,
    length-append x [],
    length-append y (flatten (z ∷ zs)),
    IsChunked-pos z zs hz,
  )

  IsChunked-eq :
      (xs ys : List Bytes) → IsChunked n xs → IsChunked n ys → flatten xs ≡ flatten ys → xs ≡ ys
  unfolding flatten
  IsChunked-eq [] [] hx hy e = refl
  IsChunked-eq [] (y ∷ ys) hx hy e = absurd (omega (arith, ap length e, IsChunked-pos y ys hy))
  IsChunked-eq (x ∷ xs) [] hx hy e = absurd (omega (arith, ap length e, IsChunked-pos x xs hx))
  IsChunked-eq (x ∷ []) (y ∷ []) hx hy e = ap (λ c. c ∷ []) (sym (append-nil x) ∙ e ∙ append-nil y)
  IsChunked-eq (x ∷ []) (y ∷ z ∷ zs) hx hy e = absurd (last_only x y z zs hx.1 hy.0 hy.1 e)
  IsChunked-eq (x ∷ w ∷ ws) (y ∷ []) hx hy e = absurd (last_only y x w ws hy.1 hx.0 hx.1 (sym e))
  IsChunked-eq (x ∷ w ∷ ws) (y ∷ z ∷ zs) hx hy e =
      let (heads, tails) = append_cancel x y _ _ (hx.0 ∙ sym hy.0) e in
      let rest = IsChunked-eq (w ∷ ws) (z ∷ zs) hx.1 hy.1 tails in cc

  Delivers-eq : (b : Bytes) (r s : Option (List Bytes)) → Delivers n b r → Delivers n b s → r ≡ s
  Delivers-eq b none s d e = absurd d
  Delivers-eq b (some xs) none d e = absurd e
  Delivers-eq b (some xs) (some ys) d e = ap some (IsChunked-eq xs ys d.1 e.1 (d.0 ∙ sym e.0))

-- For a positive chunk size, two inputs with the same bytes leave the transform as the same chunks.
pub with_chunk_size_rechunk :
    (n : ℕ) (xs ys : List Bytes)
    → 0 < n
    → flatten xs ≡ flatten ys
    → with_chunk_size n xs ≡ with_chunk_size n ys
with_chunk_size_rechunk n xs ys positive e =
    Delivers-eq n positive (flatten ys) (with_chunk_size n xs) (with_chunk_size n ys)
      (subst (λ b. Delivers n b (with_chunk_size n xs)) e (with_chunk_size-Delivers n xs positive))
      (with_chunk_size-Delivers n ys positive)
