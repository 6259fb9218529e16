-- ===== src/Streams/Ending.antt =====
-- When the stream of packages/ddc/src/streams/createStream.ts ends.
use mathlib.Core.Option
use cere_ddc_sdk_js.Common.{
  ℕ, zero, suc, ◌<◌, ◌≡◌, ◌⊎◌, inl, inr, ◌↔◌, refl, sym, subst, true, Option, none, some, List, [],
  ◌∷◌, ◌++◌, ap, take, length, leb, drop, arith,
}
use cere_ddc_sdk_js.Streams.{Bytes, drain, transform, pipe_through, with_chunk_size, flush}
use cere_ddc_sdk_js.Streams.Chunks.{Delivers, with_chunk_size-Delivers}

abbrev pub Ends : Option (List Bytes) → Type 0
Ends r = (out : List Bytes) × (r ≡ some out)

leb_zero : (n : ℕ) → leb 0 n ≡ true
leb_zero n = ground arith

drain_zero : (fuel : ℕ) (buffer : Bytes) → drain fuel 0 buffer ≡ none
unfolding drain
drain_zero zero buffer = refl
drain_zero (suc fuel) buffer =
    rw (leb_zero (length buffer), drain)
      (ap (Option.map (λ (out, rest). (take 0 buffer ∷ out, rest)))
        (drain_zero fuel (drop 0 buffer)))

with_chunk_size_zero : (b : Bytes) (rest : List Bytes) → with_chunk_size 0 (b ∷ rest) ≡ none
unfolding with_chunk_size pipe_through transform
with_chunk_size_zero b rest =
    ap
      (λ (t : Option (List Bytes × Bytes)). elim t as (λ _. Option (List Bytes)) [
        | none ↦ none
        | some (out, left) ↦ Option.map (λ later. out ++ later) (pipe_through 0 (some left) rest)
      ])
      (drain_zero (suc (length b)) b)

Delivers-Ends : (n : ℕ) (b : Bytes) (r : Option (List Bytes)) → Delivers n b r → Ends r
Delivers-Ends n b none d = absurd d
Delivers-Ends n b (some out) d = (out, refl)

needs_size : (n : ℕ) (input : List Bytes) → Ends (with_chunk_size n input) → (0 < n) ⊎ (input ≡ [])
needs_size zero [] h = inr refl
needs_size zero (b ∷ rest) (out, e) = cc (rw (with_chunk_size_zero b rest) at e)
needs_size (suc n) input h = inl (omega arith)

enough : (n : ℕ) (input : List Bytes) → (0 < n) ⊎ (input ≡ []) → Ends (with_chunk_size n input)
unfolding with_chunk_size pipe_through flush
enough n input (inl positive) = Delivers-Ends n _ _ (with_chunk_size-Delivers n input positive)
enough n input (inr e) = subst (λ i. Ends (with_chunk_size n i)) (sym e) ([], refl)

-- The transform of a stream that ends comes to an end exactly if the chunk size is positive, or no
-- chunk enters.
pub with_chunk_size-Ends_iff :
    (n : ℕ) (input : List Bytes) → Ends (with_chunk_size n input) ↔ ((0 < n) ⊎ (input ≡ []))
with_chunk_size-Ends_iff n input = (needs_size n input, enough n input)
