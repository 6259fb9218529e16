-- ===== src/Streams/Chunks.antt =====
-- What the chunking transform of packages/ddc/src/streams/createStream.ts lets through.
use mathlib.Core.Option
use mathlib.Core.List.{flatten}
use cere_ddc_sdk_js.Common.{
  subst, ℕ, zero, suc, ◌≤◌, ◌<◌, ◌≡◌, refl, Option, none, some, List, [], ◌∷◌, ◌++◌, leb, length,
  take, drop, arith, All, append_assoc, append-nil, take-append-drop, length-take, length-drop,
  Bool-cases, inl, inr, leb→le, flatten-append,
}
use cere_ddc_sdk_js.Streams.{
  content_body, content_chunk_size, bytes, Bytes, drain, joined, transform, flush, pipe_through,
  with_chunk_size,
}

-- Every chunk but the last has the full size; the last holds something and no more than that.
abbrev pub IsChunked : ℕ → List Bytes → Type 0
IsChunked n [] = Unit
IsChunked n (c ∷ []) = (0 < length c) × (length c ≤ n)
IsChunked n (c ∷ d ∷ rest) = (length c ≡ n) × IsChunked n (d ∷ rest)

abbrev pub IsFull : ℕ → List Bytes → Type 0
IsFull n = All (λ c. length c ≡ n)

-- A finished run of the loop: full chunks that make up the buffer together with a short rest.
abbrev Drains : ℕ → Bytes → Option (List Bytes × Bytes) → Type 0
Drains n buffer none = ⊥
Drains n buffer (some (out, rest)) =
    (flatten out ++ rest ≡ buffer) × IsFull n out × (length rest < n)

-- A finished stream: chunks of the right sizes that hold the bytes.
abbrev pub Delivers : ℕ → Bytes → Option (List Bytes) → Type 0
Delivers n content none = ⊥
Delivers n content (some out) = (flatten out ≡ content) × IsChunked n out

abbrev pub bytes_in : Option Bytes → Bytes
bytes_in none = []
bytes_in (some buffer) = buffer

joined-bytes_in : (buffer : Option Bytes) (b : Bytes) → joined buffer b ≡ bytes_in buffer ++ b
joined-bytes_in none b = refl
joined-bytes_in (some buffer) b = refl

IsFull-IsChunked :
    (n : ℕ)
    → 0 < n
    → (out later : List Bytes) → IsFull n out
    → IsChunked n later
    → IsChunked n (out ++ later)
IsFull-IsChunked n positive [] later f c = c
IsFull-IsChunked n positive (x ∷ []) [] f c = omega arith
IsFull-IsChunked n positive (x ∷ []) (y ∷ later) f c = (f.0, c)
IsFull-IsChunked n positive (x ∷ y ∷ out) later f c =
    (f.0, IsFull-IsChunked n positive (y ∷ out) later f.1 c)

flush-Delivers :
    (n : ℕ) (buffer : Option Bytes)
    → length (bytes_in buffer) < n
    → Delivers n (bytes_in buffer) (some (flush buffer))
unfolding flush flatten
flush-Delivers n none h = (refl, tt)
flush-Delivers n (some []) h = (refl, tt)
flush-Delivers n (some (b ∷ bs)) h = (append-nil _, (omega arith, omega arith))

module _ (n : ℕ) (positive : 0 < n) where
  Drains-cons :
      (buffer : Bytes) (r : Option (List Bytes × Bytes))
      → n ≤ length buffer
      → Drains n (drop n buffer) r
      → Drains n buffer (Option.map (λ (out, rest). (take n buffer ∷ out, rest)) r)
  unfolding flatten
  Drains-cons buffer none long d = d
  Drains-cons buffer (some (out, rest)) long (joins, full, left) = (
    simp (append_assoc, joins) (take-append-drop n buffer),
    (omega (arith, length-take n buffer), full),
    left,
  )

  drain-Drains :
      (fuel : ℕ) (buffer : Bytes) → length buffer < fuel → Drains n buffer (drain fuel n buffer)
  unfolding drain flatten
  drain-Drains zero buffer h = absurd (omega arith)
  drain-Drains (suc fuel) buffer h = elim (Bool-cases (leb n (length buffer))) [
    | inr short ↦ rw (short, drain) (refl, tt, ground arith)
    | inl long ↦
        let fits : n ≤ length buffer = leb→le _ _ long in
        rw (long, drain)
          (Drains-cons buffer _ fits
            (drain-Drains fuel (drop n buffer) (omega (arith, length-drop n buffer))))
  ]

  transform-Drains :
      (buffer : Option Bytes) (b : Bytes) → Drains n (bytes_in buffer ++ b) (transform n buffer b)
  unfolding transform
  transform-Drains buffer b =
      rw (← joined-bytes_in buffer b) (drain-Drains _ (joined buffer b) (omega arith))

  Delivers-append :
      (out : List Bytes) (rest b : Bytes) (r : Option (List Bytes))
      → IsFull n out
      → Delivers n (rest ++ b) r
      → Delivers n ((flatten out ++ rest) ++ b) (Option.map (λ later. out ++ later) r)
  Delivers-append out rest b none f d = d
  Delivers-append out rest b (some later) f (joins, chunked) =
      (simp (flatten-append, joins, append_assoc), IsFull-IsChunked n positive out later f chunked)

  -- One chunk enters; `later` is the run on the chunks after it.
  pipe_through-step :
      (b : Bytes) (more : List Bytes) (buffer : Option Bytes) (r : Option (List Bytes × Bytes))
      → Drains n (bytes_in buffer ++ b) r
      → transform n buffer b ≡ r
      → ((rest : Bytes)
          → length rest < n
          → Delivers n (rest ++ flatten more) (pipe_through n (some rest) more))
      → Delivers n ((bytes_in buffer ++ b) ++ flatten more) (pipe_through n buffer (b ∷ more))
  unfolding pipe_through
  pipe_through-step b more buffer none d e later = absurd d
  pipe_through-step b more buffer (some (out, rest)) (joins, full, left) e later =
      rw (e, pipe_through)
        (rw (← joins) (Delivers-append out rest (flatten more) _ full (later rest left)))

  pipe_through-Delivers :
      (input : List Bytes) (buffer : Option Bytes)
      → length (bytes_in buffer) < n
      → Delivers n (bytes_in buffer ++ flatten input) (pipe_through n buffer input)
  unfolding pipe_through flatten
  pipe_through-Delivers [] buffer h = rw (append-nil (bytes_in buffer)) (flush-Delivers n buffer h)
  pipe_through-Delivers (b ∷ more) buffer h =
      rw (← append_assoc (bytes_in buffer) b (flatten more)) (
        pipe_through-step b more buffer (transform n buffer b) (transform-Drains buffer b) refl
          (λ rest left. pipe_through-Delivers more (some rest) left))

pub with_chunk_size-Delivers :
    (n : ℕ) (input : List Bytes) → 0 < n → Delivers n (flatten input) (with_chunk_size n input)
unfolding with_chunk_size
with_chunk_size-Delivers n input positive = pipe_through-Delivers n positive input none positive

-- The stream of a byte array holds its bytes, in chunks of the gRPC chunk size but for the last.
pub content_body-Delivers : (b : Bytes) → Delivers content_chunk_size b (content_body (bytes b))
unfolding content_body flatten
content_body-Delivers b =
    subst (λ c. Delivers content_chunk_size c (content_body (bytes b))) (append-nil b)
      (with_chunk_size-Delivers content_chunk_size (b ∷ []) (omega arith))
