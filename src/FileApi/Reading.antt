-- ===== src/FileApi/Reading.antt =====
-- What a reader of packages/ddc/src/FileApi/FileApi.ts gets, and what it can rely on.
use mathlib.Core.List.{flatten}
use cere_ddc_sdk_js.Common.{
  ℕ, ◌+◌, ◌≡◌, refl, sym, ap, ◌∙◌, Bool, true, false, not, ◌||◌, Option, none, some, List, [], ◌∷◌,
  ◌++◌, Result, ok, ltb, length, append-nil, append_assoc, Bool-cases, inl, inr, if◌then◌else◌,
}
use cere_ddc_sdk_js.Streams.{Bytes}
use cere_ddc_sdk_js.Nodes.{Thrown}
use cere_ddc_sdk_js.FileApi.{
  refused_ack, FileError, Response, chunk, proof, other, ReadOptions, Validator, update, prove,
  validate, Transfer, to_data_stream, read_responses, yield_chunk, at_end,
}

-- The contents of the responses.
abbrev pub data_of : List Response → List Bytes
data_of [] = []
data_of (chunk b ∷ rest) = b ∷ data_of rest
data_of (proof p ∷ rest) = data_of rest
data_of (other ∷ rest) = data_of rest

-- Whether the latest proof holds something.
abbrev pub proved_by : Bool → List Response → Bool
proved_by before [] = before
proved_by before (chunk b ∷ rest) = proved_by before rest
proved_by before (proof p ∷ rest) = proved_by (ltb 0 (length p)) rest
proved_by before (other ∷ rest) = proved_by before rest

-- The running totals of the lengths.
abbrev pub totals : ℕ → List Bytes → List ℕ
totals n [] = []
totals n (b ∷ rest) = (n + length b) ∷ totals (n + length b) rest

-- Acknowledgments are off, or there is a signer for them.
abbrev pub can_ack : ReadOptions → Bool
can_ack options = not options.enable_acks || options.has_signer

abbrev pub acks_of : Bool → ℕ → List Bytes → List ℕ
acks_of true n chunks = totals n chunks
acks_of false n chunks = []

abbrev pub entered : Bool → List Bytes → Bytes
entered true chunks = flatten chunks
entered false chunks = []

acks_of_nil : (enabled : Bool) (n : ℕ) → [] ≡ acks_of enabled n []
acks_of_nil true n = refl
acks_of_nil false n = refl

entered_nil : (authenticate : Bool) (b : Bytes) → b ++ entered authenticate [] ≡ b
unfolding flatten
entered_nil true b = append-nil b
entered_nil false b = append-nil b

-- One chunk enters the validator.
abbrev fed : Bool → Bytes → Validator → Validator
fed authenticate b v = if authenticate then record v { hashed = v.hashed ++ b } else v

fed-entered :
    (authenticate : Bool) (b : Bytes) (chunks : List Bytes) (v : Validator)
    → (fed authenticate b v).hashed ++ entered authenticate chunks
      ≡ v.hashed ++ entered authenticate (b ∷ chunks)
unfolding flatten
fed-entered true b chunks v = append_assoc v.hashed b (flatten chunks)
fed-entered false b chunks v = refl

fed_is_proved :
    (authenticate : Bool) (b : Bytes) (v : Validator) (rest : List Response)
    → proved_by (fed authenticate b v).is_proved rest ≡ proved_by v.is_proved rest
fed_is_proved true b v rest = refl
fed_is_proved false b v rest = refl

-- One chunk is yielded, with its acknowledgment or without.
yielded-whole :
    (enabled has_signer : Bool) (n : ℕ) (b : Bytes) (chunks : List Bytes) (later : Transfer)
    (o : Result FileError (Unit {0}))
    → (not enabled || has_signer) ≡ true
    → (later.yielded ≡ chunks)
      × (later.acks ≡ acks_of enabled (n + length b) chunks)
      × (later.outcome ≡ o)
    → ((if enabled
          then (if has_signer then yield_chunk b (some (n + length b)) later else refused_ack b)
          else yield_chunk b none later).yielded
        ≡ b ∷ chunks)
      × ((if enabled
            then (if has_signer then yield_chunk b (some (n + length b)) later else refused_ack b)
            else yield_chunk b none later).acks
          ≡ acks_of enabled n (b ∷ chunks))
      × ((if enabled
            then (if has_signer then yield_chunk b (some (n + length b)) later else refused_ack b)
            else yield_chunk b none later).outcome
          ≡ o)
yielded-whole true true n b chunks later o h (y, a, e) =
    (ap (◌∷◌ b) y, ap (◌∷◌ (n + length b)) a, e)
yielded-whole true false n b chunks later o h (y, a, e) = cc
yielded-whole false has_signer n b chunks later o h (y, a, e) = (ap (◌∷◌ b) y, a, e)

module _ (same_hash : Bytes → Bool) (options : ReadOptions) (last : Option Thrown) where
  -- The validator after the responses.
  abbrev final : Validator → List Response → Validator
  final v [] = v
  final v (chunk b ∷ rest) = final (update options b v) rest
  final v (proof p ∷ rest) = final (prove p v) rest
  final v (other ∷ rest) = final v rest

  to_data_stream-whole :
      (n : ℕ) (v : Validator) (responses : List Response)
      → can_ack options ≡ true
      → ((to_data_stream same_hash options last n v responses).yielded ≡ data_of responses)
        × ((to_data_stream same_hash options last n v responses).acks
            ≡ acks_of options.enable_acks n (data_of responses))
        × ((to_data_stream same_hash options last n v responses).outcome
            ≡ at_end same_hash options last (final v responses))
  unfolding to_data_stream
  to_data_stream-whole n v [] h = (refl, acks_of_nil options.enable_acks n, refl)
  to_data_stream-whole n v (chunk b ∷ rest) h =
      yielded-whole options.enable_acks options.has_signer n b (data_of rest) _ _ h
        (to_data_stream-whole (n + length b) (update options b v) rest h)
  to_data_stream-whole n v (proof p ∷ rest) h = to_data_stream-whole n (prove p v) rest h
  to_data_stream-whole n v (other ∷ rest) h = to_data_stream-whole n v rest h

  final-entered :
      (v : Validator) (responses : List Response)
      → ((final v responses).hashed ≡ v.hashed ++ entered options.authenticate (data_of responses))
        × ((final v responses).is_proved ≡ proved_by v.is_proved responses)
  final-entered v [] = (sym (entered_nil options.authenticate v.hashed), refl)
  final-entered v (chunk b ∷ rest) =
      let (hashed, proved) = final-entered (update options b v) rest in
      (
        hashed ∙ fed-entered options.authenticate b (data_of rest) v,
        proved ∙ fed_is_proved options.authenticate b v rest,
      )
  final-entered v (proof p ∷ rest) = final-entered (prove p v) rest
  final-entered v (other ∷ rest) = final-entered v rest

  -- Where acknowledgments are off or there is a signer for them: the reader gets the contents of
  -- all responses in their order; each of them is acknowledged, if acknowledgments are on, with the
  -- number of the bytes so far; and at the end the reader gets the error that ended the call, or
  -- else the validator decides on all the bytes, or on none if the reading is not authenticated, and
  -- on the latest proof.
  pub read_responses_transfer :
      (responses : List Response)
      → can_ack options ≡ true
      → ((read_responses same_hash options last responses).yielded ≡ data_of responses)
        × ((read_responses same_hash options last responses).acks
            ≡ acks_of options.enable_acks 0 (data_of responses))
        × ((read_responses same_hash options last responses).outcome
            ≡ at_end same_hash options last (record {
              hashed = entered options.authenticate (data_of responses);
              is_proved = proved_by false responses;
            }))
  unfolding read_responses
  read_responses_transfer responses h =
      let v : Validator = record { hashed = []; is_proved = false } in
      let (y, a, o) = to_data_stream-whole 0 v responses h in
      let (hashed, proved) = final-entered v responses in
      (
        y,
        a,
        o
            ∙ ap
                (λ b.
                  at_end same_hash options last
                    (record { hashed = b; is_proved = (final v responses).is_proved }))
                hashed
            ∙ ap
                (λ p. at_end same_hash options last (record {
                  hashed = entered options.authenticate (data_of responses);
                  is_proved = p;
                }))
                proved,
      )

  at_end_ok :
      (last' : Option Thrown) (v : Validator)
      → at_end same_hash options last' v ≡ ok tt
      → validate same_hash options v ≡ ok tt
  at_end_ok none v h = h
  at_end_ok (some e) v h = cc

  -- Where acknowledgments are off or there is a signer for them: an authenticated reading of a whole
  -- file, with no proof that holds something, ends without an error only if the bytes that the
  -- reader got have the hash of the CID.
  pub read_responses_authentic :
      (responses : List Response)
      → can_ack options ≡ true
      → options.authenticate ≡ true
      → options.range ≡ none
      → proved_by false responses ≡ false
      → (read_responses same_hash options last responses).outcome ≡ ok tt
      → same_hash (flatten (read_responses same_hash options last responses).yielded) ≡ true
  read_responses_authentic responses h authenticated whole unproved fine =
      let (y, a, o) = read_responses_transfer responses h in
      let v : Validator = record {
        hashed = entered options.authenticate (data_of responses);
        is_proved = proved_by false responses;
      } in
      let e = at_end_ok last v (sym o ∙ fine) in
      rw (y) (elim (Bool-cases (same_hash (flatten (data_of responses)))) [
        | inl same ↦ same
        | inr differs ↦
            cc (rw (differs) at (rw (authenticated) at (rw (whole) at (rw (unproved) at e))))
      ])
