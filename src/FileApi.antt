-- ===== src/FileApi.antt =====
-- packages/ddc/src/FileApi/FileApi.ts with the validators of packages/ddc/src/validators: how pieces
-- are sent to a storage node, and how the responses of a reading are turned into a stream. The hash
-- and the RPC calls are arguments; Calls has the operations with their metadata.
pub mod Calls
pub mod Reading
pub mod Sending
pub mod PartSize
mod Tests
use cere_ddc_sdk_js.Common.{
  ℕ, zero, suc, ◌+◌, ◌*◌, Bool, true, false, not, Option, none, some, List, [], ◌∷◌, ◌++◌, String,
  Result, ok, err, ltb, length, is_defined, or_else, if◌then◌else◌,
}
use cere_ddc_sdk_js.Streams.{Bytes}
use cere_ddc_sdk_js.Nodes.{Thrown}
use cere_ddc_sdk_js.Activity.{ActivityError}

abbrev pub max_piece_size : ℕ
max_piece_size = 128 * 1024 * 1024

-- The number of `Math.pow(2, Math.ceil(Math.log2(n)))`, which is exact for the sizes in question:
-- the powers from `power` on, until one is not less than `n`.
ceil_from : ℕ → ℕ → ℕ → ℕ
ceil_from zero power n = power
ceil_from (suc fuel) power n =
    let higher = ceil_from fuel (2 * power) n in if ltb power n then higher else power

-- `Math.log2(0)` is `-Infinity`, and its power is 0.
unfoldable pub ceil_to_power_of_2 : ℕ → ℕ
unfolding ceil_from
ceil_to_power_of_2 zero = 0
ceil_to_power_of_2 (suc n) = ceil_from (suc n) 1 (suc n)

-- What is thrown by the guards, the calls and the validation.
pub data FileError : Type 0 where
  -- 'Cannot determine the raw piece size'
  no_piece_size : FileError
  -- `Raw piece size should not be greather then … MB`
  piece_too_large : FileError
  activity_failed : ActivityError → FileError
  -- 'signed value for ulong'
  negative_size : FileError
  call_failed : Thrown → FileError
  -- 'Cannot sign acknowledgment. Signer requred!'
  no_ack_signer : FileError
  -- 'Received content is not valid - hash does not match'
  invalid_content : FileError
  -- A content stream that does not end.
  endless_content : FileError

-- The RPC call of `putRawPiece`: the messages that are sent, and the CID of the response.
pub record RawCall (W Meta : Type 0) : Type 0 where
  pub send_metadata : Meta → ℕ → W → W
  pub headers : W → W × Result Thrown (Unit {0})
  pub send_content : Bytes → W → W × Result Thrown (Unit {0})
  pub complete : W → W × Result Thrown Bytes

module _ {W Meta : Type 0} (call : RawCall W Meta) where
  abbrev pub continue :
      {A B : Type 0}
      → (A → W → W × Result FileError B)
      → W × Result Thrown A
      → W × Result FileError B
  continue next (w, ok a) = next a w
  continue next (w, err e) = (w, err (call_failed e))

  -- The loop: `bytesSent` so far, and the chunks that the reader has left.
  unfoldable pub send_chunks : ℕ → List Bytes → W → W × Result FileError (Unit {0})
  send_chunks bytes_sent [] w = (w, ok tt)
  send_chunks bytes_sent (value ∷ rest) w =
      if ltb bytes_sent max_piece_size
      then continue (λ _ v. send_chunks (bytes_sent + length value) rest v)
          (call.send_content value w)
      else (w, ok tt)

  abbrev pub complete_after : W × Result FileError (Unit {0}) → W × Result FileError Bytes
  complete_after (w, ok _) = continue (λ cid v. (v, ok cid)) (call.complete w)
  complete_after (w, err e) = (w, err e)

  abbrev pub send_body : Option (List Bytes) → W → W × Result FileError Bytes
  send_body none w = (w, err endless_content)
  send_body (some chunks) w = complete_after (send_chunks 0 chunks w)

  -- The call, once the size is known: the body of the content is sent after the headers came.
  unfoldable pub put_sized : Meta → ℕ → Option (List Bytes) → W → W × Result FileError Bytes
  unfolding send_chunks
  put_sized metadata size body w =
      continue (λ _ v. send_body body v) (call.headers (call.send_metadata metadata size w))

-- The two guards of `putRawPiece`.
abbrev pub guard_size :
    {W : Type 0} → (ℕ → W → W × Result FileError Bytes) → Option ℕ → W → W × Result FileError Bytes
guard_size next none w = (w, err no_piece_size)
guard_size next (some zero) w = (w, err no_piece_size)
guard_size next (some (suc n)) w =
    if ltb max_piece_size (suc n) then (w, err piece_too_large) else next (suc n) w

-- A response of `getFile`.
pub data Response : Type 0 where
  chunk : Bytes → Response
  proof : List Bytes → Response
  other : Response

pub record ReadOptions : Type 0 where
  pub has_signer : Bool
  pub enable_acks : Bool
  pub authenticate : Bool
  pub range : Option (ℕ × ℕ)

-- `enableAcks ?? !!signer` and `authenticate ?? false` of the constructor
abbrev pub read_options : Bool → Option Bool → Option Bool → Option (ℕ × ℕ) → ReadOptions
read_options has_signer enable_acks authenticate range = record {
  has_signer = has_signer;
  enable_acks = or_else enable_acks has_signer;
  authenticate = or_else authenticate false;
  range = range;
}

-- The validator: the bytes that entered the hasher, and `isProved`.
pub record Validator : Type 0 where
  pub hashed : Bytes
  pub is_proved : Bool

abbrev pub update : ReadOptions → Bytes → Validator → Validator
update options data' v = if options.authenticate then record v { hashed = v.hashed ++ data' } else v

abbrev pub prove : List Bytes → Validator → Validator
prove proof' v = record v { is_proved = ltb 0 (length proof') }

-- What a reader of the stream sees, and what the node is sent.
pub record Transfer : Type 0 where
  pub yielded : List Bytes
  pub acks : List ℕ
  pub outcome : Result FileError (Unit {0})

abbrev pub yield_chunk : Bytes → Option ℕ → Transfer → Transfer
yield_chunk data' none t = record t { yielded = data' ∷ t.yielded }
yield_chunk data' (some total) t = record t { yielded = data' ∷ t.yielded; acks = total ∷ t.acks }

abbrev pub refused_ack : Bytes → Transfer
refused_ack data' = record { yielded = data' ∷ []; acks = []; outcome = err no_ack_signer }

module _ (same_hash : Bytes → Bool) where
  -- `validate` of both validators; `same_hash` compares the hash of the bytes with that of the CID.
  abbrev pub validate_hash : ReadOptions → Validator → Result FileError (Unit {0})
  validate_hash options v =
      if options.authenticate
      then (if same_hash v.hashed then ok tt else err invalid_content)
      else ok tt

  abbrev pub validate : ReadOptions → Validator → Result FileError (Unit {0})
  validate options v =
      if v.is_proved
      then ok tt
      else (if is_defined options.range then ok tt else validate_hash options v)

  -- After the last response: the error that ended the call, or the validation.
  abbrev pub at_end : ReadOptions → Option Thrown → Validator → Result FileError (Unit {0})
  at_end options none v = validate options v
  at_end options (some e) v = err (call_failed e)

  -- `toDataStream`: the bytes delivered so far, the error that ends the call if there is one, and the
  -- responses that are left.
  unfoldable pub to_data_stream :
      ReadOptions → Option Thrown → ℕ → Validator → List Response → Transfer
  to_data_stream options last delivered v [] = record {
    yielded = [];
    acks = [];
    outcome = at_end options last v;
  }
  to_data_stream options last delivered v (chunk data' ∷ rest) =
      let total = delivered + length data' in
      let later = to_data_stream options last total (update options data' v) rest in
      if options.enable_acks
      then (if options.has_signer then yield_chunk data' (some total) later else refused_ack data')
      else yield_chunk data' none later
  to_data_stream options last delivered v (proof p ∷ rest) =
      to_data_stream options last delivered (prove p v) rest
  to_data_stream options last delivered v (other ∷ rest) =
      to_data_stream options last delivered v rest

  unfoldable pub read_responses : ReadOptions → Option Thrown → List Response → Transfer
  unfolding to_data_stream
  read_responses options last responses =
      to_data_stream options last 0 (record { hashed = []; is_proved = false }) responses
