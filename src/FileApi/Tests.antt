-- ===== src/FileApi/Tests.antt =====
-- Runs of packages/ddc/src/FileApi/FileApi.ts.
use cere_ddc_sdk_js.Common.{
  ℕ, ◌+◌, ◌≡◌, ◌==◌, refl, Bool, true, false, none, some, List, [], ◌∷◌, ok, err, length,
}
use cere_ddc_sdk_js.Streams.{with_chunk_size, Bytes, bytes, content_stream}
use cere_ddc_sdk_js.Cid.Codec.{codec, encode}
use cere_ddc_sdk_js.Auth.{Signer, ed25519, create_signature}
use cere_ddc_sdk_js.Activity.{Environment}
use cere_ddc_sdk_js.FileApi.{
  RawCall, ceil_to_power_of_2, no_piece_size, negative_size, Response, chunk, proof, other,
  ReadOptions, read_options, read_responses, at_end, invalid_content,
}
use cere_ddc_sdk_js.FileApi.Calls.{
  FileApiOptions, CallParams, MultipartRequest, RawMetadata, FileCalls, put_raw_piece,
  put_multipart_piece, get_file,
}
use cere_ddc_sdk_js.FileApi.Reading.{data_of, proved_by, acks_of, entered, read_responses_transfer}
use cere_ddc_sdk_js.FileApi.Sending.{RawOutcome, put_raw_piece_bytes}

-- The node counts the bytes, and answers a reading with two chunks.
abbrev counting : RawCall ℕ RawMetadata
counting = record {
  send_metadata = λ meta size w. w;
  headers = λ w. (w, ok tt);
  send_content = λ b w. (w + length b, ok tt);
  complete = λ w. (w, ok (9 ∷ []));
}

abbrev two_chunks : List Response
two_chunks = chunk (1 ∷ []) ∷ other ∷ proof [] ∷ chunk (2 ∷ 3 ∷ []) ∷ []

abbrev calls : FileCalls ℕ
calls = record {
  put_multipart_piece = λ meta request w. (request.part_size, ok (8 ∷ []));
  put_raw_piece = λ meta. counting;
  get_file = λ meta request w. (w, ok (two_chunks, none));
}

abbrev env : Environment
env = record {
  codec = record { encode_address = encode; decode_address = codec.decode };
  registry = [];
  request_binary = λ r. r.id;
  base64 = encode;
  token_text = λ t. "token";
}

abbrev binary : MultipartRequest → Bytes
binary request = request.part_size ∷ []

abbrev app : Signer
app = record {
  address = encode (1 ∷ []);
  public_key = 1 ∷ [];
  type = ed25519;
  sign_message = λ m. 9 ∷ m;
}

abbrev options : FileApiOptions
options = record { signer = some app; authenticate = some true; enable_acks = none }

abbrev params : CallParams
params = record {
  moment = record { now = 12; request_id = "r"; correlation_id = "c" };
  token = none;
  correlation_id = none;
}

abbrev metadata : RawMetadata
metadata = record { bucket_id = 1; is_multipart = false; offset = none }

-- The hash of the test: the number of the bytes is three.
abbrev three_bytes : Bytes → Bool
three_bytes b = length b == 3

-- Test: three bytes arrive.
put_raw_piece_three :
    put_raw_piece env binary
      (λ _. three_bytes)
      options
      params
      calls
      metadata
      none
      (bytes (1 ∷ 2 ∷ 3 ∷ []))
      0
    ≡ (3, ok (9 ∷ []))
unfolding put_raw_piece with_chunk_size create_signature
put_raw_piece_three = refl

-- Test: a stream without a size.
put_raw_piece_no_size :
    put_raw_piece env binary
      (λ _. three_bytes)
      options
      params
      calls
      metadata
      none
      (content_stream [])
      0
    ≡ (0, err no_piece_size)
unfolding put_raw_piece
put_raw_piece_no_size = refl

-- Test: the part size that is declared.
put_multipart_piece_100 :
    put_multipart_piece env binary
      (λ _. three_bytes)
      options
      params
      calls
      (record { bucket_id = 1; total_size = 300; part_size = 100; part_hashes = [] })
      0
    ≡ (128, ok (8 ∷ []))
unfolding put_multipart_piece create_signature
put_multipart_piece_100 = refl

-- Test: a range that ends before it starts.
get_file_negative :
    get_file env binary (λ _. three_bytes) options params calls 1 [] (some (5, 2)) 0
    ≡ (0, err negative_size)
unfolding get_file
get_file_negative = refl

put_raw_piece_bytes_example :
    RawOutcome env binary
      (λ _. three_bytes)
      options
      params
      calls
      metadata
      (1 ∷ 2 ∷ 3 ∷ [])
      0
      (put_raw_piece env binary
        (λ _. three_bytes)
        options
        params
        calls
        metadata
        none
        (bytes (1 ∷ 2 ∷ 3 ∷ []))
        0)
put_raw_piece_bytes_example =
    put_raw_piece_bytes env binary (λ _. three_bytes) options params calls metadata none
      (1 ∷ 2 ∷ 3 ∷ []) 0

-- Test: 100 MB, in MB.
ceil_to_power_of_2_100 : ceil_to_power_of_2 100 ≡ 128
unfolding ceil_to_power_of_2
ceil_to_power_of_2_100 = refl

abbrev strict : ReadOptions
strict = read_options true none (some true) none

-- Test: both chunks are acknowledged with the bytes so far.
read_responses_acks : (read_responses three_bytes strict none two_chunks).acks ≡ 1 ∷ 3 ∷ []
unfolding read_responses
read_responses_acks = refl

-- Test: a chunk is missing.
read_responses_invalid :
    (read_responses three_bytes strict none (chunk (1 ∷ []) ∷ [])).outcome ≡ err invalid_content
unfolding read_responses
read_responses_invalid = refl

read_responses_transfer_example :
    ((read_responses three_bytes strict none two_chunks).yielded ≡ data_of two_chunks)
    × ((read_responses three_bytes strict none two_chunks).acks
        ≡ acks_of strict.enable_acks 0 (data_of two_chunks))
    × ((read_responses three_bytes strict none two_chunks).outcome
        ≡ at_end three_bytes strict none (record {
          hashed = entered strict.authenticate (data_of two_chunks);
          is_proved = proved_by false two_chunks;
        }))
read_responses_transfer_example = read_responses_transfer three_bytes strict none two_chunks refl
