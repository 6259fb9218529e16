-- ===== src/FileStorage.antt =====
-- packages/file-storage/src: files (File.ts) and the storage that cuts large ones into parts
-- (FileStorage.ts, constants.ts). The DDC node is an argument; it may change the world.
pub mod Requests
pub mod Stored
pub mod Whole
mod Tests
use mathlib.Core.List.{flatten}
use cere_ddc_sdk_js.Common.{
  ℕ, zero, suc, ◌*◌, ◌+◌, Bool, true, false, Option, none, some, List, [], ◌∷◌, ◌++◌, String,
  Result, ok, err, ltb, length, or_else, if◌then◌else◌,
}
use cere_ddc_sdk_js.Streams.{Bytes, Content, bytes, get_content_size, content_body, with_chunk_size}
use cere_ddc_sdk_js.Cid.{Base32}
use cere_ddc_sdk_js.Piece.{Piece, PieceMeta, new_piece, MultipartPiece, new_multipart_piece}
use cere_ddc_sdk_js.Nodes.{Thrown}

abbrev pub min_buffer_size : ℕ
min_buffer_size = 4 * 1024 * 1024

abbrev pub max_buffer_size : ℕ
max_buffer_size = 128 * 1024 * 1024

abbrev pub default_buffer_size : ℕ
default_buffer_size = max_buffer_size

-- `body` is a stream of chunks; see `Streams.content_body`.
pub record File : Type 0 where
  pub body : Option (List Bytes)
  pub size : Option ℕ

-- The constructor, with the size of the metadata.
unfoldable pub new_file : Content → Option ℕ → File
unfolding content_body get_content_size
new_file content size = record { body = content_body content; size = get_content_size content size }

pub record PieceStoreOptions : Type 0 where
  pub access_token : Option String
  pub name : Option String
  pub correlation_id : Option String

-- What a node stores: `Piece | MultipartPiece`, with the options.
pub data Request : Type 0 where
  raw_piece : Piece → PieceStoreOptions → Request
  multipart_piece : MultipartPiece → PieceStoreOptions → Request

-- What is thrown: by the node, by the guard of `store`, by `new Cid` in the constructor of the
-- multipart piece; `endless` stands for a stream that does not end.
pub data StoreError : Type 0 where
  node_failed : Thrown → StoreError
  bad_buffer_size : StoreError
  bad_part_cid : StoreError
  endless : StoreError

-- `{ accessToken: options?.accessToken }`
abbrev pub part_options : PieceStoreOptions → PieceStoreOptions
part_options options = record {
  access_token = options.access_token;
  name = none;
  correlation_id = none;
}

-- `new Piece(part, { multipartOffset: offset })`
abbrev pub part_request : PieceStoreOptions → ℕ → Bytes → Request
unfolding new_piece
part_request options offset part =
    raw_piece (new_piece (bytes part) (record { multipart_offset = some offset; size = none }))
      (part_options options)

-- `new Piece(content)`
abbrev pub whole_request : PieceStoreOptions → Bytes → Request
whole_request options content =
    raw_piece (new_piece (bytes content) (record { multipart_offset = none; size = none })) options

-- `options?.maxBufferSize || DEFAULT_BUFFER_SIZE`
abbrev pub part_size_of : Option ℕ → ℕ
part_size_of none = default_buffer_size
part_size_of (some zero) = default_buffer_size
part_size_of (some (suc n)) = suc n

-- `file.size > partSize`; nothing is greater than a number if it is undefined.
abbrev pub exceeds : Option ℕ → ℕ → Bool
exceeds none part_size = false
exceeds (some size) part_size = ltb part_size size

-- `partSize > MAX_BUFFER_SIZE || partSize < MIN_BUFFER_SIZE`
abbrev pub is_out_of_range : ℕ → Bool
is_out_of_range part_size =
    if ltb max_buffer_size part_size then true else ltb part_size min_buffer_size

abbrev pub thrown_by : {W A : Type 0} → W × Result Thrown A → W × Result StoreError A
thrown_by (w, ok a) = (w, ok a)
thrown_by (w, err e) = (w, err (node_failed e))

-- `await this.ddcNode.storePiece(…)`, and what comes after it where it does not throw.
abbrev pub after_part :
    {W A B : Type 0} → (W → A → W × Result Thrown B) → W × Result Thrown A → W × Result Thrown B
after_part next (w, ok a) = next w a
after_part next (w, err e) = (w, err e)

module _ {W : Type 0} (store_piece : Request → W → W × Result Thrown String) where
  -- The loop of `storeLarge` over the parts that are left.
  unfoldable pub store_parts :
      PieceStoreOptions → List Bytes → ℕ → List String → W → W × Result Thrown (List String)
  store_parts options [] offset parts w = (w, ok parts)
  store_parts options (part ∷ rest) offset parts w =
      after_part
        (λ w' cid. store_parts options rest (offset + length part) (parts ++ (cid ∷ [])) w')
        (store_piece (part_request options offset part) w)

module _ {W : Type 0} (base32 : Base32) (store_piece : Request → W → W × Result Thrown String) where
  abbrev pub store_multipart :
      PieceStoreOptions → Option MultipartPiece → W → W × Result StoreError String
  store_multipart options none w = (w, err bad_part_cid)
  store_multipart options (some piece) w = thrown_by (store_piece (multipart_piece piece options) w)

  -- After the loop: `new MultipartPiece(parts, { totalSize: file.size, partSize })`.
  abbrev pub finish_large :
      PieceStoreOptions → ℕ → ℕ → W × Result Thrown (List String) → W × Result StoreError String
  finish_large options total_size part_size (w, ok parts) =
      store_multipart options (new_multipart_piece base32 parts part_size total_size) w
  finish_large options total_size part_size (w, err e) = (w, err (node_failed e))

  abbrev pub store_stream :
      PieceStoreOptions → ℕ → ℕ → Option (List Bytes) → W → W × Result StoreError String
  store_stream options total_size part_size none w = (w, err endless)
  store_stream options total_size part_size (some parts) w =
      finish_large options total_size part_size (store_parts store_piece options parts 0 [] w)

  unfoldable pub store_large : File → PieceStoreOptions → ℕ → W → W × Result StoreError String
  unfolding store_parts with_chunk_size new_multipart_piece
  store_large file options part_size w = elim file.body [
    | none ↦ (w, err endless)
    | some body ↦
        store_stream options (or_else file.size 0) part_size (with_chunk_size part_size body) w
  ]

  unfoldable pub store_small : File → PieceStoreOptions → W → W × Result StoreError String
  store_small file options w = elim file.body [
    | none ↦ (w, err endless)
    | some body ↦ thrown_by (store_piece (whole_request options (flatten body)) w)
  ]

  -- `store`, where the second argument of the options is `maxBufferSize`.
  unfoldable pub store : File → PieceStoreOptions → Option ℕ → W → W × Result StoreError String
  unfolding store_large store_small
  store file options max_buffer w =
      let part_size = part_size_of max_buffer in
      if is_out_of_range part_size
      then (w, err bad_buffer_size)
      else (if exceeds file.size part_size
          then store_large file options part_size w
          else store_small file options w)
