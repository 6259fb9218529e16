-- ===== src/Streams.antt =====
-- packages/ddc/src/streams/createStream.ts: the chunking transform and content streams.
-- A stream is the list of the chunks that it yields. The loop of `transform` runs on fuel, and
-- `none` stands for a loop that does not end (chunk size 0).
pub mod Chunks
pub mod Canonical
pub mod Ending
mod Tests
use mathlib.Core.Option
use cere_ddc_sdk_js.Common.{
  ℕ, zero, suc, ◌*◌, ◌-◌, Bool, true, false, Option, none, some, List, [], ◌∷◌, ◌++◌, leb, length,
  take, drop,
}

abbrev pub Bytes : Type 0
Bytes = List ℕ

abbrev pub content_chunk_size : ℕ
content_chunk_size = 4 * 1024 * 1024 - 100 * 1024

-- `while (buffer.byteLength >= chunkSize)`: what is enqueued, and the buffer that stays.
drain : ℕ → ℕ → Bytes → Option (List Bytes × Bytes)
drain zero chunk_size buffer = none
drain (suc fuel) chunk_size buffer = elim (leb chunk_size (length buffer)) [
  | true ↦
      Option.map (λ (out, rest). (take chunk_size buffer ∷ out, rest))
        (drain fuel chunk_size (drop chunk_size buffer))
  | false ↦ some ([], buffer)
]

-- `buffer ? Buffer.concat([buffer, data]) : Buffer.from(data)`
abbrev joined : Option Bytes → Bytes → Bytes
joined none data' = data'
joined (some buffer) data' = buffer ++ data'

transform : ℕ → Option Bytes → Bytes → Option (List Bytes × Bytes)
transform chunk_size buffer data' =
    drain (suc (length (joined buffer data'))) chunk_size (joined buffer data')

flush : Option Bytes → List Bytes
flush none = []
flush (some []) = []
flush (some (b ∷ bs)) = (b ∷ bs) ∷ []

-- What leaves the transform stream when the chunks of the second argument enter it.
pipe_through : ℕ → Option Bytes → List Bytes → Option (List Bytes)
pipe_through chunk_size buffer [] = some (flush buffer)
pipe_through chunk_size buffer (data' ∷ more) = elim (transform chunk_size buffer data') [
  | none ↦ none
  | some (out, rest) ↦ Option.map (λ later. out ++ later) (pipe_through chunk_size (some rest) more)
]

unfoldable pub with_chunk_size : ℕ → List Bytes → Option (List Bytes)
unfolding pipe_through flush transform drain
with_chunk_size chunk_size input = pipe_through chunk_size none input

-- `Content`: a byte array, anything that is iterated, or a stream that carries the symbol.
pub data Content : Type 0 where
  bytes : Bytes → Content
  iterable : List Bytes → Content
  content_stream : List Bytes → Content

pub is_content_stream : Content → Bool
is_content_stream (content_stream _) = true
is_content_stream _ = false

unfoldable pub get_content_size : Content → Option ℕ → Option ℕ
get_content_size (bytes b) default_size = some (length b)
get_content_size (iterable _) default_size = default_size
get_content_size (content_stream _) default_size = default_size

-- `toIterable(input instanceof Uint8Array ? [input] : input)`
unfoldable pub to_iterable : Content → List Bytes
to_iterable (bytes b) = b ∷ []
to_iterable (iterable chunks) = chunks
to_iterable (content_stream chunks) = chunks

-- A chunk size of `null` keeps the chunks as they are, and so does 0 (`chunkSize ? … : stream`).
unfoldable pub create_content_stream : Content → Option ℕ → Option (List Bytes)
unfolding to_iterable
create_content_stream input none = some (to_iterable input)
create_content_stream input (some zero) = some (to_iterable input)
create_content_stream input (some (suc n)) = with_chunk_size (suc n) (to_iterable input)

-- `isContentStream(content) ? content : createContentStream(content)`
unfoldable pub content_body : Content → Option (List Bytes)
unfolding create_content_stream
content_body (content_stream chunks) = some chunks
content_body (bytes b) = create_content_stream (bytes b) (some content_chunk_size)
content_body (iterable c) = create_content_stream (iterable c) (some content_chunk_size)
