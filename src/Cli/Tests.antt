-- ===== src/Cli/Tests.antt =====
-- Runs of packages/cli/src/upload/uploadDir.ts and packages/cli/src/download/downloadDir.ts.
use cere_ddc_sdk_js.Common.{
  zero, suc, ◌≡◌, refl, true, false, Option, none, some, [], ◌∷◌, String, Result, ok, err,
  if◌then◌else◌,
}
use cere_ddc_sdk_js.Streams.{Bytes}
use cere_ddc_sdk_js.Cid.Codec.{codec, encode}
use cere_ddc_sdk_js.Cli.{
  Entries, regular, directory, nil, entry, RootData, RootNode, CliClient, download_dir,
  not_a_cli_directory,
}
use cere_ddc_sdk_js.Cli.Directories.{visible_files}

abbrev data_form : RootData → Bytes
data_form d = (if d.is_cli_dir then 1 else 0) ∷ d.update_time ∷ []

abbrev parsed : Bytes → Option RootData
parsed (zero ∷ t ∷ []) = some (record { is_cli_dir = false; update_time = t })
parsed (suc zero ∷ t ∷ []) = some (record { is_cli_dir = true; update_time = t })
parsed _ = none

abbrev file_of : Option Bytes → Result String Bytes
file_of none = err "no file"
file_of (some b) = ok b

-- Files are named by the texts of their bytes, and nodes by themselves.
abbrev client : CliClient String RootNode
client = record {
  store_file = λ b. ok (encode b);
  read_file = λ cid. file_of (codec.decode cid);
  store_node = ok;
  read_node = ok;
  stringify = data_form;
  parse = parsed;
}

-- A directory with a hidden file, a directory in it, and an empty one.
abbrev photos : Entries
photos = entry ".git" (regular (0 ∷ [])) (
    entry "a.jpg" (regular (1 ∷ 2 ∷ [])) (
      entry "old" (directory (entry "b.jpg" (regular (3 ∷ [])) (entry ".x" (regular []) nil)))
        (entry "empty" (directory nil) nil)))

abbrev root : RootNode
root = record {
  data_buffer = 1 ∷ 7 ∷ [];
  links =
      record { cid = encode (1 ∷ 2 ∷ []); size = 2; name = "a.jpg" ∷ [] }
      ∷ record { cid = encode (3 ∷ []); size = 1; name = "old" ∷ "b.jpg" ∷ [] }
      ∷ [];
}

-- Test: the files that are left.
visible_files-photos :
    visible_files [] photos ≡ ("a.jpg" ∷ [], 1 ∷ 2 ∷ []) ∷ ("old" ∷ "b.jpg" ∷ [], 3 ∷ []) ∷ []
unfolding visible_files
visible_files-photos = refl

-- Test: a node that some other program made.
download_dir_other :
    download_dir client (record { data_buffer = []; links = [] }) ≡ err not_a_cli_directory
unfolding download_dir
download_dir_other = refl
