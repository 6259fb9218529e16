-- ===== src/Cli.antt =====
-- packages/cli/src/upload/uploadDir.ts and packages/cli/src/download/downloadDir.ts: how the command
-- line uploads a directory as a DAG node of its files, and downloads it. A path is the list of its
-- segments; the answers of the client, and the form of the data of the root node, are arguments.
pub mod Directories
mod Tests
use text.Mathlib.Text.{starts_with}
use cere_ddc_sdk_js.Common.{
  ℕ, Bool, true, false, Option, none, some, List, [], ◌∷◌, ◌++◌, map, String, Result, ok, err,
  length, if◌then◌else◌,
}
use cere_ddc_sdk_js.Streams.{Bytes}

abbrev pub FilePath : Type 0
FilePath = List String

-- A directory: the names that `readdir` gives, with what they are.
mutual
  pub data Item : Type 0 where
    regular : Bytes → Item
    directory : Entries → Item

  pub data Entries : Type 0 where
    nil : Entries
    entry : String → Item → Entries → Entries

-- `Link` of an uploaded file: its name is its path below the root directory.
pub record FileLink : Type 0 where
  pub cid : String
  pub size : ℕ
  pub name : FilePath

-- `RootDagNodeData`, with the time of `new Date()`.
pub record RootData : Type 0 where
  pub is_cli_dir : Bool
  pub update_time : ℕ

-- The DAG node of a directory.
pub record RootNode : Type 0 where
  pub data_buffer : Bytes
  pub links : List FileLink

-- How the client answers, with the errors `E` and the CIDs `N` of DAG nodes, and the form of the data
-- as `JSON.stringify` and `JSON.parse` have it.
pub record CliClient (E N : Type 0) : Type 0 where
  pub store_file : Bytes → Result E String
  pub read_file : String → Result E Bytes
  pub store_node : RootNode → Result E N
  pub read_node : N → Result E RootNode
  pub stringify : RootData → Bytes
  pub parse : Bytes → Option RootData

pub data CliError (E : Type 0) : Type 0 where
  client_failed : E → CliError E
  -- 'The requested directory was not uploaded by the CLI.'
  not_a_cli_directory : CliError E

-- `Promise.all`: all values, or the first error of the list.
abbrev pub all_of : {E A : Type 0} → List (Result E A) → Result E (List A)
all_of [] = ok []
all_of (err e ∷ rest) = err e
all_of (ok a ∷ rest) = elim (all_of rest) [ err e ↦ err e | ok as' ↦ ok (a ∷ as') ]

-- Hidden files are skipped.
abbrev pub is_hidden : String → Bool
is_hidden name = starts_with name "."

module _ {E N : Type 0} (client : CliClient E N) where
  abbrev pub linked : FilePath → Bytes → Result E String → Result E FileLink
  linked path content (err e) = err e
  linked path content (ok cid) = ok (record { cid = cid; size = length content; name = path })

  -- `uploadFileLink`
  abbrev pub upload_file_link : FilePath → Bytes → Result E FileLink
  upload_file_link path content = linked path content (client.store_file content)

  -- `uploadDirLinks`: what the promises of the links settle to, for a directory and the path to it.
  unfoldable mutual
    pub upload_dir_links : FilePath → Entries → List (Result E FileLink)
    upload_dir_links current nil = []
    upload_dir_links current (entry name item rest) =
        let sub_links = upload_item (current ++ (name ∷ [])) item in
        let links = upload_dir_links current rest in
        if is_hidden name then links else sub_links ++ links

    pub upload_item : FilePath → Item → List (Result E FileLink)
    upload_item path (regular content) = upload_file_link path content ∷ []
    upload_item path (directory entries) = upload_dir_links path entries

  abbrev pub of_client : {A : Type 0} → Result E A → Result (CliError E) A
  of_client (ok a) = ok a
  of_client (err e) = err (client_failed e)

  abbrev pub store_root : ℕ → Result E (List FileLink) → Result E N
  store_root update_time (err e) = err e
  store_root update_time (ok links) = client.store_node (record {
    data_buffer = client.stringify (record { is_cli_dir = true; update_time = update_time });
    links = links;
  })

  -- `uploadDir`, with the time of the update.
  unfoldable pub upload_dir : ℕ → Entries → Result (CliError E) N
  unfolding upload_dir_links
  upload_dir update_time entries =
      of_client (store_root update_time (all_of (upload_dir_links [] entries)))

  -- `isCLIDirData` of the parsed data
  abbrev pub is_cli_dir_data : Option RootData → Bool
  is_cli_dir_data none = false
  is_cli_dir_data (some data') = data'.is_cli_dir

  abbrev pub named : FilePath → Result E Bytes → Result E (FilePath × Bytes)
  named path (err e) = err e
  named path (ok content) = ok (path, content)

  -- `downloadFile`: the path below the destination, and what is written there.
  abbrev pub download_file : FileLink → Result E (FilePath × Bytes)
  download_file link = named link.name (client.read_file link.cid)

  abbrev pub download_links : RootNode → Result (CliError E) (List (FilePath × Bytes))
  download_links node =
      if is_cli_dir_data (client.parse node.data_buffer)
      then of_client (all_of (map download_file node.links))
      else err not_a_cli_directory

  abbrev pub downloaded : Result E RootNode → Result (CliError E) (List (FilePath × Bytes))
  downloaded (err e) = err (client_failed e)
  downloaded (ok node) = download_links node

  -- `downloadDir`: the files that it writes.
  unfoldable pub download_dir : N → Result (CliError E) (List (FilePath × Bytes))
  download_dir source = downloaded (client.read_node source)
