-- ===== src/Cli/Directories.antt =====
-- Uploading a directory with packages/cli/src/upload/uploadDir.ts and downloading it again with
-- packages/cli/src/download/downloadDir.ts.
use cere_ddc_sdk_js.Common.{
  ℕ, ◌≡◌, refl, sym, Bool-cases, inl, inr, true, some, List, [], ◌∷◌, ◌++◌, map, String, Result, ok,
  if◌then◌else◌,
}
use mathlib.Core.List.{map-append}
use cere_ddc_sdk_js.Streams.{Bytes}
use cere_ddc_sdk_js.Cli.{
  FilePath, Item, Entries, regular, directory, nil, entry, FileLink, RootData, RootNode, CliClient,
  is_hidden, upload_file_link, upload_dir_links, upload_item,
}

-- The files of a directory below a path, in the order of `readdir`, but for hidden files and all that
-- is in hidden directories.
unfoldable mutual
  pub visible_files : FilePath → Entries → List (FilePath × Bytes)
  visible_files current nil = []
  visible_files current (entry name item rest) =
      let below = item_files (current ++ (name ∷ [])) item in
      let files = visible_files current rest in if is_hidden name then files else below ++ files

  pub item_files : FilePath → Item → List (FilePath × Bytes)
  item_files path (regular content) = (path, content) ∷ []
  item_files path (directory entries) = visible_files path entries

module _ {E N : Type 0} (client : CliClient E N) where
  -- What is stored without an error is read back by its CID, and the data of a root node is parsed to
  -- what it was made from.
  pub record IsFaithful : Type 0 where
    pub files :
        (b : Bytes) (cid : String) → client.store_file b ≡ ok cid → client.read_file cid ≡ ok b
    pub nodes :
        (node : RootNode) (cid : N)
        → client.store_node node ≡ ok cid
        → client.read_node cid ≡ ok node
    pub data' : (d : RootData) → client.parse (client.stringify d) ≡ some d

  abbrev upload_one : FilePath × Bytes → Result E FileLink
  upload_one (path, content) = upload_file_link client path content

  -- The links are those of the visible files.
  mutual
    unfolding upload_dir_links visible_files

    upload_dir_links-map :
        (current : FilePath) (entries : Entries)
        → upload_dir_links client current entries ≡ map upload_one (visible_files current entries)
    upload_dir_links-map current nil = refl
    upload_dir_links-map current (entry name item rest) =
        let below = upload_item-map (current ++ (name ∷ [])) item in
        let others = upload_dir_links-map current rest in
        elim (Bool-cases (is_hidden name)) [
          | inl hidden ↦ rw (hidden) others
          | inr shown ↦ rw (shown) (rw (below) (rw (others) (sym (map-append _ _ _))))
        ]

    upload_item-map :
        (path : FilePath) (item : Item)
        → upload_item client path item ≡ map upload_one (item_files path item)
    upload_item-map path (regular content) = refl
    upload_item-map path (directory entries) = upload_dir_links-map path entries

  module _ (faithful : IsFaithful) where
    abbrev root_of : ℕ → List FileLink → RootNode
    root_of update_time links = record {
      data_buffer = client.stringify (record { is_cli_dir = true; update_time = update_time });
      links = links;
    }
