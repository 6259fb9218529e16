-- ===== src/DdcUri/Target.antt =====
-- What `cidOrName` of packages/ddc-client/src/DdcUri.ts returns for a URI that was constructed.
use cere_ddc_sdk_js.Common.{
  ℕ, ◌≡◌, ◌⊎◌, inl, inr, refl, true, false, Option, String, ok, err, string_eq, ◌===◌,
  if◌then◌else◌, or_else, Bool-cases,
}
use cere_ddc_sdk_js.Cid.{Base32, text, is_cid}
use cere_ddc_sdk_js.DdcUri.{DdcEntity, empty_uri, new_uri, cid_or_name_of}

module _ (base32 : Base32) (bucket_id : ℕ) (entity : DdcEntity) where
  -- A URI that is made from a CID points to that CID, whatever the name.
  cid_target :
      (cid : String) (name : Option String)
      → is_cid base32 (text cid) ≡ true
      → (cid === "") ≡ false
      → cid_or_name_of (new_uri base32 bucket_id cid entity name) ≡ ok cid
  unfolding new_uri cid_or_name_of
  cid_target cid name h full = rw (h) (rw (full) refl)

  -- By what the URI is made from: a CID is the target, whatever name is given; anything else is the
  -- target as a name, unless another name is given, which is the target then. Nothing is the target
  -- where the name is empty.
  pub cid_or_name_of-new_uri :
      (given : String) (name : Option String)
      → (given === "") ≡ false
      → ((is_cid base32 (text given) ≡ true)
          × (cid_or_name_of (new_uri base32 bucket_id given entity name) ≡ ok given))
        ⊎ ((is_cid base32 (text given) ≡ false)
            × (cid_or_name_of (new_uri base32 bucket_id given entity name)
                ≡ (if or_else name given === "" then err empty_uri else ok (or_else name given))))
  unfolding new_uri cid_or_name_of
  cid_or_name_of-new_uri given name full = elim (Bool-cases (is_cid base32 (text given))) [
    | inl h ↦ inl (h, cid_target given name h full)
    | inr h ↦ inr (h, rw (h) refl)
  ]
