-- ===== src/DdcUri/Tests.antt =====
-- Runs of packages/ddc-client/src/DdcUri.ts.
use cere_ddc_sdk_js.Common.{◌≡◌, refl, some, ok, string_eq}
use cere_ddc_sdk_js.Cid.Codec.{codec}
use cere_ddc_sdk_js.DdcUri.{file_uri, cid_or_name_of}

-- Test: the name of the options goes before what is no CID.
cid_or_name_of_both : cid_or_name_of (file_uri codec 1 "photo" (some "album")) ≡ ok "album"
unfolding cid_or_name_of file_uri
cid_or_name_of_both = refl
