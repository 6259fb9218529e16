-- ===== src/Client/Access.antt =====
-- `grantAccess` of packages/ddc-client/src/DdcClient.ts.
pub mod Delegated
mod Tests
use cere_ddc_sdk_js.Common.{ℕ, some, String, Result, and_then}
use cere_ddc_sdk_js.Streams.{Bytes}
use cere_ddc_sdk_js.Cid.{Base32}
use cere_ddc_sdk_js.Auth.{Token, TokenParams, AuthError, AddressCodec, Signer, new_token, sign}

-- `new AuthToken({ ...params, subject }).sign(this.signer)`; `now` is `Date.now()`.
unfoldable pub grant_access :
    AddressCodec
    → Base32
    → (Token → Bytes)
    → ℕ
    → Signer
    → String
    → TokenParams
    → Result AuthError Token
unfolding new_token sign
grant_access codec base32 to_binary now signer subject params =
    and_then (new_token codec base32 now (record params { subject = some subject }))
      (sign to_binary signer)
