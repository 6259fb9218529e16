-- ===== src/Client/Access/Delegated.antt =====
-- What an account can do with a token that `grantAccess` of packages/ddc-client/src/DdcClient.ts made
-- for it: the token of an operation in which it is the access token.
use cere_ddc_sdk_js.Common.{ℕ, ◌≡◌, some, [], ◌∷◌, string_eq}
use cere_ddc_sdk_js.Streams.{Bytes}
use cere_ddc_sdk_js.Cid.{Base32}
use cere_ddc_sdk_js.Auth.{
  Grant, Token, TokenParams, first, AddressCodec, Signer, ApiSignature, expiration,
}
use cere_ddc_sdk_js.Auth.Delegation.{grants, passed_on}
use cere_ddc_sdk_js.Auth.Sdk.{Registry}
use cere_ddc_sdk_js.Auth.Sdk.Operation.{IsSignedBy}

-- A token of one grant, which has the bucket and the operations of the parameters, and the expiration
-- that they ask for.
abbrev pub IsGrant : ℕ → TokenParams → Bytes → Grant → Type 0
IsGrant now params key g =
    (g.bucket_id ≡ params.bucket_id)
    × (g.operations ≡ params.operations)
    × (g.expires_at ≡ some (expiration now params))
    × (g.subject ≡ some key)

module _ (codec : AddressCodec) (base32 : Base32) (to_binary : Token → Bytes) where
  abbrev IsGranted : ℕ → Signer → TokenParams → Bytes → Token → Type 0
  IsGranted now owner params key t =
      (g : Grant) × (s : ApiSignature) × IsGrant now params key g
      × (t ≡ first g (some s))
      × (s.signer ≡ owner.public_key)

  module _ (grantor grantee : Signer) (now : ℕ) (registry : Registry) (key : Bytes) where
    -- The token of an operation: what was granted is granted to nobody in particular, behind it stands
    -- the token of the grantor, and it is signed by the grantee.
    abbrev pub IsDelegated : ℕ → TokenParams → Token → Token → Type 0
    IsDelegated made params t u =
        (g : Grant) × IsGrant made params key g
        × (grants t ≡ g ∷ [])
        × IsSignedBy grantor t
        × (grants u ≡ passed_on now g ∷ g ∷ [])
        × IsSignedBy grantee u
