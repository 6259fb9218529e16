-- ===== src/Auth/Sdk.antt =====
-- packages/ddc/src/auth/sdkToken.ts and the tokens of an operation: `createAuthToken` of
-- packages/ddc/src/nodes/StorageNode.ts, and `getSdkToken` of packages/ddc/src/routing/Router.ts.
-- One application signer is given; the registry has the random signers made for it.
pub mod Operation
use cere_ddc_sdk_js.Common.{
  ℕ, Bool, true, false, Option, none, some, List, [], ◌∷◌, String, Result, ok, err, and_then,
  or_else, lookup, insert, string_eq, ◌===◌, if◌then◌else◌,
}
use cere_ddc_sdk_js.Streams.{Bytes}
use cere_ddc_sdk_js.Cid.{Base32}
use cere_ddc_sdk_js.Auth.{
  Token, TokenParams, AuthError, AddressCodec, Signer, full_access, from, sign, is_signed,
  subject_of, signer_of, is_address,
}

abbrev pub Registry : Type 0
Registry = List (String × Signer)

-- `getSdkSigner`
abbrev pub get_sdk_signer : Registry → String → Option Signer
get_sdk_signer registry address = lookup address registry

-- `isValidSdkToken`
abbrev pub is_valid_sdk_token : AddressCodec → Signer → Token → Bool
is_valid_sdk_token codec signer token = is_address signer.address (signer_of codec token)

-- `maybeSdkSigner`, for a token that is there or not
abbrev pub maybe_sdk_signer : AddressCodec → Signer → Registry → Option Token → Signer
maybe_sdk_signer codec signer registry none = signer
maybe_sdk_signer codec signer registry (some token) = elim (signer_of codec token) [
  | none ↦ signer
  | some address ↦ or_else (get_sdk_signer registry address) signer
]

abbrev pub no_params : Option String → TokenParams
no_params subject = record {
  bucket_id = none;
  operations = [];
  can_delegate = none;
  expires_at = none;
  expires_in = none;
  subject = subject;
  piece_cid = none;
  prev = none;
}

-- `subject && getSdkSigner(signer, subject)`
abbrev pub subject_signer : Registry → Option String → Option Signer
subject_signer registry none = none
subject_signer registry (some subject) =
    if subject === "" then none else get_sdk_signer registry subject

module _ (codec : AddressCodec) (base32 : Base32) (to_binary : Token → Bytes) (now : ℕ)
    (signer : Signer) where
  -- `createSdkToken`: whether the signer is a `Web3Signer`, and the random signer that is made.
  unfoldable pub create_sdk_token : Bool → Signer → Registry → Registry × Result AuthError Token
  unfolding full_access sign
  create_sdk_token false random registry =
      (registry, and_then (full_access codec base32 now (no_params none)) (sign to_binary signer))
  create_sdk_token true random registry = (
    insert random.address random registry,
    and_then (full_access codec base32 now (no_params (some random.address)))
        (sign to_binary signer),
  )

  -- `getSdkToken` of a router: the settled promise of the call before, if there is one.
  unfoldable pub get_sdk_token :
      Bool → Signer → Registry → Option (Result AuthError Token) → Registry × Result AuthError Token
  unfolding create_sdk_token
  get_sdk_token is_web3 random registry none = create_sdk_token is_web3 random registry
  get_sdk_token is_web3 random registry (some (err e)) = (registry, err e)
  get_sdk_token is_web3 random registry (some (ok token)) =
      if is_valid_sdk_token codec signer token
      then (registry, ok token)
      else create_sdk_token is_web3 random registry

  -- The last line of `createAuthToken`.
  abbrev pub derive : Registry → Token → Result AuthError Token
  derive registry unsigned =
      and_then (from codec base32 now unsigned)
        (sign to_binary (or_else (subject_signer registry (subject_of codec unsigned)) signer))

  -- `createAuthToken` with the access token of the operation, and the node's root token.
  unfoldable pub create_auth_token :
      Registry → Option Token → Result AuthError Token → Result AuthError Token
  unfolding is_signed from sign
  create_auth_token registry none root = and_then root (derive registry)
  create_auth_token registry (some input) root =
      if is_signed codec input then ok input else derive registry input
