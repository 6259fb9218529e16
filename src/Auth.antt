-- ===== src/Auth.antt =====
-- packages/ddc/src/auth/AuthToken.ts and packages/ddc/src/signature: tokens, their delegation and
-- their signatures. The address codec, the binary form of a token and signing are arguments.
pub mod Delegation
pub mod Sdk
mod Tests
use cere_ddc_sdk_js.Common.{
  ℕ, ◌+◌, ◌*◌, Bool, true, false, Option, none, some, List, [], ◌∷◌, String, Result, ok, err,
  and_then, or_else, is_defined, string_eq, ◌===◌, if◌then◌else◌,
}
use cere_ddc_sdk_js.Streams.{Bytes}
use cere_ddc_sdk_js.Cid.{Base32, Cid, text, raw, to_bytes, map_option}

abbrev pub auth_token_expiration_time : ℕ
auth_token_expiration_time = 30 * 24 * 60 * 60 * 1000

-- `Operation` of the tokens
pub data TokenOperation : Type 0 where
  unknown put get delete : TokenOperation

-- `SignerType`: the first two are the ones that DDC takes.
pub data SignerType : Type 0 where
  ed25519 sr25519 ecdsa ethereum : SignerType

pub data Algorithm : Type 0 where
  alg_ed_25519 alg_sr_25519 : Algorithm

-- The `Signature` of the RPC messages.
pub record ApiSignature : Type 0 where
  pub algorithm : Algorithm
  pub signer : Bytes
  pub value : Bytes

-- The `Payload` but for the token before it.
pub record Grant : Type 0 where
  pub bucket_id : Option ℕ
  pub operations : List TokenOperation
  pub can_delegate : Option Bool
  pub expires_at : Option ℕ
  pub subject : Option Bytes
  pub piece_cid : Option Bytes

-- The token of the RPC messages: its payload has a `prev`, or has none, or is missing.
pub data Token : Type 0 where
  delegated : Grant → Token → Option ApiSignature → Token
  first : Grant → Option ApiSignature → Token
  no_payload : Option ApiSignature → Token

pub record TokenParams : Type 0 where
  pub bucket_id : Option ℕ
  pub operations : List TokenOperation
  pub can_delegate : Option Bool
  pub expires_at : Option ℕ
  pub expires_in : Option ℕ
  pub subject : Option String
  pub piece_cid : Option Cid
  pub prev : Option Token

pub data AuthError : Type 0 where
  bad_address : String → AuthError
  bad_cid : AuthError
  -- 'Invalid token'
  invalid_token : AuthError
  -- `Signer type ${type} is not allowed in DDC`
  bad_signer : SignerType → AuthError

-- `encodeAddress` and `decodeAddress`; `decode` is `none` where it throws.
pub record AddressCodec : Type 0 where
  pub encode_address : Bytes → String
  pub decode_address : String → Option Bytes

pub record Signer : Type 0 where
  pub address : String
  pub public_key : Bytes
  pub type : SignerType
  pub sign_message : Bytes → Bytes

abbrev pub grant_of : Token → Option Grant
grant_of (delegated grant before signature) = some grant
grant_of (first grant signature) = some grant
grant_of (no_payload signature) = none

abbrev pub signature_of : Token → Option ApiSignature
signature_of (delegated grant before signature) = signature
signature_of (first grant signature) = signature
signature_of (no_payload signature) = signature

abbrev pub set_signature : ApiSignature → Token → Token
set_signature s (delegated grant before _) = delegated grant before (some s)
set_signature s (first grant _) = first grant (some s)
set_signature s (no_payload _) = no_payload (some s)

-- `params.subject ? decodeAddress(params.subject) : undefined`
abbrev pub decode_subject : AddressCodec → Option String → Result AuthError (Option Bytes)
decode_subject codec none = ok none
decode_subject codec (some address) =
    if address === "" then ok none else elim (codec.decode_address address) [
      | none ↦ err (bad_address address)
      | some b ↦ ok (some b)
    ]

abbrev pub known_bytes : Option Bytes → Result AuthError (Option Bytes)
known_bytes none = err bad_cid
known_bytes (some b) = ok (some b)

-- `params.pieceCid ? new Cid(params.pieceCid).toBytes() : undefined`
unfoldable pub decode_piece : Base32 → Option Cid → Result AuthError (Option Bytes)
unfolding to_bytes
decode_piece base32 none = ok none
decode_piece base32 (some (raw b)) = ok (some b)
decode_piece base32 (some (text cid)) =
    if cid === "" then ok none else known_bytes (to_bytes base32 (text cid))

abbrev pub with_prev : Grant → Option Token → Token
with_prev grant none = first grant none
with_prev grant (some before) = delegated grant before none

-- `params.expiresAt ?? Date.now() + expiresIn`
abbrev pub expiration : ℕ → TokenParams → ℕ
expiration now params =
    or_else params.expires_at (now + or_else params.expires_in auth_token_expiration_time)

-- `subject && parent`
abbrev pub parent_if : Option Bytes → Token → Option Token
parent_if none parent = none
parent_if (some subject) parent = some parent

module _ (codec : AddressCodec) (base32 : Base32) (now : ℕ) where
  -- The constructor; `now` is `Date.now()`.
  unfoldable pub new_token : TokenParams → Result AuthError Token
  new_token params = and_then (decode_subject codec params.subject) (λ subject.
      and_then (decode_piece base32 params.piece_cid) (λ piece_cid. ok (
        with_prev
          (record {
            bucket_id = params.bucket_id;
            operations = params.operations;
            can_delegate = some (or_else params.can_delegate false);
            expires_at = some (expiration now params);
            subject = subject;
            piece_cid = piece_cid;
          })
          params.prev)))

  abbrev pub from_grant : Token → Option Grant → Result AuthError Token
  from_grant parent none = err invalid_token
  from_grant parent (some grant) = new_token (record {
    bucket_id = grant.bucket_id;
    operations = grant.operations;
    can_delegate = grant.can_delegate;
    expires_at = grant.expires_at;
    expires_in = none;
    subject = none;
    piece_cid = map_option raw grant.piece_cid;
    prev = parent_if grant.subject parent;
  })

  -- `AuthToken.from`
  unfoldable pub from : Token → Result AuthError Token
  unfolding new_token
  from parent = from_grant parent (grant_of parent)

  -- `AuthToken.fullAccess`
  unfoldable pub full_access : TokenParams → Result AuthError Token
  unfolding new_token
  full_access params = new_token (record params { operations = get ∷ put ∷ delete ∷ [] })

-- `subject` as an address
abbrev pub subject_of : AddressCodec → Token → Option String
subject_of codec t = elim (grant_of t) [
  | none ↦ none
  | some grant ↦ map_option codec.encode_address grant.subject
]

-- `signature?.signer` as an address
abbrev pub signer_of : AddressCodec → Token → Option String
signer_of codec t =
    map_option (λ (s : ApiSignature). codec.encode_address s.signer) (signature_of t)

abbrev pub is_address : String → Option String → Bool
is_address address none = false
is_address address (some signer) = signer === address

-- `this.subject ? this.signature?.signer === this.subject : !!this.signature`
abbrev pub signed_by : Option String → Option String → Bool
signed_by none signer = is_defined signer
signed_by (some subject) signer =
    if subject === "" then is_defined signer else is_address subject signer

unfoldable pub is_signed : AddressCodec → Token → Bool
is_signed codec t = signed_by (subject_of codec t) (signer_of codec t)

abbrev pub algorithm_of : SignerType → Option Algorithm
algorithm_of ed25519 = some alg_ed_25519
algorithm_of sr25519 = some alg_sr_25519
algorithm_of _ = none

-- `createSignature` with the signer that `maybeSdkSigner` found.
unfoldable pub create_signature : Signer → Bytes → Result AuthError ApiSignature
create_signature signer message = elim (algorithm_of signer.type) [
  | none ↦ err (bad_signer signer.type)
  | some algorithm ↦ ok (record {
    algorithm = algorithm;
    signer = signer.public_key;
    value = signer.sign_message message;
  })
]

-- `token.sign(signer)`
unfoldable pub sign : (Token → Bytes) → Signer → Token → Result AuthError Token
unfolding create_signature
sign to_binary signer t =
    and_then (create_signature signer (to_binary t)) (λ s. ok (set_signature s t))
