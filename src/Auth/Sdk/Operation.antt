-- ===== src/Auth/Sdk/Operation.antt =====
-- The tokens that operations carry: `createAuthToken` of packages/ddc/src/nodes/StorageNode.ts and
-- `getSdkToken` of packages/ddc/src/routing/Router.ts.
use cere_ddc_sdk_js.Common.{
  sym, err, Option, ◌===◌, ===_refl, string_eq, Bool, and_then, ℕ, ◌≡◌, inl, inr, refl, ap, ◌∙◌,
  true, false, none, some, List, ◌∷◌, Result, ok, or_else, Bool-cases, Option-cases, subst,
}
use cere_ddc_sdk_js.Streams.{Bytes}
use cere_ddc_sdk_js.Cid.{Base32}
use cere_ddc_sdk_js.Auth.{
  Grant, Token, delegated, first, no_payload, AuthError, AddressCodec, Signer, ApiSignature,
  grant_of, signature_of, set_signature, is_signed, sign, create_signature, algorithm_of,
  subject_of, signer_of, signed_by, is_address, signer_of, signed_by,
}
use cere_ddc_sdk_js.Auth.Delegation.{from-Derives, passed_on, grants}
use cere_ddc_sdk_js.Auth.Sdk.{
  subject_signer, Registry, derive, create_auth_token, create_sdk_token, get_sdk_token,
  is_valid_sdk_token,
}

-- The token allows what the other one allows.
abbrev pub SameRights : Token → Token → Type 0
SameRights t u =
    (g : Grant) × (h : Grant) × (grant_of t ≡ some g)
    × (grant_of u ≡ some h)
    × (g.bucket_id ≡ h.bucket_id)
    × (g.operations ≡ h.operations)
    × (g.piece_cid ≡ h.piece_cid)

abbrev pub IsSignedBy : Signer → Token → Type 0
IsSignedBy signer t =
    (s : ApiSignature) × (signature_of t ≡ some s) × (s.signer ≡ signer.public_key)

-- The signer of a derived token: the random signer of the parent's subject, or the application's.
abbrev pub signer_for : AddressCodec → Signer → Registry → Token → Signer
signer_for codec signer registry parent =
    or_else (subject_signer registry (subject_of codec parent)) signer

pub signature_of-set_signature :
    (s : ApiSignature) (t : Token) → signature_of (set_signature s t) ≡ some s
signature_of-set_signature s (delegated h before _) = refl
signature_of-set_signature s (first h _) = refl
signature_of-set_signature s (no_payload _) = refl

grant_of-set_signature : (s : ApiSignature) (t : Token) → grant_of (set_signature s t) ≡ grant_of t
grant_of-set_signature s (delegated h before _) = refl
grant_of-set_signature s (first h _) = refl
grant_of-set_signature s (no_payload _) = refl

grants_head : (t : Token) (g : Grant) (gs : List Grant) → grants t ≡ g ∷ gs → grant_of t ≡ some g
grants_head (delegated h before _) g gs e = cc
grants_head (first h _) g gs e = cc
grants_head (no_payload _) g gs e = cc

is_signed_signature :
    (codec : AddressCodec) (t : Token) (g : Grant) (s : ApiSignature)
    → grant_of t ≡ some g
    → g.subject ≡ none
    → signature_of t ≡ some s
    → is_signed codec t ≡ true
unfolding is_signed
is_signed_signature codec t g s e n h =
    let nobody : subject_of codec t ≡ none = rw (e, subject_of) (rw (n) refl) in
    let somebody : signer_of codec t ≡ some (codec.encode_address s.signer) = rw (h) refl in
    ap (λ subject. signed_by subject (signer_of codec t)) nobody ∙ ap (signed_by none) somebody

module _ (to_binary : Token → Bytes) (signer : Signer) where
  pub sign-signature :
      (u t : Token)
      → sign to_binary signer u ≡ ok t
      → (s : ApiSignature) × (s.signer ≡ signer.public_key) × (set_signature s u ≡ t)
  unfolding sign create_signature
  sign-signature u t e = elim (Option-cases (algorithm_of signer.type)) [
    | inl bad ↦ cc (rw (bad, create_signature) at e)
    | inr (algorithm, good) ↦
        let same : set_signature
              (record {
                algorithm = algorithm;
                signer = signer.public_key;
                value = signer.sign_message (to_binary u);
              })
              u
            ≡ t =
          cc (rw (good, create_signature) at e) in
        (
          record {
            algorithm = algorithm;
            signer = signer.public_key;
            value = signer.sign_message (to_binary u);
          },
          refl,
          same,
        )
  ]

module _ (codec : AddressCodec) (base32 : Base32) (to_binary : Token → Bytes) (now : ℕ)
    (signer : Signer) (registry : Registry) where
  -- What holds of a token that was derived for an operation.
  abbrev pub DerivedFrom : Token → Token → Type 0
  DerivedFrom parent t =
      (is_signed codec t ≡ true)
      × SameRights t parent
      × IsSignedBy (signer_for codec signer registry parent) t

  set_signature-DerivedFrom :
      (parent u : Token) (g : Grant) (gs : List Grant) (s : ApiSignature)
      → grant_of parent ≡ some g
      → grants u ≡ passed_on now g ∷ gs
      → s.signer ≡ (signer_for codec signer registry parent).public_key
      → DerivedFrom parent (set_signature s u)
  set_signature-DerivedFrom parent u g gs s e f k =
      let same : grant_of (set_signature s u) ≡ some (passed_on now g) =
        grant_of-set_signature s u ∙ grants_head u _ gs f in
      let signed = signature_of-set_signature s u in
      (
        is_signed_signature codec (set_signature s u) (passed_on now g) s same refl signed,
        (passed_on now g, g, same, e, refl, refl, refl),
        (s, signed, k),
      )

  derive-DerivedFrom :
      (parent t : Token)
      → derive codec base32 to_binary now signer registry parent ≡ ok t
      → DerivedFrom parent t
  derive-DerivedFrom parent t h = elim (from-Derives codec base32 now parent) [
    | inl (e, r) ↦ cc (rw (r, derive) at h)
    | inr (g, u, e, r, f, n) ↦
        let (s, k, same) =
          sign-signature to_binary (signer_for codec signer registry parent) u t
            (rw (r, derive) at h) in
        subst (DerivedFrom parent) same (set_signature-DerivedFrom parent u g _ s e f k)
  ]

  -- The token of an operation without an access token is derived from the root token.
  pub create_auth_token_root :
      (parent t : Token)
      → create_auth_token codec base32 to_binary now signer registry none (ok parent) ≡ ok t
      → DerivedFrom parent t
  unfolding create_auth_token
  create_auth_token_root parent t h = derive-DerivedFrom parent t h

module _ (codec : AddressCodec) (base32 : Base32) (to_binary : Token → Bytes) (now : ℕ)
    (signer : Signer) (own : codec.encode_address signer.public_key ≡ signer.address) where
  sign_valid :
      (made : Result AuthError Token) (t : Token)
      → and_then made (sign to_binary signer) ≡ ok t
      → is_valid_sdk_token codec signer t ≡ true
  sign_valid (err e) t h = cc
  sign_valid (ok u) t h =
      let (s, k, same) = sign-signature to_binary signer u t h in
      let found : signature_of t ≡ some s =
        ap signature_of (sym same) ∙ signature_of-set_signature s u in
      let by : signer_of codec t ≡ some (codec.encode_address s.signer) = rw (found) refl in
      ap (is_address signer.address) (by ∙ ap (λ k'. some (codec.encode_address k')) k)
      ∙ ap (λ a. a === signer.address) own
      ∙ ===_refl signer.address

  pub create_sdk_token_valid :
      (is_web3 : Bool) (random : Signer) (registry registry' : Registry) (t : Token)
      → create_sdk_token codec base32 to_binary now signer is_web3 random registry
        ≡ (registry', ok t)
      → is_valid_sdk_token codec signer t ≡ true
  unfolding create_sdk_token
  create_sdk_token_valid false random registry registry' t h = sign_valid _ t (ap (λ p. p.1) h)
  create_sdk_token_valid true random registry registry' t h = sign_valid _ t (ap (λ p. p.1) h)

  -- Where the signer's address is that of its public key: a token that a router gets for itself,
  -- kept from an earlier call or made now, is signed by the router's signer.
  pub get_sdk_token_valid :
      (is_web3 : Bool) (random : Signer) (registry : Registry)
      (before : Option (Result AuthError Token)) (registry' : Registry) (t : Token)
      → get_sdk_token codec base32 to_binary now signer is_web3 random registry before
        ≡ (registry', ok t)
      → is_valid_sdk_token codec signer t ≡ true
  unfolding get_sdk_token
  get_sdk_token_valid is_web3 random registry none registry' t h =
      create_sdk_token_valid is_web3 random registry registry' t h
  get_sdk_token_valid is_web3 random registry (some (err e)) registry' t h = cc
  get_sdk_token_valid is_web3 random registry (some (ok token)) registry' t h =
      elim (Bool-cases (is_valid_sdk_token codec signer token)) [
        | inl valid ↦
            let same : token ≡ t = cc (rw (valid) at h) in
            subst (λ u. is_valid_sdk_token codec signer u ≡ true) same valid
        | inr stale ↦ create_sdk_token_valid is_web3 random registry registry' t (rw (stale) at h)
      ]
