-- ===== src/Auth/Delegation.antt =====
-- What a token derived by `AuthToken.from` of packages/ddc/src/auth/AuthToken.ts grants, and when
-- it counts as signed.
use cere_ddc_sdk_js.Common.{
  ℕ, ◌+◌, ◌≡◌, ◌⊎◌, inl, inr, refl, false, Option, none, some, List, [], ◌∷◌, Result, ok, err,
  or_else,
}
use cere_ddc_sdk_js.Streams.{Bytes}
use cere_ddc_sdk_js.Cid.{Base32, raw, map_option}
use cere_ddc_sdk_js.Auth.{
  Grant, Token, delegated, first, no_payload, AuthError, invalid_token, AddressCodec, grant_of,
  signature_of, with_prev, parent_if, from_grant, from, decode_piece, new_token,
  auth_token_expiration_time,
}

-- The grants of a token and of the tokens before it.
abbrev pub grants : Token → List Grant
grants (delegated grant before signature) = grant ∷ grants before
grants (first grant signature) = grant ∷ []
grants (no_payload signature) = []

-- A parent with a subject stays in the chain with all that is before it; one without is dropped,
-- and so is all that is before it.
abbrev pub kept : Option Bytes → Token → List Grant
kept none parent = []
kept (some subject) parent = grants parent

-- The same grant to nobody in particular; it is not to be delegated, and expires after a month,
-- where the parent does not say so.
abbrev pub passed_on : ℕ → Grant → Grant
passed_on now g = record g {
  can_delegate = some (or_else g.can_delegate false);
  expires_at = some (or_else g.expires_at (now + auth_token_expiration_time));
  subject = none;
}

-- A token without payload is refused; otherwise there is a new token without a signature.
abbrev pub Derives : ℕ → Token → Result AuthError Token → Type 0
Derives now parent r =
    ((grant_of parent ≡ none) × (r ≡ err invalid_token))
    ⊎ ((g : Grant) × (t : Token) × (grant_of parent ≡ some g)
        × (r ≡ ok t)
        × (grants t ≡ passed_on now g ∷ kept g.subject parent)
        × (signature_of t ≡ none))

decode_piece-raw :
    (base32 : Base32) (p : Option Bytes) → decode_piece base32 (map_option raw p) ≡ ok p
unfolding decode_piece
decode_piece-raw base32 none = refl
decode_piece-raw base32 (some b) = refl

with_prev-grants :
    (g : Grant) (subject : Option Bytes) (parent : Token)
    → grants (with_prev g (parent_if subject parent)) ≡ g ∷ kept subject parent
with_prev-grants g none parent = refl
with_prev-grants g (some subject) parent = refl

with_prev-signature : (g : Grant) (before : Option Token) → signature_of (with_prev g before) ≡ none
with_prev-signature g none = refl
with_prev-signature g (some parent) = refl

module _ (codec : AddressCodec) (base32 : Base32) (now : ℕ) where
  from_grant-Derives :
      (parent : Token) (g : Grant)
      → grant_of parent ≡ some g
      → Derives now parent (from_grant codec base32 now parent (some g))
  unfolding new_token
  from_grant-Derives parent g e = inr (
    g,
    with_prev (passed_on now g) (parent_if g.subject parent),
    e,
    rw (decode_piece-raw base32 g.piece_cid) refl,
    with_prev-grants _ g.subject parent,
    with_prev-signature _ _,
  )

  -- A derived token grants what its parent grants, to nobody in particular; the chain behind it is
  -- the parent's whole chain if the parent has a subject, and empty if it has none. Only a token
  -- without payload is refused.
  pub from-Derives : (parent : Token) → Derives now parent (from codec base32 now parent)
  unfolding from
  from-Derives (delegated g before s) = from_grant-Derives (delegated g before s) g refl
  from-Derives (first g s) = from_grant-Derives (first g s) g refl
  from-Derives (no_payload s) = inl (refl, refl)
