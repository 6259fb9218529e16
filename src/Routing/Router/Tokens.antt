-- ===== src/Routing/Router/Tokens.antt =====
-- The router of packages/ddc/src/routing/Router.ts with the token of its own that it gives to the
-- nodes: `getNode` in full, and sequences of its calls.
use cere_ddc_sdk_js.Common.{
  ℕ, ◌≡◌, refl, sym, subst, Bool, true, Option, none, some, List, [], ◌∷◌, String, Result, ok, err,
  All,
}
use cere_ddc_sdk_js.Streams.{Bytes}
use cere_ddc_sdk_js.Cid.{Base32}
use cere_ddc_sdk_js.Auth.{Token, AuthError, AddressCodec, Signer}
use cere_ddc_sdk_js.Auth.Sdk.{Registry, is_valid_sdk_token, get_sdk_token}
use cere_ddc_sdk_js.Auth.Sdk.Operation.{create_sdk_token_valid}
use cere_ddc_sdk_js.Routing.{RouterNode, Operation}
use cere_ddc_sdk_js.Routing.Strategy.{RoutingError}
use cere_ddc_sdk_js.Routing.Router.{Router, Surroundings, get_node}

-- The signer of the router, whether it is a `Web3Signer`, and what the packages give.
pub record Signing : Type 0 where
  pub codec : AddressCodec
  pub base32 : Base32
  pub to_binary : Token → Bytes
  pub signer : Signer
  pub is_web3 : Bool

-- A call of `getNode`, with the time, and the random signer that `createRandomSigner` would make.
pub record Request : Type 0 where
  pub world : Surroundings
  pub now : ℕ
  pub random : Signer
  pub operation : Operation
  pub bucket_id : ℕ
  pub exclude : List String

-- `sdk_token` is the field `sdkTokenPromise`, settled; `registry` has the random signers of the signer.
pub record TokenRouter : Type 0 where
  pub router : Router
  pub sdk_token : Option (Result AuthError Token)
  pub registry : Registry

pub data GetNodeError : Type 0 where
  routing_failed : RoutingError → GetNodeError
  token_failed : AuthError → GetNodeError

-- `new StorageNode(…, { authToken: await sdkTokenPromise })`, after a node was found.
abbrev pub with_sdk_token :
    Result AuthError Token
    → Result RoutingError RouterNode
    → Result GetNodeError (RouterNode × Token)
with_sdk_token token (err e) = err (routing_failed e)
with_sdk_token (err e) (ok node) = err (token_failed e)
with_sdk_token (ok token) (ok node) = ok (node, token)

module _ (signing : Signing) where
  abbrev pub token_at :
      Request → Option (Result AuthError Token) → Registry → Registry × Result AuthError Token
  token_at q before registry =
      get_sdk_token signing.codec signing.base32 signing.to_binary q.now signing.signer
        signing.is_web3 q.random registry before

  -- `getNode`
  unfoldable pub get_storage_node :
      Request → TokenRouter → TokenRouter × Result GetNodeError (RouterNode × Token)
  unfolding get_sdk_token get_node
  get_storage_node q r =
      let (registry', token) = token_at q r.sdk_token r.registry in
      let (router', found) = get_node q.world q.operation q.bucket_id q.exclude r.router in
      (
        record { router = router'; sdk_token = some token; registry = registry' },
        with_sdk_token token found,
      )

  -- One call after the other.
  unfoldable pub run :
      List Request → TokenRouter → TokenRouter × List (Result GetNodeError (RouterNode × Token))
  unfolding get_storage_node
  run [] r = (r, [])
  run (q ∷ rest) r =
      let (r', answer) = get_storage_node q r in
      let (last, answers) = run rest r' in (last, answer ∷ answers)

  -- The token of the answer, or the error with which it was not made, is the one given.
  abbrev pub HasToken : Result AuthError Token → Result GetNodeError (RouterNode × Token) → Type 0
  HasToken made (ok (node, token)) = made ≡ ok token
  HasToken made (err (token_failed e)) = made ≡ err e
  HasToken made (err (routing_failed e)) = Unit

  with_sdk_token-HasToken :
      (made : Result AuthError Token) (found : Result RoutingError RouterNode)
      → HasToken made (with_sdk_token made found)
  with_sdk_token-HasToken made (err e) = tt
  with_sdk_token-HasToken (err e) (ok node) = refl
  with_sdk_token-HasToken (ok token) (ok node) = refl

  -- All answers have the token, which the router still has, and no random signer was made since.
  abbrev pub IsShared :
      Result AuthError Token
      → Registry
      → TokenRouter × List (Result GetNodeError (RouterNode × Token))
      → Type 0
  IsShared made registry (last, answers) =
      All (HasToken made) answers × (last.sdk_token ≡ some made) × (last.registry ≡ registry)

  abbrev IsSettled : Result AuthError Token → Type 0
  IsSettled made =
      (token : Token)
      → made ≡ ok token
      → is_valid_sdk_token signing.codec signing.signer token ≡ true

  token_at_kept :
      (q : Request) (made : Result AuthError Token) (registry : Registry)
      → IsSettled made
      → token_at q (some made) registry ≡ (registry, made)
  unfolding get_sdk_token
  token_at_kept q (err e) registry valid = refl
  token_at_kept q (ok token) registry valid = rw (valid token refl) refl

  run-kept :
      (made : Result AuthError Token) (requests : List Request) (router : Router)
      (registry : Registry)
      → IsSettled made
      → IsShared made registry
          (run requests (record { router = router; sdk_token = some made; registry = registry }))
  unfolding run get_storage_node
  run-kept made [] router registry valid = (tt, refl, refl)
  run-kept made (q ∷ rest) router registry valid =
      let (router', found) = get_node q.world q.operation q.bucket_id q.exclude router in
      let (all, token, same) = run-kept made rest router' registry valid in
      subst
        (λ (p : Registry × Result AuthError Token). IsShared made registry (
          let (last, answers) =
            run rest (record { router = router'; sdk_token = some p.1; registry = p.0 }) in
          (last, with_sdk_token p.1 found ∷ answers)))
        (sym (token_at_kept q made registry valid))
        ((with_sdk_token-HasToken made found, all), token, same)

  -- Where the signer's address is that of its public key: whatever calls are made of a new router, the
  -- nodes all get the one token that the first call made, or the calls fail as making it failed; and a
  -- random signer is made for the first call at most.
  pub run-IsShared :
      (q : Request) (rest : List Request) (router : Router) (registry : Registry)
      → signing.codec.encode_address signing.signer.public_key ≡ signing.signer.address
      → IsShared
          (token_at q none registry).1
          (token_at q none registry).0
          (run (q ∷ rest) (record { router = router; sdk_token = none; registry = registry }))
  unfolding run get_storage_node get_sdk_token
  run-IsShared q rest router registry own =
      let (router', found) = get_node q.world q.operation q.bucket_id q.exclude router in
      let (registry', made) = token_at q none registry in
      let valid : IsSettled made = λ token e.
        create_sdk_token_valid signing.codec signing.base32 signing.to_binary q.now signing.signer
          own signing.is_web3 q.random registry registry' token (λ i. (registry', e i)) in
      let (all, token, same) = run-kept made rest router' registry' valid in
      ((with_sdk_token-HasToken made found, all), token, same)
