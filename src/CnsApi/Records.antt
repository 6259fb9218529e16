-- ===== src/CnsApi/Records.antt =====
-- Putting and getting records with packages/ddc/src/CnsApi/CnsApi.ts.
use cere_ddc_sdk_js.Common.{
  ℕ, Option-cases, subst, sym, ap, refl, inl, inr, ◌⊎◌, ◌≡◌, Bool, true, false, Option, none, some,
  String, Result, ok, err,
}
use cere_ddc_sdk_js.Streams.{Bytes}
use cere_ddc_sdk_js.Nodes.{Thrown, as_rpc_error}
use cere_ddc_sdk_js.Auth.{
  algorithm_of, create_signature, Token, AuthError, AddressCodec, Signer, ApiSignature,
}
use cere_ddc_sdk_js.Auth.Sdk.{maybe_sdk_signer}
use cere_ddc_sdk_js.Activity.{Environment, Moment, RpcMeta, ActivityError}
use cere_ddc_sdk_js.CnsApi.{
  ProtoRecord, RecordFields, Record, CnsError, cns_failed, CnsCalls, is_no_result, signed_proto,
  stored_record, put_result, put_signed, put_record, get_meta, get_record,
}

-- The service returns the record that was put just before under the name in the bucket.
abbrev pub Keeps : {W : Type 0} → CnsCalls W → Type 0
Keeps {W} calls =
    (meta meta' : RpcMeta) (bucket : ℕ) (r : ProtoRecord) (w w' : W)
    → calls.put meta bucket r w ≡ (w', ok tt)
    → (u : W) × (calls.get meta' bucket r.name w' ≡ (u, ok (some r)))

-- The record has the given fields, and its signer is the given one.
abbrev pub IsOf : AddressCodec → Signer → RecordFields → Record → Type 0
IsOf codec signer fields r =
    (r.name ≡ fields.name)
    × (r.cid ≡ fields.cid)
    × (r.ttl ≡ fields.ttl)
    × (r.signature.signer ≡ codec.encode_address signer.public_key)

create_signature_signer :
    (signer : Signer) (message : Bytes) (s : ApiSignature)
    → create_signature signer message ≡ ok s
    → s.signer ≡ signer.public_key
unfolding create_signature
create_signature_signer signer message s h = elim (Option-cases (algorithm_of signer.type)) [
  | inl bad ↦ cc (rw (bad, create_signature) at h)
  | inr (algorithm, good) ↦
      let same : record {
        algorithm = algorithm;
        signer = signer.public_key;
        value = signer.sign_message message;
      }
          ≡ s =
        cc (rw (good, create_signature) at h) in
      sym (ap (λ (q : ApiSignature). q.signer) same)
]

module _ {W : Type 0} (env : Environment) (to_binary : RecordFields → Bytes)
    (calls : CnsCalls W) where
  -- The record is read from the state as it is, whatever the metadata that the reader sends.
  abbrev pub IsReadBack : ℕ → String → Record → W → Type 0
  IsReadBack bucket name r w' =
      (reader : Option Signer) (moment : Moment) (token : Option Token)
      (correlation_id : Option String) (no_cache : Bool) (meta : RpcMeta)
      → get_meta env to_binary calls reader moment token bucket correlation_id no_cache ≡ ok meta
      → (u : W) × (get_record env to_binary calls reader moment token bucket name correlation_id
            no_cache w'
          ≡ (u, ok (some r)))

  module _ (signer : Signer) (bucket : ℕ) (fields : RecordFields) (w w' : W) (r : Record)
      (keeps : Keeps calls) where
    read_back :
        (s : ApiSignature) (sent : RpcMeta)
        → calls.put sent bucket (signed_proto fields s) w ≡ (w', ok tt)
        → IsReadBack bucket fields.name (stored_record env.codec fields s) w'
    unfolding get_record
    read_back s sent e reader moment token correlation_id no_cache meta h =
        let (u, got) = keeps sent meta bucket (signed_proto fields s) w w' e in
        (u, rw (h) (rw (got) refl))

    answer-IsOf :
        (s : ApiSignature) (sent : RpcMeta) (answer : W × Result Thrown (Unit {0}))
        → s.signer ≡ signer.public_key
        → calls.put sent bucket (signed_proto fields s) w ≡ answer
        → put_result (stored_record env.codec fields s) answer ≡ (w', ok r)
        → IsOf env.codec signer fields r × IsReadBack bucket fields.name r w'
    answer-IsOf s sent (v, ok tt) k e h =
        let same : stored_record env.codec fields s ≡ r = cc in
        let final : v ≡ w' = λ i. (h i).0 in
        let put_to : calls.put sent bucket (signed_proto fields s) w ≡ (w', ok tt) = cc in
        subst (λ q. IsOf env.codec signer fields q × IsReadBack bucket fields.name q w') same
          ((refl, refl, refl, ap env.codec.encode_address k), read_back s sent put_to)
    answer-IsOf s sent (v, err x) k e h = cc

    signed-IsOf :
        (made : Result AuthError ApiSignature) (sent : Result ActivityError RpcMeta)
        → ((s : ApiSignature) → made ≡ ok s → s.signer ≡ signer.public_key)
        → put_signed env to_binary calls bucket fields made sent w ≡ (w', ok r)
        → IsOf env.codec signer fields r × IsReadBack bucket fields.name r w'
    signed-IsOf (ok s) (ok meta) k h = answer-IsOf s meta _ (k s refl) refl h
    signed-IsOf (ok s) (err e) k h = cc
    signed-IsOf (err e) sent k h = cc

  -- Where the service keeps records: a record that was put without an error has the fields that
  -- were given, and is signed by the random signer that signed the token, or by the application's
  -- signer if there is none; and whoever can make the metadata of the request reads it back under
  -- its name as it was returned.
  pub get_record-put_record :
      (signer : Signer) (moment : Moment) (token : Option Token) (bucket : ℕ)
      (fields : RecordFields) (correlation_id : Option String) (w w' : W) (r : Record)
      → Keeps calls
      → put_record env to_binary calls (some signer) moment token bucket fields correlation_id w
        ≡ (w', ok r)
      → IsOf env.codec (maybe_sdk_signer env.codec signer env.registry token) fields r
        × IsReadBack bucket fields.name r w'
  unfolding put_record
  get_record-put_record signer moment token bucket fields correlation_id w w' r keeps h =
      let final_signer = maybe_sdk_signer env.codec signer env.registry token in
      signed-IsOf final_signer bucket fields w w' r keeps _ _
        (create_signature_signer final_signer _) h

  -- The result that belongs to an answer of the service.
  abbrev pub Answered :
      W × Result Thrown (Option ProtoRecord) → W × Result CnsError (Option Record) → Type 0
  Answered (u, ok none) result = result ≡ (u, ok none)
  Answered (u, ok (some p)) result =
      ((p.signature ≡ none) × (result ≡ (u, ok none)))
      ⊎ ((s : ApiSignature) × (r : Record) × (p.signature ≡ some s)
          × (result ≡ (u, ok (some r)))
          × (r.name ≡ p.name)
          × (r.cid ≡ p.cid)
          × (r.ttl ≡ p.ttl)
          × (r.signature.value ≡ s.value)
          × (r.signature.signer ≡ env.codec.encode_address s.signer))
  Answered (u, err e) result =
      ((is_no_result (as_rpc_error e) ≡ true) × (result ≡ (u, ok none)))
      ⊎ ((is_no_result (as_rpc_error e) ≡ false) × (result ≡ (u, err (cns_failed e))))
