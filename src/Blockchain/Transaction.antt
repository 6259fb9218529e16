-- ===== src/Blockchain/Transaction.antt =====
-- packages/blockchain/src/Blockchain.ts: sending a transaction. What the chain reports of it is an
-- argument, in its order; what the registry of the API decodes is one, too.
pub mod Outcome
use cere_ddc_sdk_js.Common.{
  ℕ, Option, none, some, List, [], ◌∷◌, map, String, Result, ok, err, ◌+str◌, or_option, string_eq,
  insert,
}

-- A JSON value, as far as the SDK reads it.
pub data Json : Type 0 where
  null : Json
  number : ℕ → Json
  text : String → Json
  other : Json

-- An event of the chain; `fields` pairs the name of each field with its data.
pub record EventRecord : Type 0 where
  pub section : String
  pub method : String
  pub fields : List (String × Json)

-- `Event`
pub record Event : Type 0 where
  pub section : String
  pub method : String
  pub data' : List Json
  pub payload : List (String × Json)

-- `dispatchError`: of a module, or another with its text.
pub data DispatchError (Module : Type 0) : Type 0 where
  in_module : Module → DispatchError Module
  other_error : String → DispatchError Module

-- A report of `signAndSend`; `finalized` is the hash of the block of a finalized status.
pub record Report (Module : Type 0) : Type 0 where
  pub finalized : Option String
  pub events : List EventRecord
  pub dispatch_error : Option (DispatchError Module)

-- What happens after the transaction is sent: a report, or the promise of `signAndSend` fails.
pub data Notice (Module : Type 0) : Type 0 where
  reported : Report Module → Notice Module
  failed : String → Notice Module

-- What the registry says of an error of a module.
pub record MetaError : Type 0 where
  pub section : String
  pub name : String
  pub docs : List String

-- `SendResult`
pub record SendResult : Type 0 where
  pub events : List Event
  pub tx_hash : String

-- `Object.fromEntries`: a later field of the same name replaces an earlier one.
abbrev pub from_entries : List (String × Json) → List (String × Json) → List (String × Json)
from_entries object [] = object
from_entries object ((name, value) ∷ rest) = from_entries (insert name value object) rest

abbrev pub to_event : EventRecord → Event
to_event e = record {
  section = e.section;
  method = e.method;
  data' = map (λ (f : String × Json). f.1) e.fields;
  payload = from_entries [] e.fields;
}

-- `docs.join(' ')`
abbrev pub join : List String → String
join [] = ""
join (s ∷ []) = s
join (s ∷ t ∷ rest) = s +str " " +str join (t ∷ rest)

module _ {Module : Type 0} (find_meta_error : Module → MetaError) where
  abbrev pub decoded : MetaError → String
  decoded e = e.section +str "." +str e.name +str ": " +str join e.docs

  abbrev pub error_message : DispatchError Module → String
  error_message (in_module m) = decoded (find_meta_error m)
  error_message (other_error s) = s

  -- What a report that is not final tells.
  abbrev pub of_error : Option (DispatchError Module) → Option (Result String SendResult)
  of_error none = none
  of_error (some e) = some (err (error_message e))

  -- The callback of `signAndSend`: a finalized status comes first.
  abbrev pub of_report : Report Module → Option String → Option (Result String SendResult)
  of_report r (some hash) = some (ok (record { events = map to_event r.events; tx_hash = hash }))
  of_report r none = of_error r.dispatch_error

  abbrev pub of_notice : Notice Module → Option (Result String SendResult)
  of_notice (reported r) = of_report r r.finalized
  of_notice (failed e) = some (err e)

  -- The promise of `send`: the first notice that tells something settles it.
  unfoldable pub send : List (Notice Module) → Option (Result String SendResult)
  unfolding insert
  send [] = none
  send (n ∷ rest) = or_option (of_notice n) (send rest)
