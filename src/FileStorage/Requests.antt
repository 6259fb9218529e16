-- ===== src/FileStorage/Requests.antt =====
-- The requests by which packages/file-storage/src/FileStorage.ts stores a file.
use cere_ddc_sdk_js.Common.{
  ℕ, ◌+◌, ◌≡◌, ◌⊎◌, inl, inr, refl, sym, ◌∙◌, List, [], ◌∷◌, ◌++◌, String, Result, ok, err, length,
  append-nil, append_assoc,
}
use cere_ddc_sdk_js.Streams.{Bytes}
use cere_ddc_sdk_js.Nodes.{Thrown}
use cere_ddc_sdk_js.FileStorage.{PieceStoreOptions, Request, part_request, after_part, store_parts}

-- The requests for the parts from an offset on.
abbrev pub part_requests : PieceStoreOptions → ℕ → List Bytes → List Request
part_requests options offset [] = []
part_requests options offset (part ∷ rest) =
    part_request options offset part ∷ part_requests options (offset + length part) rest

module _ {W : Type 0} (store_piece : Request → W → W × Result Thrown String) where
  -- The node answered the requests, in this order and with these CIDs, and no others between.
  abbrev pub Stores : List Request → List String → W → W → Type 0
  Stores [] [] w w' = w ≡ w'
  Stores (r ∷ rs) (cid ∷ cids) w w' =
      (v : W) × (store_piece r w ≡ (v, ok cid)) × Stores rs cids v w'
  Stores _ _ w w' = ⊥

  -- The node answered some first requests, and threw at the next one, which was the last it got.
  abbrev pub Fails : List Request → Thrown → W → W → Type 0
  Fails [] e w w' = ⊥
  Fails (r ∷ rs) e w w' =
      (store_piece r w ≡ (w', err e))
      ⊎ ((v : W) × (cid : String) × (store_piece r w ≡ (v, ok cid)) × Fails rs e v w')

  abbrev pub PartsOutcome :
      PieceStoreOptions
      → List Bytes
      → ℕ
      → List String
      → W
      → W × Result Thrown (List String)
      → Type 0
  PartsOutcome options chunks offset before w (w', ok parts) =
      (cids : List String) × (parts ≡ before ++ cids)
      × Stores (part_requests options offset chunks) cids w w'
  PartsOutcome options chunks offset before w (w', err e) =
      Fails (part_requests options offset chunks) e w w'

module _ {W : Type 0} (store_piece : Request → W → W × Result Thrown String)
    (options : PieceStoreOptions) where
  PartsOutcome-cons :
      (part : Bytes) (rest : List Bytes) (offset : ℕ) (before : List String) (cid : String)
      (w v : W) (r : W × Result Thrown (List String))
      → store_piece (part_request options offset part) w ≡ (v, ok cid)
      → PartsOutcome store_piece options rest (offset + length part) (before ++ (cid ∷ [])) v r
      → PartsOutcome store_piece options (part ∷ rest) offset before w r
  PartsOutcome-cons part rest offset before cid w v (w', ok parts) e (cids, joins, s) =
      (cid ∷ cids, joins ∙ (append_assoc before (cid ∷ []) cids), (v, e, s))
  PartsOutcome-cons part rest offset before cid w v (w', err thrown) e f = inr (v, cid, e, f)

  after_part-Outcome :
      (part : Bytes) (rest : List Bytes) (offset : ℕ) (before : List String) (w : W)
      (next : W → String → W × Result Thrown (List String)) (r : W × Result Thrown String)
      → store_piece (part_request options offset part) w ≡ r
      → ((v : W) (cid : String)
          → PartsOutcome store_piece options rest
              (offset + length part)
              (before ++ (cid ∷ []))
              v
              (next v cid))
      → PartsOutcome store_piece options (part ∷ rest) offset before w (after_part next r)
  after_part-Outcome part rest offset before w next (v, ok cid) e later =
      PartsOutcome-cons part rest offset before cid w v (next v cid) e (later v cid)
  after_part-Outcome part rest offset before w next (v, err thrown) e later = inl e

  pub store_parts-Outcome :
      (chunks : List Bytes) (offset : ℕ) (before : List String) (w : W)
      → PartsOutcome store_piece options chunks offset before w
          (store_parts store_piece options chunks offset before w)
  unfolding store_parts
  store_parts-Outcome [] offset before w = ([], sym (append-nil before), refl)
  store_parts-Outcome (part ∷ rest) offset before w =
      after_part-Outcome part rest offset before w _ _ refl
        (λ v cid. store_parts-Outcome rest (offset + length part) (before ++ (cid ∷ [])) v)
