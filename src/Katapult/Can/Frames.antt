-- ===== src/Katapult/Can/Frames.antt =====
-- Every frame that is sent is a valid classic CAN frame, and the UUID in it is the one given.
use aldis.Prelude.{
  ◌≤◌, ◌≡◌, refl, ap, ap₂, ◌∙◌, arith, List, [], ◌∷◌, map, Bytes, length, flatten, All,
}
use aldis.Prelude.Chunks.{chunks, flatten-chunks, chunks-length}
use aldis.Katapult.Can.{
  CanFrame, new_frame, expect_frame, katapult_request_id, classic_can_max_data, fragment_request,
}

abbrev pub IsValid : CanFrame → Type 0
IsValid f = (f.id ≤ 0x7ff) × (length f.payload ≤ classic_can_max_data)

fragment_lem :
    (chunk : Bytes)
    → length chunk ≤ 8
    → expect_frame (new_frame katapult_request_id chunk)
      ≡ record { id = katapult_request_id; payload = chunk }
unfolding expect_frame new_frame
fragment_lem chunk h = ground arith

payloads :
    (cs : List Bytes)
    → All (λ c. length c ≤ 8) cs
    → map
        (λ (f : CanFrame). f.payload)
        (map (λ chunk. expect_frame (new_frame katapult_request_id chunk)) cs)
      ≡ cs
payloads [] h = refl
payloads (c ∷ cs) h =
    ap₂ ◌∷◌ (ap (λ (f : CanFrame). f.payload) (fragment_lem c h.0)) (payloads cs h.1)

All-IsValid :
    (cs : List Bytes)
    → All (λ c. length c ≤ 8) cs
    → All
        (λ f. IsValid f × (f.id ≡ katapult_request_id))
        (map (λ chunk. expect_frame (new_frame katapult_request_id chunk)) cs)
All-IsValid [] h = tt
All-IsValid (c ∷ cs) h = (rw (fragment_lem c h.0) ((omega arith, h.0), refl), All-IsValid cs h.1)

-- A request is cut into frames that are valid and carry Katapult's request identifier, and their
-- payloads are the request again.
pub fragment_request-lossless :
    (request : Bytes)
    → (flatten (map (λ (f : CanFrame). f.payload) (fragment_request request)) ≡ request)
      × All (λ f. IsValid f × (f.id ≡ katapult_request_id)) (fragment_request request)
unfolding fragment_request
fragment_request-lossless request = (
  ap flatten (payloads (chunks 8 request) (chunks-length 8 request))
      ∙ flatten-chunks 8 request (omega arith),
  All-IsValid (chunks 8 request) (chunks-length 8 request),
)
