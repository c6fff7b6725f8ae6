-- ===== src/Tests/Wire.antt =====
-- Runs of src/t6_kvm/protocol.py on frames of bytes.
use nanopc_t6_kvm.Base.{
  ℕ, zero, suc, ◌+◌, ◌≡◌, ◌≢◌, ◌↔◌, refl, ap, arith, List, [], ◌∷◌, ◌++◌, length, All, ok, err, be,
}
use nanopc_t6_kvm.Protocol.{
  invalid_nal_header, not_annex_b, empty_nal, key_mismatch, incomplete_read, max_payload,
}
use nanopc_t6_kvm.Protocol.Nal.{nal_types}
use nanopc_t6_kvm.Protocol.Nal.Stream.{IsUnit, annex_b, nal_types-annex_b}
use nanopc_t6_kvm.Protocol.Validate.{validate}
use nanopc_t6_kvm.Protocol.Validate.Accepts.{IsValid, validate_iff}
use nanopc_t6_kvm.Protocol.Wire.{pack_header, pack, read_frame}
use nanopc_t6_kvm.Protocol.Wire.RoundTrip.{read_frame-pack, pack-read_frame}
use nanopc_t6_kvm.Protocol.Wire.Untrusted.{read_frame_bounded}
use nanopc_t6_kvm.Tests.Samples.{
  toy_json, sps, pps, idr, key_bytes, slice_bytes, key_frame, slice_frame,
}

key_types : nal_types key_bytes ≡ ok (5 ∷ 8 ∷ 7 ∷ [])
unfolding nal_types
key_types = refl

no_start_code : nal_types (1 ∷ 2 ∷ 3 ∷ []) ≡ err not_annex_b
unfolding nal_types
no_start_code = refl

cut_off : nal_types (0 ∷ 0 ∷ 0 ∷ 1 ∷ []) ≡ err empty_nal
unfolding nal_types
cut_off = refl

forbidden_bit : nal_types (0 ∷ 0 ∷ 1 ∷ 0xe5 ∷ []) ≡ err invalid_nal_header
unfolding nal_types
forbidden_bit = refl

unmarked_key : validate toy_json (record (key_frame 1) { flags = 1 }) ≡ err key_mismatch
unfolding validate nal_types
unmarked_key = refl

key_frame-valid : validate toy_json (key_frame 1) ≡ ok (key_frame 1)
unfolding validate nal_types
key_frame-valid = refl

abbrev packed : List ℕ
packed =
    0x54 ∷ 0x36 ∷ 0x41 ∷ 0x55 ∷ 1 ∷ 1 ∷ 0 ∷ 48 ∷ 0 ∷ 0 ∷ 0 ∷ 6 ∷ 0 ∷ 0 ∷ 0 ∷ 1 ∷ 0 ∷ 0 ∷ 7 ∷ 0x80
    ∷ 0 ∷ 0 ∷ 4 ∷ 0x38 ∷ 0 ∷ 0 ∷ 0 ∷ 0 ∷ 0 ∷ 0 ∷ 0 ∷ 7 ∷ 0 ∷ 0 ∷ 0 ∷ 0 ∷ 0 ∷ 0 ∷ 0 ∷ 2 ∷ 0 ∷ 0 ∷ 0
    ∷ 0 ∷ 0 ∷ 0 ∷ 0x82 ∷ 0x35 ∷ slice_bytes

slice_packed : pack toy_json (slice_frame 2) ≡ ok packed
unfolding pack validate nal_types pack_header be
slice_packed = refl

packed_read : read_frame toy_json (packed ++ (9 ∷ [])) ≡ ok (slice_frame 2, 9 ∷ [])
packed_read = read_frame-pack toy_json (slice_frame 2) packed (9 ∷ []) slice_packed

read_frame-pack_example :
    read_frame toy_json (packed ++ (1 ∷ 2 ∷ [])) ≡ ok (slice_frame 2, 1 ∷ 2 ∷ [])
read_frame-pack_example = read_frame-pack toy_json (slice_frame 2) packed (1 ∷ 2 ∷ []) slice_packed

pack-read_frame_example :
    (bytes : List ℕ) × (pack toy_json (slice_frame 2) ≡ ok bytes)
    × (packed ++ (9 ∷ []) ≡ bytes ++ (9 ∷ []))
pack-read_frame_example =
    pack-read_frame toy_json (packed ++ (9 ∷ [])) (9 ∷ []) (slice_frame 2) (omega arith) packed_read

validate_iff_example :
    (validate toy_json (key_frame 1) ≡ ok (key_frame 1))
    ↔ ((key_frame 1 ≡ key_frame 1) × IsValid toy_json (key_frame 1))
validate_iff_example = validate_iff toy_json (key_frame 1) (key_frame 1)

units-IsUnit : All IsUnit (sps ∷ pps ∷ idr ∷ [])
units-IsUnit = (
  record { escaped = refl; clear = refl; typed = omega arith },
  (
    record { escaped = refl; clear = refl; typed = omega arith },
    (record { escaped = refl; clear = refl; typed = omega arith }, tt),
  ),
)

nal_types-annex_b_example : nal_types (annex_b (sps ∷ pps ∷ idr ∷ [])) ≡ ok (5 ∷ 8 ∷ 7 ∷ [])
nal_types-annex_b_example = nal_types-annex_b (sps ∷ pps ∷ idr ∷ []) (λ e. cc) units-IsUnit

-- A long stream of zeros, kept shut.
zeros : ℕ → List ℕ
zeros zero = []
zeros (suc n) = 0 ∷ zeros n

length-zeros : (n : ℕ) → length (zeros n) ≡ n
unfolding zeros
length-zeros zero = refl
length-zeros (suc n) = ap suc (length-zeros n)

read_frame_bounded_example : read_frame toy_json (zeros (48 + max_payload)) ≢ err incomplete_read
read_frame_bounded_example =
    read_frame_bounded toy_json (zeros (48 + max_payload))
      (omega (arith, length-zeros (48 + max_payload)))
