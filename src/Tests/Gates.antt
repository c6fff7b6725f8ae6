-- ===== src/Tests/Gates.antt =====
-- Runs of the recovery gate of src/t6_kvm/protocol.py.
use nanopc_t6_kvm.Base.{ℕ, ◌+◌, ◌≡◌, refl, false, List, [], ◌∷◌, none}
use nanopc_t6_kvm.Protocol.{Frame}
use nanopc_t6_kvm.Gate.{reset, seen, accept}
use nanopc_t6_kvm.Gate.Decodable.{Follows, IsDecodable, deliver, deliver-IsDecodable}
use nanopc_t6_kvm.Gate.Passes.{deliver_gop}
use nanopc_t6_kvm.Tests.Samples.{key_frame, slice_frame, status_frame}

-- Picture 3 is lost: nothing passes until the key picture 6.
abbrev lossy : List Frame
lossy =
    key_frame 1
    ∷ slice_frame 2
    ∷ slice_frame 4
    ∷ slice_frame 5
    ∷ key_frame 6
    ∷ slice_frame 7
    ∷ status_frame
    ∷ slice_frame 8
    ∷ []

lossy_delivered :
    deliver reset lossy ≡ key_frame 1 ∷ slice_frame 2 ∷ key_frame 6 ∷ slice_frame 7 ∷ []
unfolding deliver accept
lossy_delivered = refl

deliver-IsDecodable_example : IsDecodable none (deliver reset lossy)
deliver-IsDecodable_example = deliver-IsDecodable lossy

next_slice : (n : ℕ) → Follows (slice_frame n) (slice_frame (n + 1))
next_slice n = record {
  continuous = refl;
  epoch = refl;
  width = refl;
  height = refl;
  sequence = refl;
}

deliver_gop_example :
    deliver (seen false (slice_frame 9)) (key_frame 1 ∷ slice_frame 2 ∷ slice_frame 3 ∷ [])
    ≡ key_frame 1 ∷ slice_frame 2 ∷ slice_frame 3 ∷ []
deliver_gop_example =
    deliver_gop (seen false (slice_frame 9)) (key_frame 1) (slice_frame 2 ∷ slice_frame 3 ∷ []) refl
      refl
      (
        refl,
        record { continuous = refl; epoch = refl; width = refl; height = refl; sequence = refl },
        (refl, next_slice 2, tt),
      )
