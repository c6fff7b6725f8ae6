-- ===== src/Tests/Buffers.antt =====
-- Runs of the bounded queue of src/t6_kvm/buffer.py.
use nanopc_t6_kvm.Base.{◌≤◌, ◌≡◌, ◌≢◌, refl, List, [], ◌∷◌, none, length, err}
use nanopc_t6_kvm.Gate.{accept}
use nanopc_t6_kvm.Gate.Decodable.{IsDecodable}
use nanopc_t6_kvm.Buffer.{queue_full, bad_capacity, fresh, make, put}
use nanopc_t6_kvm.Buffer.Run.{Call, put_call, get_call, run, run_delivers}
use nanopc_t6_kvm.Tests.Samples.{key_frame, slice_frame, status_frame}

capacity_nine : make 9 ≡ err bad_capacity
capacity_nine = refl

-- The third picture finds the queue full: the group of pictures is dropped.
abbrev calls : List Call
calls =
    put_call (key_frame 1)
    ∷ get_call
    ∷ put_call (slice_frame 2)
    ∷ put_call (slice_frame 3)
    ∷ put_call (slice_frame 4)
    ∷ put_call (key_frame 5)
    ∷ get_call
    ∷ []

calls-run : (run calls ([], fresh 2)).0 ≡ key_frame 1 ∷ key_frame 5 ∷ []
unfolding run put accept
calls-run = refl

run_delivers_example :
    let (log, b) = run calls ([], fresh 2) in
    IsDecodable none log × (length b.queue ≤ 2) × (put b status_frame ≢ err queue_full)
run_delivers_example = run_delivers 2 calls status_frame {b = fresh 2} refl
