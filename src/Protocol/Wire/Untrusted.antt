-- ===== src/Protocol/Wire/Untrusted.antt =====
-- `read_frame` of src/t6_kvm/protocol.py on a stream from an untrusted peer: how much it needs.
use nanopc_t6_kvm.Base.{
  ℕ, ◌+◌, ◌≤◌, ◌≡◌, ◌≢◌, inl, inr, refl, ap, arith, Bool, true, false, ◌&&◌, not, List, [], ◌∷◌,
  ◌++◌, Option, none, some, ltb, leb, ◌==◌, if◌then◌else◌, Bool-cases, length, get_elem?, take,
  drop, length-append, take-append_le, drop-append_le, length-drop, Result, ok, err, ◌>>=◌, ◌>>◌,
  raise_if, err-injective,
}
use nanopc_t6_kvm.Value.{Value, Json}
use nanopc_t6_kvm.Protocol.{
  au, max_payload, ProtocolError, Frame, incomplete_read, bad_header, payload_length, au_requires,
  invalid_dimensions, no_coded_picture, key_mismatch, status_too_large, not_object,
  unsupported_kind, invalid_counter, empty_nal, not_annex_b,
}
use nanopc_t6_kvm.Protocol.Nal.{
  find_starts, next_start, add_type, header_type, unit_types, begins_late, nal_types,
}
use nanopc_t6_kvm.Protocol.Validate.{validate, check_au, check_status, object_or_raise}
use nanopc_t6_kvm.Protocol.Wire.{
  Header, unpack_header, frame_of, readexactly, known_header, payload_limit, read_frame,
}

-- A call that did not run into the end of the stream.
abbrev pub IsComplete : {A : Type 0} → Result ProtocolError A → Type 0
IsComplete r = r ≢ err incomplete_read

raise_if-IsComplete :
    {B : Type 0} (c : Bool) (e : ProtocolError) (k : Result ProtocolError B)
    → e ≢ incomplete_read
    → IsComplete k
    → IsComplete (raise_if c e >> k)
raise_if-IsComplete true e k h j = λ p. h (err-injective p)
raise_if-IsComplete false e k h j = j

-- The same, where what follows needs that the test failed.
raise_unless-IsComplete :
    {B : Type 0} (c : Bool) (e : ProtocolError) (k : Result ProtocolError B)
    → e ≢ incomplete_read
    → (c ≡ false → IsComplete k)
    → IsComplete (raise_if c e >> k)
raise_unless-IsComplete true e k h j = λ p. h (err-injective p)
raise_unless-IsComplete false e k h j = j refl

header_type-IsComplete : (o : Option ℕ) → IsComplete (header_type o)
header_type-IsComplete none = λ e. cc
header_type-IsComplete (some b) = ground arith

>>=-IsComplete :
    {A B : Type 0} (m : Result ProtocolError A) (f : A → Result ProtocolError B)
    → IsComplete m
    → ((a : A) → IsComplete (f a))
    → IsComplete (m >>= f)
>>=-IsComplete (ok a) f h j = j a
>>=-IsComplete (err e) f h j = λ p. h (ap err (err-injective p))

unit_types-IsComplete :
    (bytes : List ℕ) (ms : List (ℕ × ℕ)) (types : List ℕ) → IsComplete (unit_types bytes ms types)
unfolding unit_types
unit_types-IsComplete bytes [] types = λ e. cc
unit_types-IsComplete bytes (m ∷ ms) types =
    raise_if-IsComplete (leb (next_start ms (length bytes)) m.1) empty_nal _ (λ e. cc)
      (>>=-IsComplete (header_type (get_elem? bytes m.1)) _
        (header_type-IsComplete (get_elem? bytes m.1))
        (λ x. unit_types-IsComplete bytes ms (add_type types x)))

nal_types-IsComplete : (bytes : List ℕ) → IsComplete (nal_types bytes)
unfolding nal_types
nal_types-IsComplete bytes =
    raise_if-IsComplete (begins_late (find_starts 0 0 bytes)) not_annex_b _ (λ e. cc)
      (unit_types-IsComplete bytes (find_starts 0 0 bytes) [])

last_raise : (c : Bool) (e : ProtocolError) → e ≢ incomplete_read → IsComplete (raise_if c e)
last_raise true e h = λ p. h (err-injective p)
last_raise false e h = λ p. cc

check_au-IsComplete : (f : Frame) → IsComplete (check_au f)
unfolding check_au
check_au-IsComplete f =
    raise_if-IsComplete _ au_requires _ (λ e. cc)
      (raise_if-IsComplete _ invalid_dimensions _ (λ e. cc)
        (>>=-IsComplete (nal_types f.payload) _ (nal_types-IsComplete f.payload) (λ types.
          raise_if-IsComplete _ no_coded_picture _ (λ e. cc)
            (last_raise _ key_mismatch (λ e. cc)))))

object_or_raise-IsComplete : (o : Option Value) → IsComplete (object_or_raise o)
object_or_raise-IsComplete none = λ e. cc
object_or_raise-IsComplete (some v) = last_raise _ not_object (λ e. cc)

check_status-IsComplete : (json : Json) (f : Frame) → IsComplete (check_status json f)
unfolding check_status
check_status-IsComplete json f =
    raise_if-IsComplete _ status_too_large _ (λ e. cc)
      (object_or_raise-IsComplete (json.loads f.payload))

checks-IsComplete :
    (json : Json) (f : Frame)
    → IsComplete (if f.kind == au then check_au f else check_status json f)
checks-IsComplete json f = elim (Bool-cases (f.kind == au)) [
  | inl a ↦ rw a (check_au-IsComplete f)
  | inr s ↦ rw s (check_status-IsComplete json f)
]

validate-IsComplete : (json : Json) (f : Frame) → IsComplete (validate json f)
unfolding validate
validate-IsComplete json f =
    raise_if-IsComplete _ unsupported_kind _ (λ e. cc)
      (raise_if-IsComplete _ payload_length _ (λ e. cc)
        (raise_if-IsComplete _ invalid_counter _ (λ e. cc)
          (>>=-IsComplete (if f.kind == au then check_au f else check_status json f) _
            (checks-IsComplete json f) (λ u e. cc))))

readexactly-IsComplete :
    (n : ℕ) (s : List ℕ) → n ≤ length s → readexactly n s ≡ ok (take n s, drop n s)
readexactly-IsComplete n s h = let enough : leb n (length s) ≡ true = ground arith in rw enough refl

limit :
    (kind size : ℕ) → not (ltb 0 size && leb size (payload_limit kind)) ≡ false → size ≤ max_payload
limit kind size h = ground arith

payload_bounded :
    (json : Json) (h : Header) (s : List ℕ)
    → h.payload_size ≤ max_payload
    → max_payload ≤ length s
    → IsComplete {A = Frame × List ℕ}
        (readexactly h.payload_size s >>= λ r. validate json (frame_of h r.0) >>= λ f. ok (f, r.1))
payload_bounded json h s small enough = rw (readexactly-IsComplete h.payload_size s (omega arith)) (
    >>=-IsComplete (validate json (frame_of h (take h.payload_size s))) _
      (validate-IsComplete json (frame_of h (take h.payload_size s))) (λ f e. cc))

-- No input makes `read_frame` wait for more than 48 bytes and 4 MiB: with so many in the stream it
-- returns a frame or raises one of its protocol errors, whatever the length field says.
pub read_frame_bounded :
    (json : Json) (stream : List ℕ)
    → 48 + max_payload ≤ length stream
    → read_frame json stream ≢ err incomplete_read
unfolding read_frame
read_frame_bounded json stream enough =
    let h = unpack_header (take 48 stream) in
    rw (readexactly-IsComplete 48 stream (omega arith)) (
      raise_if-IsComplete (not (known_header h)) bad_header _ (λ e. cc)
        (raise_unless-IsComplete
          (not (ltb 0 h.payload_size && leb h.payload_size (payload_limit h.kind))) payload_length _
          (λ e. cc)
          (λ sized.
            payload_bounded json h (drop 48 stream) (limit h.kind h.payload_size sized)
              (omega (arith, length-drop 48 stream)))))

-- The answer of a reader, with `more` behind the rest of the stream.
abbrev pub extend :
    {A : Type 0} → List ℕ → Result ProtocolError (A × List ℕ) → Result ProtocolError (A × List ℕ)
extend more (ok (a, rest)) = ok (a, rest ++ more)
extend more (err e) = err e

module _ (more : List ℕ) where
  -- Two runs of a reader, the second with `more` behind its stream.
  abbrev Extends :
      {A : Type 0} → Result ProtocolError (A × List ℕ) → Result ProtocolError (A × List ℕ) → Type 0
  Extends m m' = IsComplete m → m' ≡ extend more m

  readexactly-Extends : (n : ℕ) (s : List ℕ) → Extends (readexactly n s) (readexactly n (s ++ more))
  readexactly-Extends n s done = elim (Bool-cases (leb n (length s))) [
    | inl long ↦
        let longer : leb n (length (s ++ more)) ≡ true = ground (arith, length-append s more) in
        let short_enough : n ≤ length s = ground arith in
        rw
          (long, longer, take-append_le n s more short_enough, drop-append_le n s more short_enough)
          refl
    | inr short ↦ absurd (done (rw short refl))
  ]

  >>=-Extends :
      {A B : Type 0} (m m' : Result ProtocolError (A × List ℕ))
      (f : A × List ℕ → Result ProtocolError (B × List ℕ))
      → Extends m m'
      → ((a : A) (s : List ℕ) → Extends (f (a, s)) (f (a, s ++ more)))
      → Extends (m >>= f) (m' >>= f)
  >>=-Extends (ok (a, s)) m' f h j done = rw (h (λ e. cc)) (j a s done)
  >>=-Extends (err e) m' f h j done = rw (h (λ p. done (ap err (err-injective p)))) refl

  raise_if-Extends :
      {A : Type 0} (c : Bool) (e : ProtocolError) (k k' : Result ProtocolError (A × List ℕ))
      → Extends k k'
      → Extends (raise_if c e >> k) (raise_if c e >> k')
  raise_if-Extends true e k k' h done = refl
  raise_if-Extends false e k k' h done = h done

  return-Extends :
      {A : Type 0} (m : Result ProtocolError A) (rest : List ℕ)
      → Extends (m >>= λ a. ok (a, rest)) (m >>= λ a. ok (a, rest ++ more))
  return-Extends (ok a) rest done = refl
  return-Extends (err e) rest done = refl

-- `read_frame` decides by the bytes that it consumes: an answer, a frame or a protocol error, stands
-- whatever arrives behind them. So a bad header is refused before any of its payload is read.
read_frame-append :
    (json : Json) (stream more : List ℕ)
    → read_frame json stream ≢ err incomplete_read
    → read_frame json (stream ++ more) ≡ extend more (read_frame json stream)
unfolding read_frame
read_frame-append json stream more =
    >>=-Extends more (readexactly 48 stream) (readexactly 48 (stream ++ more)) _
      (readexactly-Extends more 48 stream)
      (λ header s.
        raise_if-Extends more (not (known_header (unpack_header header))) bad_header _ _ (
          raise_if-Extends more _ payload_length _ _ (
            >>=-Extends more (readexactly (unpack_header header).payload_size s) _ _
              (readexactly-Extends more (unpack_header header).payload_size s)
              (λ payload rest.
                return-Extends more (validate json (frame_of (unpack_header header) payload))
                  rest))))
