-- ===== src/Protocol/Validate/Accepts.antt =====
-- What `Frame.validate` of src/t6_kvm/protocol.py accepts, without its order of tests.
use nanopc_t6_kvm.Base.{
  ℕ, ◌%◌, ◌^◌, ◌≤◌, ◌<◌, ◌≡◌, ◌≢◌, ◌↔◌, ◌⊎◌, inl, inr, refl, arith, Bool, true, false, ◌&&◌, ◌||◌,
  not, List, Option, none, some, ltb, leb, ◌==◌, if◌then◌else◌, ==_iff, Bool-cases, length,
  contains, ok, raise_if, >>=-eq-ok, raise_if-eq-ok,
}
use nanopc_t6_kvm.Value.{Value, Json, is_object}
use nanopc_t6_kvm.Protocol.{au, status_kind, max_payload, Frame, is_online, is_key}
use nanopc_t6_kvm.Protocol.Nal.{nal_types}
use nanopc_t6_kvm.Protocol.Validate.{
  validate, check_au, check_status, mismatched, is_dimension, object_or_raise, is_counter,
}

abbrev pub IsDimension : ℕ → Type 0
IsDimension n = (0 < n) × (n ≤ 4096) × (n % 2 ≡ 0)

-- An access unit: the picture is on line and numbered, its size is even and bounded, it holds a
-- coded picture, and it is marked as a key exactly when it holds an IDR picture, then with its
-- parameter sets.
pub record IsAu (f : Frame) : Type 0 where
  pub online : is_online f ≡ true
  pub epoch : f.epoch ≢ 0
  pub sequence : f.sequence ≢ 0
  pub width : IsDimension f.width
  pub height : IsDimension f.height
  pub types : List ℕ
  pub read : nal_types f.payload ≡ ok types
  pub picture : (contains 1 types ≡ true) ⊎ (contains 5 types ≡ true)
  pub key : is_key f ≡ contains 5 types
  pub sets : is_key f ≡ true → (contains 7 types ≡ true) × (contains 8 types ≡ true)

pub record IsStatus (json : Json) (f : Frame) : Type 0 where
  pub short : length f.payload ≤ 65536
  pub value : Value
  pub read : json.loads f.payload ≡ some value
  pub object : is_object value ≡ true

pub record IsValid (json : Json) (f : Frame) : Type 0 where
  pub flags : f.flags < 8
  pub nonempty : 0 < length f.payload
  pub bounded : length f.payload ≤ max_payload
  pub epoch : f.epoch < 2 ^ 64
  pub sequence : f.sequence < 2 ^ 64
  pub pts_us : f.pts_us < 2 ^ 64
  pub content : ((f.kind ≡ au) × IsAu f) ⊎ ((f.kind ≡ status_kind) × IsStatus json f)

mismatched-eq-false :
    (key : Bool) (types : List ℕ)
    → mismatched key types ≡ false
    → (key ≡ contains 5 types)
      × (key ≡ true → (contains 7 types ≡ true) × (contains 8 types ≡ true))
mismatched-eq-false true types h = (ground arith, λ _. (ground arith, ground arith))
mismatched-eq-false false types h = (ground arith, λ e. cc)

picture-cases :
    (types : List ℕ)
    → not (contains 1 types || contains 5 types) ≡ false
    → (contains 1 types ≡ true) ⊎ (contains 5 types ≡ true)
picture-cases types h = ground arith

raise_if-eq-tt : {E : Type 0} (c : Bool) (e : E) → raise_if c e ≡ ok tt → c ≡ false
raise_if-eq-tt true e h = cc
raise_if-eq-tt false e h = refl

dimensions :
    (w h : ℕ) → not (is_dimension w && is_dimension h) ≡ false → IsDimension w × IsDimension h
dimensions w h e = ground arith

numbered :
    (f : Frame)
    → not (is_online f) || f.epoch == 0 || f.sequence == 0 ≡ false
    → (is_online f ≡ true) × (f.epoch ≢ 0) × (f.sequence ≢ 0)
numbered f e = ground arith

check_au-IsAu : (f : Frame) → check_au f ≡ ok tt → IsAu f
unfolding check_au
check_au-IsAu f h =
    let (first, h1) = raise_if-eq-ok _ _ _ h in
    let (online, epoch, sequence) = numbered f first in
    let (sized, h2) = raise_if-eq-ok _ _ _ h1 in
    let (types, read, h3) = >>=-eq-ok (nal_types f.payload) _ h2 in
    let (coded, h4) = raise_if-eq-ok _ _ _ h3 in
    let (size_w, size_h) = dimensions f.width f.height sized in
    let (key, sets) = mismatched-eq-false (is_key f) types (raise_if-eq-tt _ _ h4) in
    record {
      online = online;
      epoch = epoch;
      sequence = sequence;
      width = size_w;
      height = size_h;
      types = types;
      read = read;
      picture = picture-cases types coded;
      key = key;
      sets = sets;
    }

mismatched-agree :
    (key : Bool) (types : List ℕ)
    → key ≡ contains 5 types
    → (key ≡ true → (contains 7 types ≡ true) × (contains 8 types ≡ true))
    → mismatched key types ≡ false
mismatched-agree true types e h = let both = h refl in ground arith
mismatched-agree false types e h = ground arith

IsAu-check_au : (f : Frame) → IsAu f → check_au f ≡ ok tt
unfolding check_au
IsAu-check_au f h =
    let agree = mismatched-agree (is_key f) h.types h.key h.sets in rw (h.read) (ground arith)

object_or_raise-eq-ok :
    (o : Option Value)
    → object_or_raise o ≡ ok tt
    → (v : Value) × (o ≡ some v) × (is_object v ≡ true)
object_or_raise-eq-ok none h = absurd (ground arith)
object_or_raise-eq-ok (some v) h = (v, refl, ground arith)

short_enough : (f : Frame) → ltb 65536 (length f.payload) ≡ false → length f.payload ≤ 65536
short_enough f h = ground arith

check_status-IsStatus : (json : Json) (f : Frame) → check_status json f ≡ ok tt → IsStatus json f
unfolding check_status
check_status-IsStatus json f h =
    let (short, h1) = raise_if-eq-ok _ _ _ h in
    let (value, read, object) = object_or_raise-eq-ok (json.loads f.payload) h1 in
    record { short = short_enough f short; value = value; read = read; object = object }

IsStatus-check_status : (json : Json) (f : Frame) → IsStatus json f → check_status json f ≡ ok tt
unfolding check_status
IsStatus-check_status json f h = rw (h.read) (rw (h.object) (ground arith))

content-cases :
    (json : Json) (f : Frame)
    → not (f.kind == au || f.kind == status_kind) || leb 8 f.flags ≡ false
    → (if f.kind == au then check_au f else check_status json f) ≡ ok tt
    → ((f.kind ≡ au) × IsAu f) ⊎ ((f.kind ≡ status_kind) × IsStatus json f)
content-cases json f known checked = elim (Bool-cases (f.kind == au)) [
  | inl a ↦ inl (ground arith, check_au-IsAu f (rw a at checked))
  | inr s ↦ inr (ground arith, check_status-IsStatus json f (rw s at checked))
]

headed :
    (f : Frame)
    → not (f.kind == au || f.kind == status_kind) || leb 8 f.flags ≡ false
    → not (ltb 0 (length f.payload) && leb (length f.payload) max_payload) ≡ false
    → not (is_counter f.epoch && is_counter f.sequence && is_counter f.pts_us) ≡ false
    → (f.flags < 8)
      × (0 < length f.payload)
      × (length f.payload ≤ max_payload)
      × (f.epoch < 2 ^ 64)
      × (f.sequence < 2 ^ 64)
      × (f.pts_us < 2 ^ 64)
headed f known sized counted = ground arith

validate-IsValid : (json : Json) (f g : Frame) → validate json f ≡ ok g → (f ≡ g) × IsValid json f
unfolding validate
validate-IsValid json f g h =
    let (known, h1) = raise_if-eq-ok _ _ _ h in
    let (sized, h2) = raise_if-eq-ok _ _ _ h1 in
    let (counted, h3) = raise_if-eq-ok _ _ _ h2 in
    let (_, checked, same) =
      >>=-eq-ok (if f.kind == au then check_au f else check_status json f) _ h3 in
    let (flags, nonempty, bounded, epoch, sequence, pts_us) = headed f known sized counted in
    (
      cc,
      record {
        flags = flags;
        nonempty = nonempty;
        bounded = bounded;
        epoch = epoch;
        sequence = sequence;
        pts_us = pts_us;
        content = content-cases json f known checked;
      },
    )

content-checked :
    (json : Json) (f : Frame)
    → ((f.kind ≡ au) × IsAu f) ⊎ ((f.kind ≡ status_kind) × IsStatus json f)
    → (not (f.kind == au || f.kind == status_kind) ≡ false)
      × ((if f.kind == au then check_au f else check_status json f) ≡ ok tt)
content-checked json f (inl (k, a)) =
    (ground arith, rw ((==_iff f.kind au).1 k) (IsAu-check_au f a))
content-checked json f (inr (k, s)) =
    let other : (f.kind == au) ≡ false = ground arith in
    (ground arith, rw other (IsStatus-check_status json f s))

IsValid-validate : (json : Json) (f : Frame) → IsValid json f → validate json f ≡ ok f
unfolding validate
IsValid-validate json f h =
    let (known, checked) = content-checked json f h.content in
    let flags : leb 8 f.flags ≡ false = ground arith in
    let sized : not (ltb 0 (length f.payload) && leb (length f.payload) max_payload) ≡ false =
      ground arith in
    let counted : not (is_counter f.epoch && is_counter f.sequence && is_counter f.pts_us) ≡ false =
      ground arith in
    rw (known, flags, sized, counted, checked) refl

-- `validate` returns the frame itself exactly when the frame is valid, and otherwise raises: it has
-- no other result.
pub validate_iff :
    (json : Json) (f g : Frame) → (validate json f ≡ ok g) ↔ ((f ≡ g) × IsValid json f)
validate_iff json f g =
    (λ h. validate-IsValid json f g h, λ h. rw (← h.0) (IsValid-validate json f h.1))
