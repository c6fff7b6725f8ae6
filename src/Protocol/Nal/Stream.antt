-- ===== src/Protocol/Nal/Stream.antt =====
-- `nal_types` on an Annex-B stream that an encoder put together from NAL units.
use nanopc_t6_kvm.Base.{
  ℕ, ◌+◌, ◌%◌, ◌<◌, ◌≡◌, ◌≢◌, refl, sym, ap, ◌∙◌, arith, Bool, true, false, ◌&&◌, not, List, [],
  ◌∷◌, ◌++◌, map, none, some, ◌==◌, has_bit, length, get_elem?, All,
}
use nanopc_t6_kvm.Base.{ok, length-append}
use nanopc_t6_kvm.Protocol.Nal.{
  start_code, find_starts, next_start, add_type, unit_types, begins_late, nal_types,
}
use mathlib.Core.List.{foldl, append_assoc}

-- A NAL unit behind its start code, which has three bytes or four.
pub record Unit264 : Type 0 where
  pub long : Bool
  pub header : ℕ
  pub body : List ℕ

abbrev pub unit_bytes : Unit264 → List ℕ
unit_bytes u = u.header ∷ u.body

abbrev pub prefix_bytes : Bool → List ℕ
prefix_bytes true = 0 ∷ 0 ∷ 0 ∷ 1 ∷ []
prefix_bytes false = 0 ∷ 0 ∷ 1 ∷ []

pub annex_b : List Unit264 → List ℕ
annex_b [] = []
annex_b (u ∷ us) = prefix_bytes u.long ++ (unit_bytes u ++ annex_b us)

abbrev begins_001 : List ℕ → Bool
begins_001 [] = false
begins_001 (a ∷ []) = false
begins_001 (a ∷ b ∷ []) = false
begins_001 (a ∷ b ∷ c ∷ rest) = a == 0 && b == 0 && c == 1

-- No start code stands inside, and the last byte is not zero (H.264, 7.4.1).
abbrev pub is_escaped : List ℕ → Bool
is_escaped [] = false
is_escaped (b ∷ []) = not (b == 0)
is_escaped (b ∷ c ∷ rest) = not (begins_001 (b ∷ c ∷ rest)) && is_escaped (c ∷ rest)

pub record IsUnit (u : Unit264) : Type 0 where
  pub escaped : is_escaped (unit_bytes u) ≡ true
  pub clear : has_bit u.header 7 ≡ false
  pub typed : u.header % 32 ≢ 0

abbrev pub unit_type : Unit264 → ℕ
unit_type u = u.header % 32

-- Nothing matches at the head of an escaped unit, whatever follows it.
start_code-escaped :
    (b : ℕ) (bs rest : List ℕ) → is_escaped (b ∷ bs) ≡ true → start_code ((b ∷ bs) ++ rest) ≡ none
start_code-escaped b [] [] h = refl
start_code-escaped b [] (r ∷ []) h = refl
start_code-escaped b [] (r ∷ s ∷ rest) h = ground arith
start_code-escaped b (c ∷ []) [] h = refl
start_code-escaped b (c ∷ []) (r ∷ rest) h = ground arith
start_code-escaped b (c ∷ d ∷ []) [] h = ground arith
start_code-escaped b (c ∷ d ∷ []) (r ∷ rest) h = ground arith
start_code-escaped b (c ∷ d ∷ e ∷ bs) rest h = ground arith

find_starts-none :
    (pos b : ℕ) (rest : List ℕ)
    → start_code (b ∷ rest) ≡ none
    → find_starts pos 0 (b ∷ rest) ≡ find_starts (pos + 1) 0 rest
unfolding find_starts
find_starts-none pos b rest h = rw (h, find_starts) refl

find_starts-escaped :
    (pos : ℕ) (bs rest : List ℕ)
    → is_escaped bs ≡ true
    → find_starts pos 0 (bs ++ rest) ≡ find_starts (pos + length bs) 0 rest
find_starts-escaped pos [] rest h = absurd (cc)
find_starts-escaped pos (b ∷ []) rest h =
    find_starts-none pos b rest (start_code-escaped b [] rest h)
find_starts-escaped pos (b ∷ c ∷ bs) rest h =
    let tail : is_escaped (c ∷ bs) ≡ true = ground arith in
    let shift : pos + 1 + length (c ∷ bs) ≡ pos + length (b ∷ c ∷ bs) = omega arith in
    find_starts-none pos b ((c ∷ bs) ++ rest) (start_code-escaped b (c ∷ bs) rest h)
    ∙ find_starts-escaped (pos + 1) (c ∷ bs) rest tail
    ∙ ap (λ p. find_starts p 0 rest) shift

find_starts-prefix :
    (pos : ℕ) (long : Bool) (rest : List ℕ)
    → find_starts pos 0 (prefix_bytes long ++ rest)
      ≡ (pos, pos + length (prefix_bytes long))
        ∷ find_starts (pos + length (prefix_bytes long)) 0 rest
unfolding find_starts
find_starts-prefix pos true rest =
    let p : pos + 1 + 1 + 1 + 1 ≡ pos + 4 = omega arith in
    ap (λ q. (pos, pos + 4) ∷ find_starts q 0 rest) p
find_starts-prefix pos false rest =
    let p : pos + 1 + 1 + 1 ≡ pos + 3 = omega arith in
    ap (λ q. (pos, pos + 3) ∷ find_starts q 0 rest) p

-- Where the payload of a unit at `pos` begins, and where the unit ends.
abbrev payload_at : ℕ → Unit264 → ℕ
payload_at pos u = pos + length (prefix_bytes u.long)

abbrev end_at : ℕ → Unit264 → ℕ
end_at pos u = payload_at pos u + length (unit_bytes u)

-- A start code gives a match over its bytes, and the search goes on behind the unit.
find_starts-unit :
    (pos : ℕ) (u : Unit264) (rest : List ℕ)
    → IsUnit u
    → find_starts pos 0 (prefix_bytes u.long ++ (unit_bytes u ++ rest))
      ≡ (pos, payload_at pos u) ∷ find_starts (end_at pos u) 0 rest
find_starts-unit pos u rest h =
    find_starts-prefix pos u.long (unit_bytes u ++ rest)
    ∙ ap (λ t. (pos, payload_at pos u) ∷ t)
        (find_starts-escaped (payload_at pos u) (unit_bytes u) rest h.escaped)

-- The first match at or after the end of a unit is where the unit ends, or the data ends there.
next_start-annex_b :
    (pos : ℕ) (us : List Unit264)
    → All IsUnit us
    → next_start (find_starts pos 0 (annex_b us)) (pos + length (annex_b us)) ≡ pos
unfolding annex_b find_starts
next_start-annex_b pos [] h = omega arith
next_start-annex_b pos (u ∷ us) h = rw (find_starts-unit pos u (annex_b us) h.0) refl

get_elem?-append : (xs ys : List ℕ) (y : ℕ) → get_elem? (xs ++ (y ∷ ys)) (length xs) ≡ some y
get_elem?-append [] ys y = refl
get_elem?-append (x ∷ xs) ys y = get_elem?-append xs ys y

unit_types_step :
    (bytes types : List ℕ) (m : ℕ × ℕ) (ms : List (ℕ × ℕ)) (b : ℕ)
    → m.1 < next_start ms (length bytes)
    → get_elem? bytes m.1 ≡ some b
    → has_bit b 7 ≡ false
    → b % 32 ≢ 0
    → unit_types bytes (m ∷ ms) types ≡ unit_types bytes ms (add_type types (b % 32))
unfolding unit_types
unit_types_step bytes types m ms b room at clear typed = rw at (ground arith)

-- The bytes up to the payload of the next unit, and up to its end.
abbrev to_payload : List ℕ → Unit264 → List ℕ
to_payload before u = before ++ prefix_bytes u.long

abbrev to_end : List ℕ → Unit264 → List ℕ
to_end before u = to_payload before u ++ unit_bytes u

to_payload-append :
    (before : List ℕ) (u : Unit264) (rest : List ℕ)
    → before ++ (prefix_bytes u.long ++ (unit_bytes u ++ rest))
      ≡ to_payload before u ++ (unit_bytes u ++ rest)
to_payload-append before u rest =
    sym (append_assoc before (prefix_bytes u.long) (unit_bytes u ++ rest))

to_end-append :
    (before : List ℕ) (u : Unit264) (rest : List ℕ)
    → before ++ (prefix_bytes u.long ++ (unit_bytes u ++ rest)) ≡ to_end before u ++ rest
to_end-append before u rest =
    to_payload-append before u rest ∙ sym (append_assoc (to_payload before u) (unit_bytes u) rest)

length-to_end :
    (before : List ℕ) (u : Unit264) → length (to_end before u) ≡ end_at (length before) u
length-to_end before u = omega (
  arith,
  length-append before (prefix_bytes u.long),
  length-append (to_payload before u) (unit_bytes u),
)

unit_types-unit :
    (before types : List ℕ) (u : Unit264) (us : List Unit264)
    → IsUnit u
    → All IsUnit us
    → let bytes = before ++ annex_b (u ∷ us) in
      unit_types bytes (find_starts (length before) 0 (annex_b (u ∷ us))) types
      ≡ unit_types bytes
          (find_starts (end_at (length before) u) 0 (annex_b us))
          (add_type types (unit_type u))
unfolding annex_b
unit_types-unit before types u us h hs =
    let rest = annex_b us in
    let bytes = before ++ (prefix_bytes u.long ++ (unit_bytes u ++ rest)) in
    let size : length bytes ≡ end_at (length before) u + length rest =
      ap length (to_end-append before u rest)
      ∙ omega (arith, length-append (to_end before u) rest, length-to_end before u) in
    let place : length (to_payload before u) ≡ payload_at (length before) u =
      length-append before (prefix_bytes u.long) in
    let at : get_elem? bytes (payload_at (length before) u) ≡ some u.header =
      rw (to_payload-append before u rest, ← place)
        (get_elem?-append (to_payload before u) (u.body ++ rest) u.header) in
    let next : next_start (find_starts (end_at (length before) u) 0 rest) (length bytes)
        ≡ end_at (length before) u =
      rw size (next_start-annex_b (end_at (length before) u) us hs) in
    rw (find_starts-unit (length before) u rest h)
      (unit_types_step bytes types _ _ u.header (omega (arith, next)) at h.clear h.typed)

unit_types-annex_b :
    (before types : List ℕ) (us : List Unit264)
    → All IsUnit us
    → unit_types (before ++ annex_b us) (find_starts (length before) 0 (annex_b us)) types
      ≡ ok (foldl add_type types (map unit_type us))
unit_types-annex_b before types [] h = unfold annex_b find_starts unit_types in refl
unit_types-annex_b before types (u ∷ us) h =
    let whole : before ++ annex_b (u ∷ us) ≡ to_end before u ++ annex_b us =
      unfold annex_b in to_end-append before u (annex_b us) in
    unit_types-unit before types u us h.0 h.1
    ∙ rw (whole, ← length-to_end before u)
        (unit_types-annex_b (to_end before u) (add_type types (unit_type u)) us h.1)

-- On the bytes of any NAL units, each escaped and with a valid header byte, `nal_types` returns
-- exactly the set of the types in their headers.
pub nal_types-annex_b :
    (us : List Unit264)
    → us ≢ []
    → All IsUnit us
    → nal_types (annex_b us) ≡ ok (foldl add_type [] (map unit_type us))
unfolding nal_types
nal_types-annex_b [] some_unit h = absurd (some_unit refl)
nal_types-annex_b (u ∷ us) some_unit h =
    let first : begins_late (find_starts 0 0 (annex_b (u ∷ us))) ≡ false =
      unfold annex_b in rw (find_starts-unit 0 u (annex_b us) h.0) refl in
    rw first (unit_types-annex_b [] [] (u ∷ us) h)
