-- ===== src/Tests/Codec.antt =====
-- A concrete text for values, for the runs that print and read them.
use nanopc_t6_kvm.Base.{
  ℕ, zero, suc, ◌+◌, ◌≤◌, ◌≡◌, refl, arith, true, false, List, [], ◌∷◌, ◌++◌, Option, none, some,
  ◌==◌, if◌then◌else◌, length, take, drop, take-append, drop-append,
}
use nanopc_t6_kvm.Value.{
  ℤ, pos, negsuc, Fields, end, field, Items, no_items, item, Value, obj, arr, str, int, float,
  not_finite, boolean, null,
}

abbrev pub enc_z : ℤ → List ℕ → List ℕ
enc_z (pos n) t = 0 ∷ n ∷ t
enc_z (negsuc n) t = 1 ∷ n ∷ t

abbrev pub enc_s : List ℕ → List ℕ → List ℕ
enc_s s t = length s ∷ (s ++ t)

unfoldable mutual
  pub enc_v : Value → List ℕ → List ℕ
  enc_v (obj fs) t = 0 ∷ enc_f fs t
  enc_v (arr xs) t = 1 ∷ enc_i xs t
  enc_v (str s) t = 2 ∷ enc_s s t
  enc_v (int z) t = 3 ∷ enc_z z t
  enc_v (float z) t = 4 ∷ enc_z z t
  enc_v not_finite t = 5 ∷ t
  enc_v (boolean b) t = 6 ∷ (if b then 1 else 0) ∷ t
  enc_v null t = 7 ∷ t

  pub enc_f : Fields → List ℕ → List ℕ
  enc_f end t = 0 ∷ t
  enc_f (field k v fs) t = 1 ∷ enc_s k (enc_v v (enc_f fs t))

  pub enc_i : Items → List ℕ → List ℕ
  enc_i no_items t = 0 ∷ t
  enc_i (item x xs) t = 1 ∷ enc_v x (enc_i xs t)

unfoldable mutual
  pub size_v : Value → ℕ
  size_v (obj fs) = suc (size_f fs)
  size_v (arr xs) = suc (size_i xs)
  size_v v = 1

  pub size_f : Fields → ℕ
  size_f end = 1
  size_f (field k v fs) = suc (size_v v + size_f fs)

  pub size_i : Items → ℕ
  size_i no_items = 1
  size_i (item x xs) = suc (size_v x + size_i xs)

abbrev pub Parsed : Type 0 → Type 0
Parsed A = Option (A × List ℕ)

abbrev pub onto : {A B : Type 0} → Parsed A → (A → List ℕ → Parsed B) → Parsed B
onto none next = none
onto (some (a, t)) next = next a t

abbrev pub dec_z : List ℕ → Parsed ℤ
dec_z (zero ∷ n ∷ t) = some (pos n, t)
dec_z (suc zero ∷ n ∷ t) = some (negsuc n, t)
dec_z t = none

abbrev pub dec_s : List ℕ → Parsed (List ℕ)
dec_s [] = none
dec_s (n ∷ t) = some (take n t, drop n t)

unfoldable mutual
  pub dec_v : ℕ → List ℕ → Parsed Value
  dec_v zero t = none
  dec_v (suc n) (zero ∷ t) = onto (dec_f n t) (λ fs r. some (obj fs, r))
  dec_v (suc n) (suc zero ∷ t) = onto (dec_i n t) (λ xs r. some (arr xs, r))
  dec_v (suc n) (suc (suc zero) ∷ t) = onto (dec_s t) (λ s r. some (str s, r))
  dec_v (suc n) (suc (suc (suc zero)) ∷ t) = onto (dec_z t) (λ z r. some (int z, r))
  dec_v (suc n) (suc (suc (suc (suc zero))) ∷ t) = onto (dec_z t) (λ z r. some (float z, r))
  dec_v (suc n) (suc (suc (suc (suc (suc zero)))) ∷ t) = some (not_finite, t)
  dec_v (suc n) (suc (suc (suc (suc (suc (suc zero))))) ∷ b ∷ t) = some (boolean (b == 1), t)
  dec_v (suc n) (suc (suc (suc (suc (suc (suc (suc zero)))))) ∷ t) = some (null, t)
  dec_v (suc n) t = none

  pub dec_f : ℕ → List ℕ → Parsed Fields
  dec_f zero t = none
  dec_f (suc n) (zero ∷ t) = some (end, t)
  dec_f (suc n) (suc zero ∷ t) =
      onto (dec_s t)
        (λ k r. onto (dec_v n r) (λ v r. onto (dec_f n r) (λ fs r. some (field k v fs, r))))
  dec_f (suc n) t = none

  pub dec_i : ℕ → List ℕ → Parsed Items
  dec_i zero t = none
  dec_i (suc n) (zero ∷ t) = some (no_items, t)
  dec_i (suc n) (suc zero ∷ t) =
      onto (dec_v n t) (λ x r. onto (dec_i n r) (λ xs r. some (item x xs, r)))
  dec_i (suc n) t = none

dec_z-enc_z : (z : ℤ) (t : List ℕ) → dec_z (enc_z z t) ≡ some (z, t)
dec_z-enc_z (pos n) t = refl
dec_z-enc_z (negsuc n) t = refl

mutual
  unfolding dec_v dec_f dec_i enc_v enc_f enc_i size_v size_f size_i

  dec_v-enc_v : (v : Value) (n : ℕ) (t : List ℕ) → size_v v ≤ n → dec_v n (enc_v v t) ≡ some (v, t)
  dec_v-enc_v (obj fs) zero t h = absurd (omega arith)
  dec_v-enc_v (arr fs) zero t h = absurd (omega arith)
  dec_v-enc_v v zero t h = absurd (omega arith)
  dec_v-enc_v (obj fs) (suc n) t h = rw (dec_f-enc_f fs n t (omega arith)) refl
  dec_v-enc_v (arr xs) (suc n) t h = rw (dec_i-enc_i xs n t (omega arith)) refl
  dec_v-enc_v (str s) (suc n) t h =
      rw (take-append (length s) s t refl, drop-append (length s) s t refl) refl
  dec_v-enc_v (int z) (suc n) t h = rw (dec_z-enc_z z t) refl
  dec_v-enc_v (float z) (suc n) t h = rw (dec_z-enc_z z t) refl
  dec_v-enc_v not_finite (suc n) t h = refl
  dec_v-enc_v (boolean true) (suc n) t h = refl
  dec_v-enc_v (boolean false) (suc n) t h = refl
  dec_v-enc_v null (suc n) t h = refl

  dec_f-enc_f :
      (fs : Fields) (n : ℕ) (t : List ℕ) → size_f fs ≤ n → dec_f n (enc_f fs t) ≡ some (fs, t)
  dec_f-enc_f end zero t h = absurd (omega arith)
  dec_f-enc_f (field k v fs) zero t h = absurd (omega arith)
  dec_f-enc_f end (suc n) t h = refl
  dec_f-enc_f (field k v fs) (suc n) t h =
      rw
        (
          take-append (length k) k (enc_v v (enc_f fs t)) refl,
          drop-append (length k) k (enc_v v (enc_f fs t)) refl,
          dec_v-enc_v v n (enc_f fs t) (omega arith),
          dec_f-enc_f fs n t (omega arith),
        )
        refl

  dec_i-enc_i :
      (xs : Items) (n : ℕ) (t : List ℕ) → size_i xs ≤ n → dec_i n (enc_i xs t) ≡ some (xs, t)
  dec_i-enc_i no_items zero t h = absurd (omega arith)
  dec_i-enc_i (item x xs) zero t h = absurd (omega arith)
  dec_i-enc_i no_items (suc n) t h = refl
  dec_i-enc_i (item x xs) (suc n) t h =
      rw (dec_v-enc_v x n (enc_i xs t) (omega arith), dec_i-enc_i xs n t (omega arith)) refl

-- The text begins with the fuel that reading it takes.
unfoldable pub print : Value → List ℕ
print v = size_v v ∷ enc_v v []

abbrev pub read_all : Parsed Value → Option Value
read_all (some (v, [])) = some v
read_all p = none

unfoldable pub parse : List ℕ → Option Value
parse [] = none
parse (n ∷ t) = read_all (dec_v n t)

pub parse-print : (v : Value) → parse (print v) ≡ some v
unfolding parse print
parse-print v = rw (dec_v-enc_v v (size_v v) [] (omega arith)) refl
