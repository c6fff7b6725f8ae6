-- ===== src/Preflight/Listens.antt =====
-- What `listening_ports` of src/t6_kvm/preflight.py finds in the tables of /proc/net.
use nanopc_t6_kvm.Base.{
  ℕ, ◌≡◌, ◌≢◌, inl, inr, refl, sym, ap, ◌∙◌, Bool, true, false, ◌||◌, List, [], ◌∷◌, ◌++◌, Option,
  none, some, ◌==◌, ==_iff, Bool-cases, get_elem?, drop, All, list_eq, list_eq_iff, contains,
}
use nanopc_t6_kvm.Broker.{codes}
use nanopc_t6_kvm.Preflight.{
  words, lines, hex, behind_last, Line, listens, other, malformed, port_of, address_port, on_state,
  read_line, ports_in, table_ports,
}

-- What the words of a line of /proc/net/tcp say: the fourth is the state, where 0A is a listener, and the second
-- the local address with the port in hexadecimal digits behind its last colon. A line that cannot be read so is
-- malformed.
pub data Says (ws : List (List ℕ)) : Line → Type 0 where
  listener :
      (address digits : List ℕ) (p : ℕ)
      → get_elem? ws 3 ≡ some (codes "0A")
      → get_elem? ws 1 ≡ some address
      → behind_last address ≡ some digits
      → hex digits ≡ some p
      → Says ws (listens p)
  elsewhere : (s : List ℕ) → get_elem? ws 3 ≡ some s → s ≢ codes "0A" → Says ws other
  no_state : get_elem? ws 3 ≡ none → Says ws malformed
  no_address : get_elem? ws 3 ≡ some (codes "0A") → get_elem? ws 1 ≡ none → Says ws malformed
  no_colon :
      (address : List ℕ)
      → get_elem? ws 3 ≡ some (codes "0A")
      → get_elem? ws 1 ≡ some address
      → behind_last address ≡ none
      → Says ws malformed
  no_number :
      (address digits : List ℕ)
      → get_elem? ws 3 ≡ some (codes "0A")
      → get_elem? ws 1 ≡ some address
      → behind_last address ≡ some digits
      → hex digits ≡ none
      → Says ws malformed

-- The lines up to the first malformed one have no listener on the port.
pub data NoListener (port : ℕ) : List (List ℕ) → Type 0 where
  at_end : NoListener port []
  cut_off : (l : List ℕ) (ls : List (List ℕ)) → Says (words l) malformed → NoListener port (l ∷ ls)
  quiet :
      (l : List ℕ) (ls : List (List ℕ))
      → Says (words l) other
      → NoListener port ls
      → NoListener port (l ∷ ls)
  apart :
      (l : List ℕ) (ls : List (List ℕ)) (p : ℕ)
      → Says (words l) (listens p)
      → port ≢ p
      → NoListener port ls
      → NoListener port (l ∷ ls)

-- The same of a table, behind its heading; one that cannot be read has none.
abbrev pub FreeTable : ℕ → Option (List ℕ) → Type 0
FreeTable port none = Unit
FreeTable port (some text) = NoListener port (drop 1 (lines text))

read_line-Says : (l : List ℕ) → Says (words l) (read_line l)
unfolding read_line
read_line-Says l = by_state (get_elem? (words l) 3) refl
  where
    by_digits :
        (o : Option (List ℕ)) (address : List ℕ)
        → get_elem? (words l) 3 ≡ some (codes "0A")
        → get_elem? (words l) 1 ≡ some address
        → behind_last address ≡ o
        → Says (words l) (port_of o)
    by_digits none address s a b = no_colon address s a b
    by_digits (some digits) address s a b = with_number (hex digits) refl
      where
        with_number :
            (n : Option ℕ)
            → hex digits ≡ n
            → Says (words l) (elim n [ none ↦ malformed | some p ↦ listens p ])
        with_number none n = no_number address digits s a b n
        with_number (some p) n = listener address digits p s a b n

    by_address :
        (o : Option (List ℕ))
        → get_elem? (words l) 3 ≡ some (codes "0A")
        → get_elem? (words l) 1 ≡ o
        → Says (words l) (address_port o)
    by_address none s a = no_address s a
    by_address (some address) s a = by_digits (behind_last address) address s a refl

    by_state :
        (o : Option (List ℕ)) → get_elem? (words l) 3 ≡ o → Says (words l) (on_state (words l) o)
    by_state none e = no_state e
    by_state (some s) e = elim (Bool-cases (list_eq s (codes "0A"))) [
      | inl here ↦ rw here (
          by_address (get_elem? (words l) 1) (e ∙ ap some ((list_eq_iff s (codes "0A")).0 here))
            refl)
      | inr away ↦
          rw away (elsewhere s e (λ k. let q = sym away ∙ (list_eq_iff s (codes "0A")).1 k in cc))
    ]

-- The line by its port's number.
by_number : Option ℕ → Line
by_number none = malformed
by_number (some p) = listens p

port_of-some :
    (digits : List ℕ) (n : Option ℕ) → hex digits ≡ n → port_of (some digits) ≡ by_number n
unfolding by_number
port_of-some digits n e = go (hex digits) ∙ ap by_number e
  where
    go : (o : Option ℕ) → elim o [ none ↦ malformed | some p ↦ listens p ] ≡ by_number o
    go none = refl
    go (some p) = refl

Says-read_line : (l : List ℕ) (x : Line) → Says (words l) x → read_line l ≡ x
unfolding read_line by_number
Says-read_line l _ (listener address digits p s a b n) =
    rw (s, a, b) (port_of-some digits (some p) n)
Says-read_line l _ (elsewhere s e k) = elim (Bool-cases (list_eq s (codes "0A"))) [
  | inl here ↦ absurd (k ((list_eq_iff s (codes "0A")).0 here))
  | inr away ↦ rw (e, away) refl
]
Says-read_line l _ (no_state e) = rw e refl
Says-read_line l _ (no_address s a) = rw (s, a) refl
Says-read_line l _ (no_colon address s a b) = rw (s, a, b) refl
Says-read_line l _ (no_number address digits s a b n) = rw (s, a, b) (port_of-some digits none n)

-- The ports of a line before those of the lines behind it.
then_ports : Line → List ℕ → List ℕ
then_ports (listens p) rest = p ∷ rest
then_ports other rest = rest
then_ports malformed rest = []

ports_in-then_ports :
    (l : List ℕ) (ls : List (List ℕ)) (x : Line)
    → read_line l ≡ x
    → ports_in (l ∷ ls) ≡ then_ports x (ports_in ls)
unfolding then_ports
ports_in-then_ports l ls x e = go (read_line l) ∙ ap (λ y. then_ports y (ports_in ls)) e
  where
    go :
        (y : Line)
        → elim y [ listens p ↦ p ∷ ports_in ls | other ↦ ports_in ls | malformed ↦ [] ]
          ≡ then_ports y (ports_in ls)
    go (listens p) = refl
    go other = refl
    go malformed = refl

then_ports-NoListener :
    (port : ℕ) (l : List ℕ) (ls : List (List ℕ)) (x : Line)
    → Says (words l) x
    → (contains port (ports_in ls) ≡ false → NoListener port ls)
    → contains port (then_ports x (ports_in ls)) ≡ false
    → NoListener port (l ∷ ls)
unfolding then_ports
then_ports-NoListener port l ls (listens p) s on e = elim (Bool-cases (port == p)) [
  | inl here ↦ let q : true ≡ false = rw here at e in cc
  | inr away ↦
      apart l ls p s (λ k. let q = sym away ∙ (==_iff port p).1 k in cc) (on (rw away at e))
]
then_ports-NoListener port l ls other s on e = quiet l ls s (on e)
then_ports-NoListener port l ls malformed s on e = cut_off l ls s

ports_in-NoListener :
    (port : ℕ) (ls : List (List ℕ)) → contains port (ports_in ls) ≡ false → NoListener port ls
ports_in-NoListener port [] e = at_end
ports_in-NoListener port (l ∷ ls) e =
    then_ports-NoListener port l ls (read_line l) (read_line-Says l) (ports_in-NoListener port ls)
      (ap (contains port) (sym (ports_in-then_ports l ls (read_line l) refl)) ∙ e)

NoListener-ports_in :
    (port : ℕ) (ls : List (List ℕ)) → NoListener port ls → contains port (ports_in ls) ≡ false
unfolding then_ports
NoListener-ports_in port _ at_end = refl
NoListener-ports_in port _ (cut_off l ls s) =
    ap (contains port) (ports_in-then_ports l ls malformed (Says-read_line l malformed s))
NoListener-ports_in port _ (quiet l ls s rest) =
    ap (contains port) (ports_in-then_ports l ls other (Says-read_line l other s))
    ∙ NoListener-ports_in port ls rest
NoListener-ports_in port _ (apart l ls p s k rest) =
    ap (contains port) (ports_in-then_ports l ls (listens p) (Says-read_line l (listens p) s))
    ∙ elim (Bool-cases (port == p)) [
      | inl here ↦ absurd (k ((==_iff port p).0 here))
      | inr away ↦ rw away (NoListener-ports_in port ls rest)
    ]

contains-append :
    (x : ℕ) (xs ys : List ℕ) → contains x (xs ++ ys) ≡ (contains x xs || contains x ys)
contains-append x [] ys = refl
contains-append x (y ∷ xs) ys = elim (Bool-cases (x == y)) [
  | inl e ↦ rw e refl
  | inr e ↦ rw e (contains-append x xs ys)
]

pub table_ports-All :
    (port : ℕ) (ts : List (Option (List ℕ)))
    → contains port (table_ports ts) ≡ false
    → All (FreeTable port) ts
table_ports-All port [] e = tt
table_ports-All port (none ∷ ts) e = (tt, table_ports-All port ts e)
table_ports-All port (some text ∷ ts) e =
    let both = sym (contains-append port (ports_in (drop 1 (lines text))) (table_ports ts)) ∙ e in
    let (here, rest) =
      or_none (contains port (ports_in (drop 1 (lines text)))) (contains port (table_ports ts))
        both in
    (ports_in-NoListener port (drop 1 (lines text)) here, table_ports-All port ts rest)
  where
    or_none : (a b : Bool) → (a || b) ≡ false → (a ≡ false) × (b ≡ false)
    or_none true b e = cc
    or_none false b e = (refl, e)

pub All-table_ports :
    (port : ℕ) (ts : List (Option (List ℕ)))
    → All (FreeTable port) ts
    → contains port (table_ports ts) ≡ false
All-table_ports port [] h = refl
All-table_ports port (none ∷ ts) (h, hs) = All-table_ports port ts hs
All-table_ports port (some text ∷ ts) (h, hs) =
    contains-append port (ports_in (drop 1 (lines text))) (table_ports ts)
    ∙ rw (NoListener-ports_in port (drop 1 (lines text)) h, All-table_ports port ts hs) refl
