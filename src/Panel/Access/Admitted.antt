-- ===== src/Panel/Access/Admitted.antt =====
-- Who is admitted by `auth` of src/t6_kvm/panel.py.
use nanopc_t6_kvm.Broker.{codes}
use nanopc_t6_kvm.Base.{
  ℕ, ◌≡◌, ◌↔◌, ◌⊎◌, inl, inr, refl, ap, arith, Bool, true, false, ◌&&◌, ◌||◌, not, List, [], ◌∷◌,
  ◌++◌, Option, none, some, Bool-cases, list_eq_iff, not-eq-false,
}
use nanopc_t6_kvm.Base.Texts.{cut, cut_parts, cut-append, Lacks}
use nanopc_t6_kvm.Panel.Settings.{space}
use nanopc_t6_kvm.Panel.Update.{Libraries, is_empty}
use nanopc_t6_kvm.Panel.Access.{
  Request, lower, admitted, is_basic, colon, is_elsewhere, is_panel, on_user, header,
  on_credentials, on_decoded, on_header, auth,
}

-- A request of the panel's own page: the header X-T6-Panel is 1, and an Origin that is sent, and not empty,
-- is the scheme and the host of the request.
abbrev pub IsOwnPage : Request → Type 0
IsOwnPage r =
    (r.panel_header ≡ some (codes "1"))
    × ((r.origin ≡ none)
        ⊎ ((r.origin ≡ some []) ⊎ (r.origin ≡ some (r.scheme ++ (codes "://" ++ r.host)))))

is_panel_iff : (o : Option (List ℕ)) → (is_panel o ≡ true) ↔ (o ≡ some (codes "1"))
is_panel_iff none = (λ e. cc, λ e. cc)
is_panel_iff (some t) = (λ e. ap some ((list_eq_iff t (codes "1")).0 e), λ e. ap is_panel e)

here_of :
    (r : Request) (o : Option (List ℕ))
    → is_elsewhere r o ≡ false
    → (o ≡ none) ⊎ ((o ≡ some []) ⊎ (o ≡ some (r.scheme ++ (codes "://" ++ r.host))))
here_of r none e = inl refl
here_of r (some []) e = inr (inl refl)
here_of r (some (c ∷ cs)) e = inr (
    inr (ap some ((list_eq_iff (c ∷ cs) (r.scheme ++ (codes "://" ++ r.host))).0 (not-eq-false e))))

elsewhere_here :
    (r : Request) (o : Option (List ℕ))
    → (o ≡ none) ⊎ ((o ≡ some []) ⊎ (o ≡ some (r.scheme ++ (codes "://" ++ r.host))))
    → is_elsewhere r o ≡ false
elsewhere_here r o (inl e) = rw e refl
elsewhere_here r o (inr (inl e)) = rw e refl
elsewhere_here r o (inr (inr e)) =
    let self =
      (list_eq_iff (r.scheme ++ (codes "://" ++ r.host)) (r.scheme ++ (codes "://" ++ r.host))).1
        refl in
    rw e (and_not (not (is_empty (r.scheme ++ (codes "://" ++ r.host)))) _ self)
  where
    and_not : (a b : Bool) → b ≡ true → (a && not b) ≡ false
    and_not true b e = rw e refl
    and_not false b e = refl

own_page :
    (r : Request)
    → (r.is_post && (not (is_panel r.panel_header) || is_elsewhere r r.origin)) ≡ false
    → (r.is_post ≡ false) ⊎ IsOwnPage r
own_page r e = elim (Bool-cases r.is_post) [
  | inr get ↦ inl get
  | inl post ↦
      let q : (not (is_panel r.panel_header) || is_elsewhere r r.origin) ≡ false = rw post at e in
      let panel : is_panel r.panel_header ≡ true = ground arith in
      let here : is_elsewhere r r.origin ≡ false = ground arith in
      inr ((is_panel_iff r.panel_header).0 panel, here_of r r.origin here)
]

on_user-admitted :
    (r : Request) {user user' : List ℕ}
    → on_user r user ≡ admitted user'
    → (user ≡ user') × ((r.is_post ≡ false) ⊎ IsOwnPage r)
on_user-admitted r {user} {user'} e =
    elim (Bool-cases (r.is_post && (not (is_panel r.panel_header) || is_elsewhere r r.origin))) [
      | inl refused ↦ let q = rw refused at e in cc
      | inr free ↦ let q : admitted user ≡ admitted user' = rw free at e in (cc, own_page r free)
    ]

on_user_own :
    (r : Request) (user : List ℕ)
    → ((r.is_post ≡ false) ⊎ IsOwnPage r)
    → on_user r user ≡ admitted user
on_user_own r user (inl get) = rw get refl
on_user_own r user (inr (panel, here)) = elim (Bool-cases r.is_post) [
  | inl post ↦ rw (post, (is_panel_iff r.panel_header).1 panel, elsewhere_here r r.origin here) refl
  | inr get ↦ rw get refl
]

module _ (h : Libraries) (decode : List ℕ → Option (List ℕ)) (t : h.Table) where
  -- The header has the scheme `Basic` in any case, and the account's name and password, which are
  -- accepted; a POST comes from the panel's page.
  pub record IsAdmitted (r : Request) (user : List ℕ) : Type 0 where
    pub kind : List ℕ
    pub value : List ℕ
    pub password : List ℕ
    pub sent : header r.authorization ≡ kind ++ (space ∷ value)
    pub no_space : Lacks space kind
    pub basic : lower kind ≡ codes "basic"
    pub decoded : decode value ≡ some (user ++ (colon ∷ password))
    pub no_colon : Lacks colon user
    pub accepted : h.check user password t ≡ true
    pub posted : (r.is_post ≡ false) ⊎ IsOwnPage r

  on_credentials-admitted :
      (r : Request) (found : Option (List ℕ × List ℕ)) {user : List ℕ}
      → on_credentials h decode t r found ≡ admitted user
      → (password : List ℕ) × (found ≡ some (user, password))
        × (h.check user password t ≡ true)
        × ((r.is_post ≡ false) ⊎ IsOwnPage r)
  on_credentials-admitted r none e = cc
  on_credentials-admitted r (some (u, password)) {user} e =
      elim (Bool-cases (h.check u password t)) [
        | inl good ↦
            let (same, own) = on_user-admitted r (rw good at e) in
            (password, rw same refl, rw (← same) good, own)
        | inr bad ↦ let q = rw bad at e in cc
      ]

  on_decoded-admitted :
      (r : Request) (text : Option (List ℕ)) {user : List ℕ}
      → on_decoded h decode t r text ≡ admitted user
      → (password : List ℕ) × (text ≡ some (user ++ (colon ∷ password)))
        × Lacks colon user
        × (h.check user password t ≡ true)
        × ((r.is_post ≡ false) ⊎ IsOwnPage r)
  on_decoded-admitted r none e = cc
  on_decoded-admitted r (some text) e =
      let (password, found, good, own) = on_credentials-admitted r (cut colon text) e in
      let (parts, no_colon) = cut_parts colon text found in
      (password, ap some parts, no_colon, good, own)

  on_header-admitted :
      (r : Request) (found : Option (List ℕ × List ℕ)) {user : List ℕ}
      → cut space (header r.authorization) ≡ found
      → on_header h decode t r found ≡ admitted user
      → IsAdmitted r user
  on_header-admitted r none k e = cc
  on_header-admitted r (some (kind, value)) k e = elim (Bool-cases (is_basic kind)) [
    | inl basic ↦
        let (password, decoded, no_colon, good, own) =
          on_decoded-admitted r (decode value) (rw basic at e) in
        let (parts, no_space) = cut_parts space (header r.authorization) k in
        record {
          kind = kind;
          value = value;
          password = password;
          sent = parts;
          no_space = no_space;
          basic = (list_eq_iff (lower kind) (codes "basic")).0 basic;
          decoded = decoded;
          no_colon = no_colon;
          accepted = good;
          posted = own;
        }
    | inr other ↦ let q = rw other at e in cc
  ]

  -- The handler runs, for the account of the credentials, exactly if the header has the scheme `Basic`
  -- and the name and the password of an account, and a POST has the header X-T6-Panel with the value 1 and
  -- no Origin but an empty one or that of its own scheme and host.
  pub auth_iff :
      (r : Request) (user : List ℕ) → (auth h decode t r ≡ admitted user) ↔ IsAdmitted r user
  unfolding auth
  auth_iff r user = (on_header-admitted r (cut space (header r.authorization)) refl, λ a. serves a)
    where
      serves : IsAdmitted r user → auth h decode t r ≡ admitted user
      serves a =
          rw
            (
              a.sent,
              cut-append space a.kind a.value a.no_space,
              (list_eq_iff (lower a.kind) (codes "basic")).1 a.basic,
              a.decoded,
              cut-append colon user a.password a.no_colon,
              a.accepted,
            )
            (on_user_own r user a.posted)
