-- ===== src/Panel/Access.antt =====
-- The middleware `auth` of src/t6_kvm/panel.py.
pub mod Admitted
use nanopc_t6_kvm.Base.{
  ℕ, ◌+◌, Bool, false, ◌&&◌, ◌||◌, not, List, [], ◌∷◌, ◌++◌, Option, none, some, leb, if◌then◌else◌,
  list_eq,
}
use nanopc_t6_kvm.Base.Texts.{cut, cut_parts, cut-append, Lacks}
use nanopc_t6_kvm.Broker.{codes}
use nanopc_t6_kvm.Panel.Settings.{space}
use nanopc_t6_kvm.Panel.Update.{Libraries, is_empty}

-- What `auth` reads of a request; a header that is not there is `none`.
pub record Request : Type 0 where
  pub is_post : Bool
  pub authorization : Option (List ℕ)
  pub panel_header : Option (List ℕ)
  pub origin : Option (List ℕ)
  pub scheme : List ℕ
  pub host : List ℕ

-- The answers 401 and 403, and the handler's call with `request["user"]`.
pub data Access : Type 0 where
  unauthorized forbidden : Access
  admitted : List ℕ → Access

-- `text.lower()`, as far as a comparison with a text of ASCII letters other than k sees it.
abbrev pub lower : List ℕ → List ℕ
lower [] = []
lower (c ∷ cs) = (if leb b'A' c && leb c b'Z' then c + 32 else c) ∷ lower cs

abbrev pub is_basic : List ℕ → Bool
is_basic kind = list_eq (lower kind) (codes "basic")

abbrev pub colon : ℕ
colon = 58

-- `origin and origin != request.scheme+"://"+request.host`
abbrev pub is_elsewhere : Request → Option (List ℕ) → Bool
is_elsewhere r none = false
is_elsewhere r (some origin) =
    not (is_empty origin) && not (list_eq origin (r.scheme ++ (codes "://" ++ r.host)))

abbrev pub is_panel : Option (List ℕ) → Bool
is_panel none = false
is_panel (some t) = list_eq t (codes "1")

-- The tests behind the credentials.
abbrev pub on_user : Request → List ℕ → Access
on_user r user =
    if r.is_post && (not (is_panel r.panel_header) || is_elsewhere r r.origin)
    then forbidden
    else admitted user

-- The text of `Authorization`, or the default.
abbrev pub header : Option (List ℕ) → List ℕ
header none = []
header (some t) = t

-- `decode` is `base64.b64decode(value,validate=True).decode()`; `none` is a ValueError.
module _ (h : Libraries) (decode : List ℕ → Option (List ℕ)) (t : h.Table) where
  abbrev pub on_credentials : Request → Option (List ℕ × List ℕ) → Access
  on_credentials r none = unauthorized
  on_credentials r (some (user, password)) =
      if h.check user password t then on_user r user else unauthorized

  abbrev pub on_decoded : Request → Option (List ℕ) → Access
  on_decoded r none = unauthorized
  on_decoded r (some text) = on_credentials r (cut colon text)

  abbrev pub on_header : Request → Option (List ℕ × List ℕ) → Access
  on_header r none = unauthorized
  on_header r (some (kind, value)) =
      if is_basic kind then on_decoded r (decode value) else unauthorized

  unfoldable pub auth : Request → Access
  auth r = on_header r (cut space (header r.authorization))
