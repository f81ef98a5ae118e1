-- ===== src/Http.antt =====
-- http.Header as the program uses it: Set and Get, with names compared as CanonicalMIMEHeaderKey does for
-- the letters of ASCII.
use harbor_hook.Common.{
  String, List, [], ◌∷◌, Bool, true, false, not, ◌==◌, filter, find, Option, none, some, ◌≡◌, refl,
  ◌≢◌, Bool-cases, inl, inr, eq_false, eq_iff, sym, ◌∙◌, eq_refl,
}
use harbor_hook.Encoding.Words.{to_lower}

abbrev pub Headers : Type 0
Headers = List (String × String)

abbrev pub same_name : String → String → Bool
same_name a b = to_lower a == to_lower b

-- Header.Set
abbrev pub set_header : String → String → Headers → Headers
set_header name value headers = (name, value) ∷ filter (λ h. not (same_name h.0 name)) headers

abbrev or_empty : Option (String × String) → String
or_empty none = ""
or_empty (some h) = h.1

-- Header.Get
unfoldable pub get_header : String → Headers → String
get_header name headers = or_empty (find (λ h. same_name h.0 name) headers)

abbrev found : Option (String × String) → Bool
found none = false
found (some h) = true

-- a test for the key in the map
abbrev pub has_header : String → Headers → Bool
has_header name headers = found (find (λ h. same_name h.0 name) headers)

-- The names are different headers.
abbrev pub Differ : String → String → Type 0
Differ a b = to_lower a ≢ to_lower b

pub get_header-same :
    (name value : String) (headers : Headers)
    → get_header name (set_header name value headers) ≡ value
unfolding get_header
get_header-same name value headers = rw (eq_refl (to_lower name)) refl

find-filter :
    (name other : String) (headers : Headers)
    → Differ other name
    → find
        (λ (h : String × String). same_name h.0 name)
        (filter (λ h. not (same_name h.0 other)) headers)
      ≡ find (λ h. same_name h.0 name) headers
find-filter name other [] d = refl
find-filter name other (h ∷ headers) d = elim (Bool-cases (same_name h.0 other)) [
  | inl e ↦
      let same = (eq_iff (to_lower h.0) (to_lower other)).0 e in
      let unlike = eq_false (to_lower h.0) (to_lower name) (λ k. d (sym same ∙ k)) in
      rw (e, unlike) (find-filter name other headers d)
  | inr e ↦ rw (e, find-filter name other headers d) refl
]

pub get_header-other :
    (name other value : String) (headers : Headers)
    → Differ other name
    → get_header name (set_header other value headers) ≡ get_header name headers
unfolding get_header
get_header-other name other value headers d =
    rw (eq_false (to_lower other) (to_lower name) d, find-filter name other headers d) refl
