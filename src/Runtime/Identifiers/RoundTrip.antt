-- ===== src/Runtime/Identifiers/RoundTrip.antt =====
-- Printing and parsing of canonical identifiers.
use phlo_observe.Common.{
  ℕ, ◌≡◌, ◌↔◌, refl, sym, ◌∙◌, ap, subst, Bool, true, ◌&&◌, not, Option, none, some, [], ◌∷◌, ◌++◌,
  arith, Bool-cases, inl, inr,
}
use phlo_observe.Common.Codes.{Codes, codes, starts_codes, is_space}
use phlo_observe.Runtime.Identifiers.{
  EntityId, render, strip, strip_left, strip_right, all_codes, is_namespace, is_path, name_code,
  span_name, after_scheme, matched, match_uri, parse_entity_id,
}

abbrev pub no_space : Codes → Bool
no_space s = all_codes (λ c. not (is_space c)) s

-- A name that `[a-z][a-z0-9]*` matches and a non-empty path without white space.
abbrev pub IsCanonical : EntityId → Type 0
IsCanonical e = (is_namespace e.namespace ≡ true) × (is_path e.path ≡ true)

pub all_codes-append :
    (test : ℕ → Bool) (s t : Codes)
    → all_codes test (s ++ t) ≡ (all_codes test s && all_codes test t)
unfolding all_codes
all_codes-append test [] t = refl
all_codes-append test (c ∷ s) t = ground (arith, all_codes-append test s t)

pub namespace_codes : (s : Codes) → is_namespace s ≡ true → all_codes name_code s ≡ true
unfolding is_namespace all_codes
namespace_codes [] h = refl
namespace_codes (c ∷ s) h = ground (arith, h)

pub name_no_space : (s : Codes) → all_codes name_code s ≡ true → no_space s ≡ true
unfolding all_codes
name_no_space [] h = refl
name_no_space (c ∷ s) h = ground (arith, name_no_space s, h)

span_name-append :
    (name path : Codes)
    → all_codes name_code name ≡ true
    → span_name (name ++ (codes "://" ++ path)) ≡ (name, codes "://" ++ path)
unfolding span_name all_codes
span_name-append [] path h = refl
span_name-append (c ∷ name) path h = ground (arith, span_name-append name path, h)

span_name-split : (s : Codes) → (span_name s).0 ++ (span_name s).1 ≡ s
unfolding span_name
span_name-split [] = refl
span_name-split (c ∷ s) = elim (Bool-cases (name_code c)) [
  | inl good ↦ rw good (ap (◌∷◌ c) (span_name-split s))
  | inr other ↦ rw other refl
]

scheme_sound : (s path : Codes) → after_scheme s ≡ some path → s ≡ codes "://" ++ path
unfolding after_scheme starts_codes
scheme_sound [] path h = absurd cc
scheme_sound (a ∷ []) path h = ground (arith, h)
scheme_sound (a ∷ b ∷ []) path h = ground (arith, h)
scheme_sound (a ∷ b ∷ c ∷ s) path h = ground (arith, h)

strip_left-kept : (s : Codes) → no_space s ≡ true → strip_left is_space s ≡ s
unfolding strip_left all_codes
strip_left-kept [] h = refl
strip_left-kept (c ∷ s) h = ground (arith, h)

strip_right-kept : (s : Codes) → no_space s ≡ true → strip_right is_space s ≡ s
unfolding strip_right all_codes
strip_right-kept [] h = refl
strip_right-kept (c ∷ []) h = ground (arith, h)
strip_right-kept (c ∷ d ∷ s) h = rw (strip_right-kept (d ∷ s) (ground (arith, h))) refl

pub strip-kept : (s : Codes) → no_space s ≡ true → strip is_space s ≡ s
unfolding strip
strip-kept s h = rw (strip_left-kept s h) (strip_right-kept s h)

matched_sound :
    (name : Codes) (found : Option Codes) (e : EntityId)
    → matched name found ≡ some e
    → IsCanonical e × (e.namespace ≡ name) × (found ≡ some e.path)
unfolding matched
matched_sound name none e h = absurd cc
matched_sound name (some path) e h = elim (Bool-cases (is_namespace name && is_path path)) [
  | inl good ↦
      let same_one : record { namespace = name; path = path } ≡ e = ground (arith, h, good) in
      subst (λ x. IsCanonical x × (x.namespace ≡ name) × (some path ≡ some x.path)) same_one
        ((ground (arith, good), ground (arith, good)), refl, refl)
  | inr bad ↦ absurd (ground (arith, h, bad))
]

match_uri-render : (e : EntityId) → IsCanonical e → match_uri (render e) ≡ some e
unfolding match_uri render matched after_scheme starts_codes
match_uri-render e h =
    rw (span_name-append e.namespace e.path (namespace_codes e.namespace h.0)) (rw (h.0, h.1) refl)

match_uri_sound : (s : Codes) (e : EntityId) → match_uri s ≡ some e → IsCanonical e × (render e ≡ s)
unfolding match_uri render
match_uri_sound s e h =
    let found = matched_sound _ _ e h in
    (
      found.0,
      ap (λ n. n ++ (codes "://" ++ e.path)) found.1
          ∙ ap (λ r. (span_name s).0 ++ r) (sym (scheme_sound (span_name s).1 e.path found.2))
          ∙ span_name-split s,
    )

-- A text parses to an identifier if and only if the identifier is canonical (its namespace is a name
-- of lower-case letters and digits that begins with a letter, its path is not empty and without
-- white space) and the text, without the white space around it, is the identifier printed.
pub parse_entity_id-render :
    (value : Codes) (e : EntityId)
    → (parse_entity_id value ≡ some e) ↔ (IsCanonical e × (render e ≡ strip is_space value))
unfolding parse_entity_id
parse_entity_id-render value e = (
  match_uri_sound (strip is_space value) e,
  λ h. subst (λ s. match_uri s ≡ some e) h.1 (match_uri-render e h.0),
)
