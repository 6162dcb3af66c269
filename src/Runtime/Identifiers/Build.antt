-- ===== src/Runtime/Identifiers/Build.antt =====
-- What `entity_id` builds, parsed again.
use phlo_observe.Common.{
  ℕ, ◌≡◌, refl, sym, subst, Bool, true, not, Option, none, some, List, [], ◌∷◌, ◌++◌, arith,
  Bool-cases, inl, inr, All,
}
use phlo_observe.Common.Codes.{Codes, codes, join_codes, is_space}
use phlo_observe.Runtime.Identifiers.{
  EntityId, render, strip, strip_left, strip_right, all_codes, is_namespace, is_path,
  parse_entity_id, clean_parts, entity_id, is_slash, keep_part, from_parts,
}
use phlo_observe.Runtime.Identifiers.RoundTrip.{
  IsCanonical, no_space, all_codes-append, parse_entity_id-render, strip-kept, namespace_codes,
  name_no_space,
}

strip_left-no_space :
    (cut : ℕ → Bool) (s : Codes) → no_space s ≡ true → no_space (strip_left cut s) ≡ true
unfolding strip_left all_codes
strip_left-no_space cut [] h = refl
strip_left-no_space cut (c ∷ s) h = ground (arith, strip_left-no_space cut s, h)

strip_right-no_space :
    (cut : ℕ → Bool) (s : Codes) → no_space s ≡ true → no_space (strip_right cut s) ≡ true
unfolding strip_right all_codes
strip_right-no_space cut [] h = refl
strip_right-no_space cut (c ∷ s) h = ground (arith, strip_right-no_space cut s, h)

-- A part of a path.
abbrev IsPart : Codes → Type 0
IsPart s = is_path s ≡ true

is_path-cons : (c : ℕ) (s : Codes) → no_space (c ∷ s) ≡ true → IsPart (c ∷ s)
unfolding is_path
is_path-cons c s h = h

abbrev pub PartNoSpace : Option Codes → Type 0
PartNoSpace none = Unit
PartNoSpace (some s) = no_space s ≡ true

keep_part-IsPart :
    (s : Codes) (rest : List Codes)
    → no_space s ≡ true
    → All IsPart rest
    → All IsPart (keep_part s rest)
unfolding keep_part
keep_part-IsPart [] rest h all = all
keep_part-IsPart (c ∷ cs) rest h all = (is_path-cons c cs h, all)

clean_parts-IsPart :
    (given : List (Option Codes)) → All PartNoSpace given → All IsPart (clean_parts given)
unfolding clean_parts strip
clean_parts-IsPart [] h = tt
clean_parts-IsPart (none ∷ rest) h = clean_parts-IsPart rest h.1
clean_parts-IsPart (some part ∷ rest) h =
    keep_part-IsPart _ _ (strip_right-no_space is_slash _ (strip_left-no_space is_slash part h.0))
      (clean_parts-IsPart rest h.1)

path_no_space : (s : Codes) → IsPart s → no_space s ≡ true
unfolding is_path all_codes
path_no_space [] h = refl
path_no_space (c ∷ s) h = h

append-IsPart : (p t : Codes) → IsPart p → no_space t ≡ true → IsPart (p ++ t)
unfolding is_path
append-IsPart [] t h g = absurd cc
append-IsPart (c ∷ p) t h g = rw (all_codes-append (λ d. not (is_space d)) (c ∷ p) t, h, g) refl

join_codes-IsPart :
    (p : Codes) (ps : List Codes) → All IsPart (p ∷ ps) → IsPart (join_codes (codes "/") (p ∷ ps))
unfolding join_codes
join_codes-IsPart p [] h = h.0
join_codes-IsPart p (q ∷ ps) h =
    append-IsPart (p ++ codes "/") _ (append-IsPart p (codes "/") h.0 (unfold all_codes in refl))
      (path_no_space _ (join_codes-IsPart q ps h.1))

from_parts-IsCanonical :
    (namespace : Codes) (ps : List Codes) (e : EntityId)
    → is_namespace namespace ≡ true
    → All IsPart ps
    → from_parts namespace ps ≡ some e
    → IsCanonical e
unfolding from_parts
from_parts-IsCanonical namespace [] e n h built = absurd cc
from_parts-IsCanonical namespace (p ∷ ps) e n h built =
    let same_one : record { namespace = namespace; path = join_codes (codes "/") (p ∷ ps) } ≡ e =
      cc in
    subst IsCanonical same_one (n, join_codes-IsPart p ps h)

entity_id-IsCanonical :
    (namespace : Codes) (given : List (Option Codes)) (e : EntityId)
    → All PartNoSpace given
    → entity_id namespace given ≡ some e
    → IsCanonical e
unfolding entity_id
entity_id-IsCanonical namespace given e h built = elim (Bool-cases (is_namespace namespace)) [
  | inl good ↦
      from_parts-IsCanonical namespace (clean_parts given) e good (clean_parts-IsPart given h)
        (ground (arith, built, good))
  | inr bad ↦ absurd (ground (arith, built, bad))
]

render-no_space : (e : EntityId) → IsCanonical e → no_space (render e) ≡ true
unfolding render
render-no_space e h =
    rw
      (
        all_codes-append (λ d. not (is_space d)) e.namespace (codes "://" ++ e.path),
        name_no_space e.namespace (namespace_codes e.namespace h.0),
        all_codes-append (λ d. not (is_space d)) (codes "://") e.path,
        path_no_space e.path h.1,
      )
      (unfold all_codes in refl)

-- Where no part holds white space, the identifier that `entity_id` builds is printed to a text that
-- parses to the same identifier.
pub entity_id_round_trip :
    (namespace : Codes) (given : List (Option Codes)) (e : EntityId)
    → All PartNoSpace given
    → entity_id namespace given ≡ some e
    → parse_entity_id (render e) ≡ some e
entity_id_round_trip namespace given e h built =
    let canonical = entity_id-IsCanonical namespace given e h built in
    (parse_entity_id-render (render e) e).1
      (canonical, sym (strip-kept (render e) (render-no_space e canonical)))
