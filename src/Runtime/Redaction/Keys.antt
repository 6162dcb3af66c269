-- ===== src/Runtime/Redaction/Keys.antt =====
-- redaction.py: the verdict on a key (`_key_segments`, `_segments_match`, `_is_secret_key`,
-- `_key_hit_uncached`) and its cache. Keys are taken as ASCII where letters are concerned.
use phlo_observe.Common.{
  ℕ, ◌≡◌, ◌≤◌, refl, Bool, true, false, ◌&&◌, ◌||◌, Option, none, some, List, [], ◌∷◌, ◌++◌, ◌==◌,
  ltb, arith, if◌then◌else◌, length, Bool-cases, Option-cases, inl, inr, All,
}
use phlo_observe.Common.Codes.{
  Codes, codes, same_codes, same_codes_sound, lower, is_lower, is_upper, is_digit, is_space,
}

pub listed_in : Codes → List Codes → Bool
listed_in s [] = false
listed_in s (t ∷ ts) = same_codes s t || listed_in s ts

abbrev pub default_secret_keys : List Codes
default_secret_keys =
    codes "password"
    ∷ codes "passwd"
    ∷ codes "secret"
    ∷ codes "token"
    ∷ codes "api_key"
    ∷ codes "apikey"
    ∷ codes "authorization"
    ∷ codes "cookie"
    ∷ codes "set-cookie"
    ∷ codes "client_secret"
    ∷ codes "access_key"
    ∷ codes "private_key"
    ∷ codes "credentials"
    ∷ []

-- A separator: `_ - . /` or a white space.
is_break : ℕ → Bool
is_break c = c == b'_' || (c == b'-' || (c == b'.' || (c == b'/' || is_space c)))

flush_segment : Codes → List Codes → List Codes
flush_segment [] rest = rest
flush_segment (c ∷ cs) rest = lower (c ∷ cs) ∷ rest

-- Is there a camel bound between the last character read and the next one?
camel : Option ℕ → ℕ → Bool
camel none c = false
camel (some p) c = (is_lower p || is_digit p) && is_upper c

-- `segment` is the part that is being read, `last` the character before.
segments_from : Codes → Option ℕ → Codes → List Codes
unfolding is_break flush_segment camel
segments_from segment last [] = flush_segment segment []
segments_from segment last (c ∷ s) =
    let broken = flush_segment segment (segments_from [] (some c) s) in
    let split = flush_segment segment (segments_from (c ∷ []) (some c) s) in
    let grown = segments_from (segment ++ c ∷ []) (some c) s in
    if is_break c then broken else if camel last c then split else grown

unfoldable pub key_segments : Codes → List Codes
unfolding segments_from
key_segments key = segments_from [] none key

starts_with_run : List Codes → List Codes → Bool
starts_with_run [] segments = true
starts_with_run (p ∷ ps) [] = false
starts_with_run (p ∷ ps) (s ∷ ss) = same_codes p s && starts_with_run ps ss

-- `_segments_match`
unfoldable pub segments_match : List Codes → List Codes → Bool
unfolding starts_with_run
segments_match pattern [] = starts_with_run pattern []
segments_match pattern (s ∷ ss) = starts_with_run pattern (s ∷ ss) || segments_match pattern ss

-- Does a default pattern, cut into segments, occur in the key's? A pattern of one segment is the
-- case that `_SINGLE_SEGMENT_DEFAULTS` answers by a set.
default_occurs : List Codes → List Codes → Bool
unfolding key_segments
default_occurs segments [] = false
default_occurs segments (pattern ∷ patterns) =
    segments_match (key_segments pattern) segments || default_occurs segments patterns

unfoldable pub is_secret_key : Codes → Bool
unfolding default_occurs listed_in
is_secret_key key =
    listed_in (lower key) default_secret_keys
    || default_occurs (key_segments key) default_secret_keys

-- `_key_hit_uncached`: the caller's `extra_keys` and key regexes beside the defaults.
pub key_hit_uncached : List Codes → (Codes → Bool) → Codes → Bool
unfolding default_occurs listed_in
key_hit_uncached extra_keys key_res key =
    listed_in (lower key) (default_secret_keys ++ extra_keys)
    || (default_occurs (key_segments key) default_secret_keys || key_res key)

-- The cache, newest entry first.
abbrev pub Cache : Type 0
Cache = List (Codes × Bool)

abbrev pub cache_limit : ℕ
cache_limit = 4096

pub cached : Codes → Cache → Option Bool
cached key [] = none
cached key ((k, hit) ∷ cache) = if same_codes k key then some hit else cached key cache

-- The first lines of `_key_hit`: the verdict, and the cache after it.
pub key_verdict : (Codes → Bool) → Codes → Cache → Bool × Cache
key_verdict verdict key cache = elim (cached key cache) [
  | some hit ↦ (hit, cache)
  | none ↦
      (verdict key, if ltb (length cache) cache_limit then (key, verdict key) ∷ cache else cache)
]

-- Every entry holds the verdict on its key, and the cache is within its limit.
pub record IsSound (verdict : Codes → Bool) (cache : Cache) : Type 0 where
  pub agrees : All (λ e. e.1 ≡ verdict e.0) cache
  pub bounded : length cache ≤ cache_limit

cached_agrees :
    (verdict : Codes → Bool) (key : Codes) (cache : Cache) (hit : Bool)
    → All (λ e. e.1 ≡ verdict e.0) cache
    → cached key cache ≡ some hit
    → hit ≡ verdict key
unfolding cached
cached_agrees verdict key [] hit h found = cc
cached_agrees verdict key ((k, v) ∷ cache) hit h found = elim (Bool-cases (same_codes k key)) [
  | inl same ↦ ground (arith, h.0, same_codes_sound k key same, found, same)
  | inr other ↦ cached_agrees verdict key cache hit h.1 (ground (arith, found, other))
]

verdict_found :
    (verdict : Codes → Bool) (key : Codes) (cache : Cache) (hit : Bool)
    → cached key cache ≡ some hit
    → key_verdict verdict key cache ≡ (hit, cache)
unfolding key_verdict
verdict_found verdict key cache hit h = ground (arith, h)

verdict_new :
    (verdict : Codes → Bool) (key : Codes) (cache : Cache)
    → cached key cache ≡ none
    → key_verdict verdict key cache
      ≡ (verdict key, if ltb (length cache) cache_limit then (key, verdict key) ∷ cache else cache)
unfolding key_verdict
verdict_new verdict key cache h = ground (arith, h)

grown-IsSound :
    (verdict : Codes → Bool) (key : Codes) (cache : Cache)
    → IsSound verdict cache
    → IsSound verdict (if ltb (length cache) cache_limit then (key, verdict key) ∷ cache else cache)
grown-IsSound verdict key cache h = elim (Bool-cases (ltb (length cache) cache_limit)) [
  | inl room ↦ rw room (record { agrees = (refl, h.agrees); bounded = ground (arith, room) })
  | inr full ↦ rw full h
]

-- Over a sound cache, the cached verdict on a key is the verdict computed afresh, and the cache stays
-- sound and within its limit.
pub key_verdict-IsSound :
    (verdict : Codes → Bool) (key : Codes) (cache : Cache)
    → IsSound verdict cache
    → ((key_verdict verdict key cache).0 ≡ verdict key)
      × IsSound verdict (key_verdict verdict key cache).1
key_verdict-IsSound verdict key cache h = elim (Option-cases (cached key cache)) [
  | inl absent ↦ rw (verdict_new verdict key cache absent) (refl, grown-IsSound verdict key cache h)
  | inr (hit, found) ↦
      rw (verdict_found verdict key cache hit found)
        (cached_agrees verdict key cache hit h.agrees found, h)
]
