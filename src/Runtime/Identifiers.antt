-- ===== src/Runtime/Identifiers.antt =====
-- identifiers.py of observe_core: canonical entity identifiers. A text is the list of its code
-- points, white space and letters are those of ASCII, and a ValueError is `none`.
pub mod RoundTrip
pub mod Build
mod Tests
use phlo_observe.Common.{
  ℕ, Bool, true, false, ◌&&◌, ◌||◌, not, Option, none, some, List, [], ◌∷◌, ◌++◌, ◌==◌, drop,
  if◌then◌else◌,
}
use phlo_observe.Common.Codes.{
  Codes, codes, same_codes, starts_codes, join_codes, is_lower, is_digit, is_space,
}

pub data EntityKind : Type 0 where
  asset run table iceberg branch model source snapshot service deployment quality_suite incident :
      EntityKind

pub record EntityId : Type 0 where
  pub namespace : Codes
  pub path : Codes

-- The values of `EntityKind`.
abbrev kinds : List (Codes × EntityKind)
kinds =
    (codes "asset", asset)
    ∷ (codes "run", run)
    ∷ (codes "table", table)
    ∷ (codes "iceberg", iceberg)
    ∷ (codes "branch", branch)
    ∷ (codes "model", model)
    ∷ (codes "source", source)
    ∷ (codes "snapshot", snapshot)
    ∷ (codes "service", service)
    ∷ (codes "deployment", deployment)
    ∷ (codes "quality", quality_suite)
    ∷ (codes "incident", incident)
    ∷ []

kind_among : Codes → List (Codes × EntityKind) → Option EntityKind
kind_among name [] = none
kind_among name ((n, k) ∷ rest) = if same_codes name n then some k else kind_among name rest

-- `EntityId.kind`
unfoldable pub kind_of : EntityId → Option EntityKind
unfolding kind_among
kind_of e = kind_among e.namespace kinds

-- `path.split("/")` without the empty parts; `part` is the one that is being read.
pub parts_from : Codes → Codes → List Codes
parts_from [] [] = []
parts_from (p ∷ part) [] = (p ∷ part) ∷ []
parts_from part (c ∷ path) =
    let ended = parts_from [] path in
    let grown = parts_from (part ++ c ∷ []) path in
    if c == b'/' then (elim part [ [] ↦ ended | ◌∷◌ p ps ↦ (p ∷ ps) ∷ ended ]) else grown

-- `EntityId.parts`
pub parts : EntityId → List Codes
parts e = parts_from [] e.path

-- `EntityId.__str__`
pub render : EntityId → Codes
render e = e.namespace ++ (codes "://" ++ e.path)

abbrev pub is_slash : ℕ → Bool
is_slash c = c == b'/'

pub strip_left : (ℕ → Bool) → Codes → Codes
strip_left cut [] = []
strip_left cut (c ∷ s) = if cut c then strip_left cut s else c ∷ s

pub strip_right : (ℕ → Bool) → Codes → Codes
strip_right cut [] = []
strip_right cut (c ∷ s) = elim (strip_right cut s) [
  | [] ↦ if cut c then [] else c ∷ []
  | ◌∷◌ d rest ↦ c ∷ d ∷ rest
]

-- `str.strip`
unfoldable pub strip : (ℕ → Bool) → Codes → Codes
strip cut s = strip_right cut (strip_left cut s)

abbrev pub name_code : ℕ → Bool
name_code c = is_lower c || is_digit c

pub all_codes : (ℕ → Bool) → Codes → Bool
all_codes test [] = true
all_codes test (c ∷ s) = test c && all_codes test s

-- `[a-z][a-z0-9]*` of the whole text.
pub is_namespace : Codes → Bool
is_namespace [] = false
is_namespace (c ∷ s) = is_lower c && all_codes name_code s

pub keep_part : Codes → List Codes → List Codes
keep_part [] rest = rest
keep_part (c ∷ cs) rest = (c ∷ cs) ∷ rest

-- The parts that are left of `entity_id`'s; `none` is None.
pub clean_parts : List (Option Codes) → List Codes
clean_parts [] = []
clean_parts (none ∷ rest) = clean_parts rest
clean_parts (some part ∷ rest) = keep_part (strip is_slash part) (clean_parts rest)

pub from_parts : Codes → List Codes → Option EntityId
from_parts namespace [] = none
from_parts namespace (p ∷ ps) =
    some (record { namespace = namespace; path = join_codes (codes "/") (p ∷ ps) })

-- `entity_id`
pub entity_id : Codes → List (Option Codes) → Option EntityId
entity_id namespace given =
    if is_namespace namespace then from_parts namespace (clean_parts given) else none

-- The longest prefix of name characters, and what follows.
pub span_name : Codes → Codes × Codes
span_name [] = ([], [])
span_name (c ∷ s) =
    let (name, rest) = span_name s in if name_code c then (c ∷ name, rest) else ([], c ∷ s)

pub after_scheme : Codes → Option Codes
after_scheme s = if starts_codes (codes "://") s then some (drop 3 s) else none

pub is_path : Codes → Bool
is_path [] = false
is_path (c ∷ s) = all_codes (λ d. not (is_space d)) (c ∷ s)

-- A text of a name and what may follow the scheme's mark.
pub matched : Codes → Option Codes → Option EntityId
matched name none = none
matched name (some path) =
    if is_namespace name && is_path path
    then some (record { namespace = name; path = path })
    else none

-- `URI_PATTERN.match`
pub match_uri : Codes → Option EntityId
match_uri s = matched (span_name s).0 (after_scheme (span_name s).1)

-- `parse_entity_id`
pub parse_entity_id : Codes → Option EntityId
parse_entity_id value = match_uri (strip is_space value)

-- `is_entity_id`, of a text.
unfoldable pub is_entity_id : Codes → Bool
is_entity_id value = elim (parse_entity_id value) [ none ↦ false | some _ ↦ true ]

-- The builders of the kinds.
pub asset_id : List (Option Codes) → Option EntityId
asset_id given = entity_id (codes "asset") given

pub run_id_for : Codes → Option Codes → Option EntityId
run_id_for system run_name = entity_id (codes "run") (some system ∷ run_name ∷ [])

pub table_id : List (Option Codes) → Option EntityId
table_id given = entity_id (codes "table") given

pub iceberg_id : Codes → List (Option Codes) → Option EntityId
iceberg_id catalog schema_table = entity_id (codes "iceberg") (some catalog ∷ schema_table)

pub branch_id : Codes → Option Codes → Option EntityId
branch_id system name = entity_id (codes "branch") (some system ∷ name ∷ [])

pub model_id : Codes → Option Codes → Option EntityId
model_id system name = entity_id (codes "model") (some system ∷ name ∷ [])

pub source_id : Codes → Option Codes → Option EntityId
source_id system name = entity_id (codes "source") (some system ∷ name ∷ [])

pub snapshot_id_for : Option Codes → Option Codes → Option EntityId
snapshot_id_for table_name snapshot_name =
    entity_id (codes "snapshot") (table_name ∷ snapshot_name ∷ [])

pub service_id : Option Codes → Option EntityId
service_id name = entity_id (codes "service") (name ∷ [])

pub incident_id : Option Codes → Option EntityId
incident_id name = entity_id (codes "incident") (name ∷ [])
