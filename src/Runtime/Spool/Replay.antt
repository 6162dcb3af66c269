-- ===== src/Runtime/Spool/Replay.antt =====
-- `Spool.replay` of spool.py, while nobody appends. A name belongs to one file. Which reads, renames
-- and unlinks the file system grants, and what the drain answers, are parameters; `accepted` records
-- the batches that the drain has accepted.
use phlo_observe.Common.{
  ℕ, ◌+◌, String, Bool, true, false, ◌&&◌, ◌||◌, not, Option, none, some, List, [], ◌∷◌, ◌++◌, ◌==◌,
  str_eq, leb, str_order, sort_by, if◌then◌else◌, length,
}
use phlo_observe.Runtime.Spool.{
  Suffix, corrupt, dead, Line, Segment, Spool, select, is_pending, unlink, forget,
}

pub data Verdict : Type 0 where
  taken permanent transient : Verdict

pub record Replay (D : Type 0) : Type 0 where
  pub files : List Segment
  pub drain : D
  pub replayed : ℕ
  pub quarantined : ℕ
  pub accepted : List (List Line)

bytes_of : List Line → List ℕ
bytes_of [] = []
bytes_of (l ∷ ls) = l ++ bytes_of ls

-- `bytes.splitlines`, where `line` is the one being read and a carriage return waits for its newline.
splitlines_from : List ℕ → Bool → List ℕ → List Line
splitlines_from [] returned [] = []
splitlines_from (b ∷ line) returned [] = (b ∷ line) ∷ []
splitlines_from line returned (c ∷ bytes) =
    let fresh = splitlines_from [] false bytes in
    let after_return = splitlines_from [] true bytes in
    let grown = splitlines_from (line ++ c ∷ []) false bytes in
    if c == b'\n'
    then (if returned then fresh else line ∷ fresh)
    else if c == b'\r'
    then line ∷ after_return
    else grown

blank : Line → Bool
blank [] = true
blank (c ∷ line) = ((leb 9 c && leb c 13) || c == 32) && blank line

solid_lines : List Line → List Line
unfolding blank
solid_lines [] = []
solid_lines (l ∷ ls) = if blank l then solid_lines ls else l ∷ solid_lines ls

-- The lines of a segment that are not blank.
unfoldable pub content_of : Segment → List Line
unfolding bytes_of splitlines_from solid_lines
content_of f = solid_lines (splitlines_from [] false (bytes_of f.lines))

last_byte : ℕ → Line → ℕ
last_byte b [] = b
last_byte b (c ∷ cs) = last_byte c cs

-- `_looks_like_json`
unfoldable pub looks_like_json : Line → Bool
unfolding last_byte
looks_like_json [] = false
looks_like_json (b ∷ bs) = b == b'{' && last_byte b bs == b'}'

unfoldable pub any_broken : List Line → Bool
any_broken [] = false
any_broken (l ∷ ls) = not (looks_like_json l) || any_broken ls

unfoldable pub file_of : String → List Segment → Option Segment
file_of name [] = none
file_of name (f ∷ fs) = if str_eq f.name name then some f else file_of name fs

-- `rename(with_suffix(...))`
unfoldable pub with_suffix : String → Suffix → List Segment → List Segment
with_suffix name suffix [] = []
with_suffix name suffix (f ∷ fs) =
    if str_eq f.name name then record f { suffix = suffix } ∷ fs else f ∷ with_suffix name suffix fs

module _ {D : Type 0} (emit_raw : D → List Line → D × Verdict)
    (reads renames unlinks : String → Bool) where
  -- `_quarantine`
  unfoldable pub quarantine : String → Suffix → Replay D → Replay D
  quarantine name suffix r = record r {
    files = if renames name then with_suffix name suffix r.files else r.files;
    quarantined = r.quarantined + 1;
  }

  -- What follows `emit_raw`; false breaks the loop.
  unfoldable pub answered : String → Segment → Replay D → Verdict → Bool × Replay D
  answered name f r taken = (
    true,
    record r {
      files = if unlinks name then unlink name r.files else r.files;
      replayed = r.replayed + length (content_of f);
      accepted = content_of f ∷ r.accepted;
    },
  )
  answered name f r permanent = (true, quarantine name dead r)
  answered name f r transient = (false, r)

  unfoldable pub offered : String → Segment → Replay D → D × Verdict → Bool × Replay D
  offered name f r (drain, verdict) = answered name f (record r { drain = drain }) verdict

  -- A file that cannot be read is passed over.
  unfoldable pub replay_file : String → Replay D → Option Segment → Bool × Replay D
  replay_file name r none = (true, r)
  replay_file name r (some f) =
      if reads name
      then (if any_broken (content_of f)
          then (true, quarantine name corrupt r)
          else offered name f r (emit_raw r.drain (content_of f)))
      else (true, r)

  abbrev pub within : Option ℕ → ℕ → Bool
  within none replayed = true
  within (some n) replayed = not (leb n replayed)

  unfoldable pub replay_each : Option ℕ → List Segment → Replay D → Replay D
  replay_each max_events [] r = r
  replay_each max_events (f ∷ fs) r =
      let one = replay_file f.name r (file_of f.name r.files) in
      let rest = replay_each max_events fs one.1 in
      if within max_events r.replayed then (if one.0 then rest else one.1) else r

  -- `_segments_local`
  abbrev pub segments_local : List Segment → List Segment
  segments_local files = sort_by str_order (λ f. f.name) (select (λ f. is_pending f.suffix) files)

  -- `replay`, of the files of the directory.
  unfoldable pub replay : Option ℕ → List Segment → D → Replay D
  replay max_events files drain =
      replay_each max_events (segments_local files)
        (record { files = files; drain = drain; replayed = 0; quarantined = 0; accepted = [] })

-- The open segment is sealed first.
unfoldable pub seal : Spool → Spool
seal s = elim s.current [
  | none ↦ record s { current_size = 0 }
  | some path ↦ record s {
    active_paths = forget path s.active_paths;
    current = none;
    current_size = 0;
  }
]
