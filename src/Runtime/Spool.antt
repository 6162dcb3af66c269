-- ===== src/Runtime/Spool.antt =====
-- The write path of `Spool` of spool.py: rotation, the capacity loop and its evictions. The files of
-- one spool directory are a list; the file system is a parameter. The lines of a file are the
-- pieces written to it, and a write that failed may have left the first bytes of its line.
pub mod Space
pub mod Loop
pub mod Evictions
pub mod Append
pub mod Replay
pub mod Kept
mod Tests
use phlo_observe.Common.{
  ℕ, zero, suc, ◌+◌, String, Bool, true, false, ◌&&◌, ◌||◌, not, Option, none, some, List, [], ◌∷◌,
  ◌++◌, ◌==◌, str_eq, ltb, leb, str_order, TotalOrder, if◌then◌else◌, length,
}

-- The suffix of a segment file: `.jsonl`, `.corrupt` or `.dead`.
pub data Suffix : Type 0 where
  pending corrupt dead : Suffix

abbrev pub Line : Type 0
Line = List ℕ

pub record Segment : Type 0 where
  pub name : String
  pub suffix : Suffix
  pub lines : List Line

pub data OnFull : Type 0 where
  drop_oldest drop_newest : OnFull

pub record SpoolCounts : Type 0 where
  pub dropped_oldest : ℕ
  pub errors : ℕ

pub record Spool : Type 0 where
  pub max_bytes : ℕ
  pub segment_max_bytes : ℕ
  pub on_full : OnFull
  pub files : List Segment
  pub active_paths : List String
  pub current : Option String
  pub current_size : ℕ
  pub stats : SpoolCounts

pub lines_size : List Line → ℕ
lines_size [] = 0
lines_size (l ∷ ls) = length l + lines_size ls

pub files_size : List Segment → ℕ
unfolding lines_size
files_size [] = 0
files_size (f ∷ fs) = lines_size f.lines + files_size fs

-- What becomes of a line at a file: all of it is written; or an OSError came after so many of its
-- bytes; or the file could not be opened.
pub data Writing : Type 0 where
  finished : Writing
  torn : ℕ → Writing
  unopened : Writing

-- Can the sizes of these files be read, without an OSError? Is this file unlinked? And what becomes
-- of a line?
pub record FileSystem : Type 0 where
  pub sizes_of : List Segment → Bool
  pub unlinks : String → Bool
  pub writes : String → Line → Writing

-- `_total_size`
unfoldable pub total_size : FileSystem → Spool → ℕ
total_size disk s = if disk.sizes_of s.files then files_size s.files else 0

pub is_active : List String → String → Bool
is_active [] name = false
is_active (p ∷ ps) name = str_eq p name || is_active ps name

pub is_pending : Suffix → Bool
is_pending pending = true
is_pending _ = false

pub select : (Segment → Bool) → List Segment → List Segment
select test [] = []
select test (f ∷ fs) = if test f then f ∷ select test fs else select test fs

-- The first of the files in the order of their names.
pub oldest_of : List Segment → Option Segment
oldest_of [] = none
oldest_of (f ∷ fs) = elim (oldest_of fs) [
  | none ↦ some f
  | some g ↦ if str_order.less g.name f.name then some g else some f
]

pub is_candidate : Spool → Segment → Bool
unfolding is_pending
is_candidate s f = is_pending f.suffix && not (is_active s.active_paths f.name)

pub is_sealed : Spool → Segment → Bool
is_sealed s f = not (is_active s.active_paths f.name)

-- `pending or [...]`, and its first entry.
pub victim : Spool → Option Segment
victim s = elim (oldest_of (select (is_candidate s) s.files)) [
  | none ↦ oldest_of (select (is_sealed s) s.files)
  | some f ↦ some f
]

pub unlink : String → List Segment → List Segment
unlink name [] = []
unlink name (f ∷ fs) = if str_eq f.name name then fs else f ∷ unlink name fs

pub add_line : String → Line → List Segment → List Segment
add_line name line [] = record { name = name; suffix = pending; lines = line ∷ [] } ∷ []
add_line name line (f ∷ fs) =
    if str_eq f.name name
    then record f { lines = f.lines ++ line ∷ [] } ∷ fs
    else f ∷ add_line name line fs

newline : ℕ
newline = b'\n'

pub ends_line : List ℕ → Bool
unfolding newline
ends_line [] = false
ends_line (b ∷ []) = b == newline
ends_line (b ∷ c ∷ bs) = ends_line (c ∷ bs)

pub line_of : List ℕ → Line
unfolding newline
line_of payload = if ends_line payload then payload else payload ++ newline ∷ []

pub forget : String → List String → List String
forget name [] = []
forget name (p ∷ ps) = if str_eq p name then forget name ps else p ∷ forget name ps

-- `_rotate_if_needed`
pub rotate_if_needed : ℕ → Spool → Spool
unfolding forget
rotate_if_needed incoming s = elim s.current [
  | none ↦ s
  | some path ↦
      if ltb s.segment_max_bytes (s.current_size + incoming)
      then record s { active_paths = forget path s.active_paths; current = none }
      else s
]

-- `_open_segment` where there is none; the file itself comes with its first line.
pub open_if_none : String → Spool → Spool
open_if_none name s = elim s.current [
  | none ↦ record s { current = some name; active_paths = name ∷ s.active_paths; current_size = 0 }
  | some path ↦ s
]

pub count_dropped : Spool → Spool
count_dropped s = record s {
  stats = record s.stats { dropped_oldest = s.stats.dropped_oldest + 1 };
}

pub count_error : Spool → Spool
count_error s = record s { stats = record s.stats { errors = s.stats.errors + 1 } }

pub drops_oldest : OnFull → Bool
drops_oldest drop_oldest = true
drops_oldest drop_newest = false

-- The first bytes of a line.
pub start_of : ℕ → Line → Line
start_of zero line = []
start_of (suc n) [] = []
start_of (suc n) (b ∷ line) = b ∷ start_of n line

-- The write of the line into the open segment, and what an OSError leaves of it.
pub write_at : String → Line → Writing → Spool → Bool × Spool
unfolding start_of
write_at path line finished s = (
  true,
  record s { files = add_line path line s.files; current_size = s.current_size + length line },
)
write_at path line (torn n) s =
    (false, count_error (record s { files = add_line path (start_of n line) s.files }))
write_at path line unopened s = (false, count_error s)

module _ (disk : FileSystem) where
  -- `_evict_oldest`
  pub evict_oldest : Spool → Bool × Spool
  evict_oldest s = elim (victim s) [
    | none ↦ (false, s)
    | some f ↦
        if disk.unlinks f.name
        then (true, record s { files = unlink f.name s.files })
        else (false, s)
  ]

  -- The capacity loop on fuel: `none` when the fuel runs out, else whether there is room.
  pub make_space : ℕ → ℕ → Spool → Option Bool × Spool
  make_space zero incoming s =
      if ltb s.max_bytes (total_size disk s + incoming) then (none, s) else (some true, s)
  make_space (suc fuel) incoming s =
      let (evicted, s') = evict_oldest s in
      let rest = make_space fuel incoming (count_dropped s') in
      if ltb s.max_bytes (total_size disk s + incoming)
      then (if drops_oldest s.on_full && evicted then rest else (some false, count_error s))
      else (some true, s)

  pub write : Line → Spool → Bool × Spool
  unfolding write_at
  write line s = elim s.current [
    | none ↦ (false, s)
    | some path ↦ write_at path line (disk.writes path line) s
  ]

  abbrev pub written : Line → Option Bool × Spool → Bool × Spool
  written line (some true, s) = write line s
  written line (_, s) = (false, s)

  -- `append`, with the name of a segment that it would open.
  pub append : String → List ℕ → Spool → Bool × Spool
  append name payload s =
      let line = line_of payload in
      let ready = open_if_none name (rotate_if_needed (length line) s) in
      written line (make_space (length ready.files + 1) (length line) ready)
