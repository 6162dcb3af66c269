-- ===== src/Runtime/Spool/Tests.antt =====
-- Tests of the spool's model, and its theorems at a concrete directory.
use phlo_observe.Common.{
  ℕ, List, ◌+◌, All, length, sort_by, insert_by, ◌≡◌, refl, Bool, true, false, String, none, [],
  ◌∷◌, arith,
}
use phlo_observe.Runtime.Spool.{
  FileSystem, finished, Spool, Segment, Suffix, pending, Line, unlink, select, is_pending,
  drop_oldest, append, make_space, evict_oldest, write_at, total_size, files_size, line_of,
  ends_line, is_active, is_sealed, rotate_if_needed, open_if_none, oldest_of, select, victim,
  is_candidate, unlink, add_line, write, count_dropped, drops_oldest, lines_size,
}
use phlo_observe.Runtime.Spool.Replay.{
  Verdict, taken, replay, replay_each, replay_file, file_of, offered, answered, quarantine,
  with_suffix, content_of, any_broken, looks_like_json,
}
use phlo_observe.Runtime.Spool.Kept.{Survives, replay-Survives}
use phlo_observe.Runtime.Spool.Space.{has}
use phlo_observe.Runtime.Spool.Loop.{Granted, make_space_enough}
use phlo_observe.Runtime.Spool.Append.{append_bound, Bounded}
use phlo_observe.Runtime.Spool.Evictions.{append_spares, Spared, append_oversized, OnlyActive}

abbrev always : String → Bool
always name = true

abbrev working_disk : FileSystem
working_disk = record { sizes_of = λ fs. true; unlinks = always; writes = λ name line. finished }

abbrev old_segment : Segment
old_segment = record { name = "seg-1"; suffix = Suffix.pending; lines = (1 ∷ 2 ∷ 3 ∷ []) ∷ [] }

abbrev other_segment : Segment
other_segment = record { name = "seg-2"; suffix = Suffix.pending; lines = (4 ∷ 5 ∷ []) ∷ [] }

abbrev tight : Spool
tight = record {
  max_bytes = 6;
  segment_max_bytes = 4;
  on_full = drop_oldest;
  files = old_segment ∷ other_segment ∷ [];
  active_paths = "seg-2" ∷ [];
  current = none;
  current_size = 0;
  stats = record { dropped_oldest = 0; errors = 0 };
}

-- A third line evicts the oldest segment.
append_test : (append working_disk "seg-3" (7 ∷ 8 ∷ []) tight).0 ≡ true
unfolding append make_space evict_oldest line_of ends_line rotate_if_needed open_if_none victim
    total_size write_at select oldest_of is_candidate is_sealed is_active unlink add_line write
    files_size lines_size count_dropped drops_oldest
append_test = refl

-- Where the sizes cannot be read, a line is accepted beyond the bound.
unread_test :
    files_size
      (append (record working_disk { sizes_of = λ fs. false }) "seg-3" (7 ∷ 8 ∷ []) tight).1.files
    ≡ 8
unfolding append make_space evict_oldest line_of ends_line rotate_if_needed open_if_none total_size
    write_at add_line write files_size lines_size
unread_test = refl

make_space_enough_example : Granted working_disk 4 (make_space working_disk 3 4 tight)
make_space_enough_example = make_space_enough working_disk 3 4 tight (omega arith)

append_bound_example : Bounded working_disk 5 6 (append working_disk "seg-3" (7 ∷ 8 ∷ []) tight)
unfolding files_size lines_size
append_bound_example = append_bound working_disk "seg-3" (7 ∷ 8 ∷ []) tight (λ fs. refl)

spared : Spared "seg-2" tight
unfolding has is_active
spared = (refl, refl)

append_spares_example : has "seg-2" (append working_disk "seg-3" (7 ∷ 8 ∷ []) tight).1.files ≡ true
append_spares_example =
    append_spares working_disk "seg-3" "seg-2" (7 ∷ 8 ∷ []) tight (λ p. cc) spared

append_oversized_example :
    ((append working_disk "seg-3" (1 ∷ 2 ∷ 3 ∷ 4 ∷ 5 ∷ 6 ∷ 7 ∷ []) tight).0 ≡ false)
    × OnlyActive working_disk (append working_disk "seg-3" (1 ∷ 2 ∷ 3 ∷ 4 ∷ 5 ∷ 6 ∷ 7 ∷ []) tight).1
unfolding line_of ends_line
append_oversized_example =
    append_oversized working_disk "seg-3" (1 ∷ 2 ∷ 3 ∷ 4 ∷ 5 ∷ 6 ∷ 7 ∷ []) tight refl (omega arith)
      (λ other. refl)

abbrev agrees : ℕ → List Line → ℕ × Verdict
agrees n lines = (n + length lines, taken)

abbrev stored : Segment
stored = record { name = "seg-1"; suffix = pending; lines = (b'{' ∷ b'}' ∷ b'\n' ∷ []) ∷ [] }

abbrev torn : Segment
torn = record { name = "seg-2"; suffix = pending; lines = (b'{' ∷ []) ∷ [] }

-- The whole segment is delivered and removed, the torn one quarantined.
replayed_test : (replay agrees always always always none (stored ∷ torn ∷ []) 0).replayed ≡ 1
unfolding replay replay_each replay_file file_of offered answered quarantine with_suffix unlink
    sort_by insert_by select is_pending any_broken content_of looks_like_json
replayed_test = refl

replay-Survives_example :
    All
      (λ f.
        Survives agrees always always always f.lines
          (replay agrees always always always none (stored ∷ torn ∷ []) 0))
      (stored ∷ torn ∷ [])
replay-Survives_example = replay-Survives agrees always always always none (stored ∷ torn ∷ []) 0
