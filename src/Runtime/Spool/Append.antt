-- ===== src/Runtime/Spool/Append.antt =====
-- `Spool.append` of spool.py: the bytes on the disk.
use phlo_observe.Common.{
  ◌⊎◌, ℕ, zero, suc, ◌+◌, ◌≤◌, ◌≡◌, refl, ap, inl, inr, Bool, true, false, String, Option, none,
  some, List, [], ◌∷◌, ◌++◌, arith, Option-cases, length,
}
use phlo_observe.Runtime.Spool.{
  FileSystem, finished, torn, unopened, Segment, Spool, files_size, lines_size, Writing, total_size,
  write_at, victim, add_line, line_of, Line, make_space, count_dropped, count_error, start_of,
  write, written, append, rotate_if_needed, open_if_none,
}
use phlo_observe.Runtime.Spool.Space.{size-unlink}
use phlo_observe.Runtime.Spool.Loop.{Granted, without, make_space_keeps, make_space_enough}

lines_size-append : (ls ms : List Line) → lines_size (ls ++ ms) ≡ lines_size ls + lines_size ms
unfolding lines_size
lines_size-append [] ms = omega arith
lines_size-append (l ∷ ls) ms = omega (arith, lines_size-append ls ms)

size-add_line :
    (name : String) (line : Line) (fs : List Segment)
    → files_size (add_line name line fs) ≡ files_size fs + length line
unfolding files_size lines_size add_line
size-add_line name line [] = omega arith
size-add_line name line (f ∷ fs) =
    ground (arith, size-add_line name line fs, lines_size-append f.lines (line ∷ []))

start_of_le : (n : ℕ) (line : Line) → length (start_of n line) ≤ length line
unfolding start_of
start_of_le zero line = omega arith
start_of_le (suc n) [] = omega arith
start_of_le (suc n) (b ∷ line) = omega (arith, start_of_le n line)

module _ (disk : FileSystem) where
  -- No more on disk than at first, under the same bound.
  abbrev Grows : ℕ → ℕ → Spool → Type 0
  Grows size bound s = (files_size s.files ≤ size) × (s.max_bytes ≡ bound)

  step-Grows :
      (size bound : ℕ) (s : Spool) (f : Segment)
      → victim s ≡ some f
      → Grows size bound s
      → Grows size bound (without s f)
  unfolding without count_dropped
  step-Grows size bound s f found h = (omega (arith, h.0, size-unlink f.name s.files), h.1)

  error-Grows : (size bound : ℕ) (s : Spool) → Grows size bound s → Grows size bound (count_error s)
  unfolding count_error
  error-Grows size bound s h = h

  ready : String → ℕ → Spool → Spool
  ready name incoming s = open_if_none name (rotate_if_needed incoming s)

  ready_same :
      (name : String) (incoming : ℕ) (s : Spool)
      → ((ready name incoming s).files ≡ s.files)
        × ((ready name incoming s).max_bytes ≡ s.max_bytes)
        × ((ready name incoming s).on_full ≡ s.on_full)
  unfolding ready open_if_none rotate_if_needed
  ready_same name incoming s = ground arith

  -- An accepted line is within the bound; a refused one has left no more than there was, or what it
  -- has left is within the bound.
  abbrev pub Bounded : ℕ → ℕ → Bool × Spool → Type 0
  Bounded size bound r =
      ((r.0 ≡ true) × (files_size r.1.files ≤ bound))
      ⊎ ((r.0 ≡ false) × ((files_size r.1.files ≤ size) ⊎ (files_size r.1.files ≤ bound)))

  write_at-Bounded :
      (size bound : ℕ) (path : String) (line : Line) (w : Writing) (s : Spool)
      → Grows size bound s
      → files_size s.files + length line ≤ bound
      → Bounded size bound (write_at path line w s)
  unfolding write_at count_error
  write_at-Bounded size bound path line finished s h room =
      inl (refl, omega (arith, size-add_line path line s.files, room))
  write_at-Bounded size bound path line (torn n) s h room = inr (
    refl,
    inr (omega (arith, size-add_line path (start_of n line) s.files, start_of_le n line, room)),
  )
  write_at-Bounded size bound path line unopened s h room = inr (refl, inl h.0)

  write-Bounded :
      (size bound : ℕ) (line : Line) (s : Spool)
      → Grows size bound s
      → files_size s.files + length line ≤ bound
      → Bounded size bound (write disk line s)
  unfolding write
  write-Bounded size bound line s h room = elim (Option-cases s.current) [
    | inl closed ↦ ground (arith, h.0)
    | inr (path, opened) ↦
        ground (arith, write_at-Bounded size bound path line (disk.writes path line) s h room)
  ]

  written-Bounded :
      (size bound : ℕ) (line : Line) (r : Option Bool × Spool)
      → ((fs : List Segment) → disk.sizes_of fs ≡ true)
      → Grows size bound r.1
      → Granted disk (length line) r
      → Bounded size bound (written disk line r)
  unfolding total_size
  written-Bounded size bound line (some true, s) sized h (inl (p, room)) =
      write-Bounded size bound line s h (ground (arith, room, h.1, sized s.files))
  written-Bounded size bound line (some true, s) sized h (inr (p, over)) = cc
  written-Bounded size bound line (some false, s) sized h room = inr (refl, inl h.0)
  written-Bounded size bound line (none, s) sized h room = inr (refl, inl h.0)

  -- Where the sizes of the files can be read, a line that `append` accepts leaves the spool within its
  -- bound on the disk, and a refusal, also one that a failed write has left bytes of, leaves no more on
  -- the disk than the larger of what there was and the bound.
  pub append_bound :
      (name : String) (payload : List ℕ) (s : Spool)
      → ((fs : List Segment) → disk.sizes_of fs ≡ true)
      → Bounded (files_size s.files) s.max_bytes (append disk name payload s)
  unfolding append ready
  append_bound name payload s sized =
      let line = line_of payload in
      let start = ready name (length line) s in
      let size = files_size s.files in
      let same = ready_same name (length line) s in
      written-Bounded size s.max_bytes line
        (make_space disk (length start.files + 1) (length line) start) sized
        (make_space_keeps disk (Grows size s.max_bytes) (step-Grows size s.max_bytes)
          (error-Grows size s.max_bytes) (length start.files + 1) (length line) start
          (omega (arith, ap files_size same.0), same.1))
        (make_space_enough disk (length start.files + 1) (length line) start (omega arith))
