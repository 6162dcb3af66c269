-- ===== src/Runtime/Spool/Evictions.antt =====
-- `Spool.append` of spool.py: its evictions, file by file.
use phlo_observe.Common.{
  ℕ, zero, suc, ◌+◌, ◌<◌, ◌≡◌, refl, ap, ◌∙◌, ◌≢◌, inl, inr, Bool, true, false, String, Option,
  none, some, List, [], ◌∷◌, arith, eq_iff, All, Option-cases, length,
}
use phlo_observe.Runtime.Spool.{
  FileSystem, Writing, finished, torn, unopened, write_at, start_of, Segment, Spool, is_active,
  is_sealed, victim, add_line, line_of, Line, make_space, count_dropped, count_error, drops_oldest,
  drop_oldest, write, written, append, rotate_if_needed, open_if_none, forget,
}
use phlo_observe.Runtime.Spool.Space.{has, has-unlink, victim_cases, victim-sealed, oldest_none}
use phlo_observe.Runtime.Spool.Loop.{
  without, length-without, fits, refuses, evicts, turn, make_space_keeps,
}

has-add_line :
    (name p : String) (line : Line) (fs : List Segment)
    → has p fs ≡ true
    → has p (add_line name line fs) ≡ true
unfolding has add_line
has-add_line name p line [] h = cc
has-add_line name p line (f ∷ fs) h = ground (arith, has-add_line name p line fs)

active-forget :
    (name p : String) (ps : List String)
    → name ≢ p
    → is_active ps p ≡ true
    → is_active (forget name ps) p ≡ true
unfolding is_active forget
active-forget name p [] apart h = h
active-forget name p (q ∷ qs) apart h =
    ground (arith, active-forget name p qs apart, eq_iff q name, eq_iff q p)

-- The spool has the file and is still writing to it.
abbrev pub Spared : String → Spool → Type 0
Spared p s = (has p s.files ≡ true) × (is_active s.active_paths p ≡ true)

module _ (disk : FileSystem) where
  sealed_apart :
      (s : Spool) (f : Segment) (p : String)
      → is_sealed s f ≡ true
      → is_active s.active_paths p ≡ true
      → f.name ≢ p
  unfolding is_sealed
  sealed_apart s f p h a same = ground (arith, ap (is_active s.active_paths) same)

  step-Spared :
      (p : String) (s : Spool) (f : Segment)
      → victim s ≡ some f
      → Spared p s
      → Spared p (without s f)
  unfolding without count_dropped
  step-Spared p s f found h =
      (has-unlink f.name p s.files (sealed_apart s f p (victim-sealed s f found).1 h.1) h.0, h.1)

  error-Spared : (p : String) (s : Spool) → Spared p s → Spared p (count_error s)
  unfolding count_error
  error-Spared p s h = h

  rotate-Spared :
      (p : String) (n : ℕ) (s : Spool)
      → s.current ≢ some p
      → Spared p s
      → Spared p (rotate_if_needed n s)
  unfolding rotate_if_needed
  rotate-Spared p n s apart h = elim (Option-cases s.current) [
    | inl closed ↦ rw closed h
    | inr (path, opened) ↦
        let other : path ≢ p = λ same. apart (opened ∙ ap some same) in
        ground (arith, h.0, h.1, active-forget path p s.active_paths other h.1)
  ]

  open-Spared : (p name : String) (s : Spool) → Spared p s → Spared p (open_if_none name s)
  unfolding open_if_none is_active
  open-Spared p name s h = ground (arith, h.0, h.1)

  write_at-Spared :
      (p path : String) (line : Line) (w : Writing) (s : Spool)
      → has p s.files ≡ true
      → has p (write_at path line w s).1.files ≡ true
  unfolding write_at count_error
  write_at-Spared p path line finished s h = has-add_line path p line s.files h
  write_at-Spared p path line (torn n) s h = has-add_line path p (start_of n line) s.files h
  write_at-Spared p path line unopened s h = h

  written-Spared :
      (p : String) (line : Line) (r : Option Bool × Spool)
      → Spared p r.1
      → has p (written disk line r).1.files ≡ true
  unfolding write
  written-Spared p line (some true, s) h = elim (Option-cases s.current) [
    | inl closed ↦ ground (arith, h.0)
    | inr (path, opened) ↦ ground (arith, write_at-Spared p path line (disk.writes path line) s h.0)
  ]
  written-Spared p line (some false, s) h = h.0
  written-Spared p line (none, s) h = h.0

  -- A file that some spool still writes to, and that is not the current one of this spool, is never
  -- evicted by an `append`.
  pub append_spares :
      (name p : String) (payload : List ℕ) (s : Spool)
      → s.current ≢ some p
      → Spared p s
      → has p (append disk name payload s).1.files ≡ true
  unfolding append
  append_spares name p payload s apart h =
      let line = line_of payload in
      let start = open_if_none name (rotate_if_needed (length line) s) in
      written-Spared p line (make_space disk (length start.files + 1) (length line) start) (
        make_space_keeps disk (Spared p) (step-Spared p) (error-Spared p) (length start.files + 1)
          (length line) start
          (open-Spared p name (rotate_if_needed (length line) s)
            (rotate-Spared p (length line) s apart h)))

  -- Every file that is left is one that is still written to.
  abbrev pub OnlyActive : Spool → Type 0
  OnlyActive s = All (λ f. is_sealed s f ≡ false) s.files

  emptied : (s : Spool) → victim s ≡ none → OnlyActive (count_error s)
  unfolding count_error is_sealed
  emptied s h = elim (victim_cases s) [
    | inl (nothing, rest) ↦ oldest_none (is_sealed s) s.files rest
    | inr (inl (f, found, chosen)) ↦ absurd (ground (arith, h, found))
    | inr (inr (f, found, chosen)) ↦ absurd (ground (arith, h, found))
  ]

  -- The loop cannot fit what is larger than the whole bound.
  abbrev Hopeless : ℕ → Spool → Type 0
  Hopeless n s = (s.max_bytes < n) × (drops_oldest s.on_full ≡ true)

  step-Hopeless : (n : ℕ) (s : Spool) (f : Segment) → Hopeless n s → Hopeless n (without s f)
  unfolding without count_dropped
  step-Hopeless n s f h = h

  oversized_loop :
      (fuel n : ℕ) (s : Spool)
      → ((name : String) → disk.unlinks name ≡ true)
      → length s.files < fuel
      → Hopeless n s
      → ((make_space disk fuel n s).0 ≡ some false) × OnlyActive (make_space disk fuel n s).1
  oversized_loop zero n s ok h less = absurd (omega (arith, h))
  oversized_loop (suc fuel) n s ok h less = elim (turn disk fuel n s) [
    | fits room left ↦ absurd (omega (arith, room, less.0))
    | refuses over (inl newest) left ↦ absurd (ground (arith, newest, less.1))
    | refuses over (inr (inl nothing)) left ↦ rw left (refl, emptied s nothing)
    | refuses over (inr (inr (f, stuck))) left ↦ absurd (ground (arith, stuck, ok f.name))
    | evicts f over found left ↦ rw left (
        oversized_loop fuel n (without s f) ok (omega (arith, h, length-without disk s f found))
          (step-Hopeless n s f less))
  ]

  ready-Hopeless :
      (name : String) (n : ℕ) (s : Spool)
      → Hopeless n s
      → Hopeless n (open_if_none name (rotate_if_needed n s))
  unfolding open_if_none rotate_if_needed
  ready-Hopeless name n s h = ground (arith, h.0, h.1)

  written_refused :
      (line : Line) (r : Option Bool × Spool)
      → r.0 ≡ some false
      → written disk line r ≡ (false, r.1)
  written_refused line (none, s) h = cc
  written_refused line (some true, s) h = cc
  written_refused line (some false, s) h = refl

  -- Under `drop_oldest`, where every unlink works, a line larger than the whole bound is refused, and
  -- of the files only those that are still written to are left.
  pub append_oversized :
      (name : String) (payload : List ℕ) (s : Spool)
      → s.on_full ≡ drop_oldest
      → s.max_bytes < length (line_of payload)
      → ((other : String) → disk.unlinks other ≡ true)
      → ((append disk name payload s).0 ≡ false) × OnlyActive (append disk name payload s).1
  unfolding append drops_oldest
  append_oversized name payload s policy large ok =
      let line = line_of payload in
      let start = open_if_none name (rotate_if_needed (length line) s) in
      let looped =
        oversized_loop (length start.files + 1) (length line) start ok (omega arith)
          (ready-Hopeless name (length line) s (large, ap drops_oldest policy)) in
      rw
        (written_refused line (make_space disk (length start.files + 1) (length line) start)
          looped.0)
        (refl, looped.1)
