-- ===== src/Runtime/Spool/Loop.antt =====
-- The capacity loop of `Spool.append` of spool.py, turn by turn.
use phlo_observe.Common.{
  Option, refl, ℕ, zero, suc, ◌+◌, ◌≤◌, ◌<◌, ◌≡◌, sym, subst, ◌⊎◌, inl, inr, Bool, true, false,
  none, some, arith, Bool-cases, Option-cases, ltb, length, ltb-false→le,
}
use phlo_observe.Runtime.Spool.{
  FileSystem, Segment, Spool, total_size, victim, unlink, evict_oldest, make_space, count_dropped,
  count_error, drops_oldest,
}
use phlo_observe.Runtime.Spool.Space.{length-unlink, victim-sealed}

-- The state of the loop after one eviction.
unfoldable pub without : Spool → Segment → Spool
without s f = count_dropped (record s { files = unlink f.name s.files })

module _ (disk : FileSystem) where
  -- One turn of the loop.
  pub data Turn (fuel n : ℕ) (s : Spool) : Type 0 where
    fits :
        total_size disk s + n ≤ s.max_bytes
        → make_space disk (suc fuel) n s ≡ (some true, s)
        → Turn fuel n s
    refuses :
        s.max_bytes < total_size disk s + n
        → (drops_oldest s.on_full ≡ false)
          ⊎ (victim s ≡ none)
          ⊎ ((f : Segment) × (disk.unlinks f.name ≡ false))
        → make_space disk (suc fuel) n s ≡ (some false, count_error s)
        → Turn fuel n s
    evicts :
        (f : Segment)
        → s.max_bytes < total_size disk s + n
        → victim s ≡ some f
        → make_space disk (suc fuel) n s ≡ make_space disk fuel n (without s f)
        → Turn fuel n s

  evict-none : (s : Spool) → victim s ≡ none → evict_oldest disk s ≡ (false, s)
  unfolding evict_oldest
  evict-none s h = ground (arith, h)

  evict_some :
      (s : Spool) (f : Segment)
      → victim s ≡ some f
      → disk.unlinks f.name ≡ true
      → evict_oldest disk s ≡ (true, record s { files = unlink f.name s.files })
  unfolding evict_oldest
  evict_some s f h ok = ground (arith, h)

  evict_stuck :
      (s : Spool) (f : Segment)
      → victim s ≡ some f
      → disk.unlinks f.name ≡ false
      → evict_oldest disk s ≡ (false, s)
  unfolding evict_oldest
  evict_stuck s f h ok = ground (arith, h)

  turn_fits :
      (fuel n : ℕ) (s : Spool)
      → ltb s.max_bytes (total_size disk s + n) ≡ false
      → make_space disk (suc fuel) n s ≡ (some true, s)
  unfolding make_space
  turn_fits fuel n s h = ground (arith, h)

  turn_newest :
      (fuel n : ℕ) (s : Spool)
      → ltb s.max_bytes (total_size disk s + n) ≡ true
      → drops_oldest s.on_full ≡ false
      → make_space disk (suc fuel) n s ≡ (some false, count_error s)
  unfolding make_space
  turn_newest fuel n s h d = ground (arith, h, d)

  turn_stuck :
      (fuel n : ℕ) (s : Spool)
      → ltb s.max_bytes (total_size disk s + n) ≡ true
      → evict_oldest disk s ≡ (false, s)
      → make_space disk (suc fuel) n s ≡ (some false, count_error s)
  unfolding make_space
  turn_stuck fuel n s h d = ground (arith, h, d)

  turn_evicts :
      (fuel n : ℕ) (s : Spool) (f : Segment)
      → ltb s.max_bytes (total_size disk s + n) ≡ true
      → drops_oldest s.on_full ≡ true
      → evict_oldest disk s ≡ (true, record s { files = unlink f.name s.files })
      → make_space disk (suc fuel) n s ≡ make_space disk fuel n (without s f)
  unfolding make_space without
  turn_evicts fuel n s f h d e = ground (arith, h, d, e)

  pub turn : (fuel n : ℕ) (s : Spool) → Turn fuel n s
  turn fuel n s = elim (Bool-cases (ltb s.max_bytes (total_size disk s + n))) [
    | inr fit ↦ fits (ltb-false→le s.max_bytes (total_size disk s + n) fit) (turn_fits fuel n s fit)
    | inl over ↦ elim (Bool-cases (drops_oldest s.on_full)) [
      | inr newest ↦ refuses (ground (arith, over)) (inl newest) (turn_newest fuel n s over newest)
      | inl oldest ↦ elim (Option-cases (victim s)) [
        | inl nothing ↦
            refuses (ground (arith, over)) (inr (inl nothing))
              (turn_stuck fuel n s over (evict-none s nothing))
        | inr (f, found) ↦ elim (Bool-cases (disk.unlinks f.name)) [
          | inl gone ↦
              evicts f (ground (arith, over)) found
                (turn_evicts fuel n s f over oldest (evict_some s f found gone))
          | inr stuck ↦
              refuses (ground (arith, over)) (inr (inr (f, stuck)))
                (turn_stuck fuel n s over (evict_stuck s f found stuck))
        ]
      ]
    ]
  ]

  out_of_fuel : (n : ℕ) (s : Spool) → (make_space disk zero n s).1 ≡ s
  unfolding make_space
  out_of_fuel n s = ground arith

  -- What one eviction keeps, the loop keeps.
  pub make_space_keeps :
      (P : Spool → Type 0)
      → ((s : Spool) (f : Segment) → victim s ≡ some f → P s → P (without s f))
      → ((s : Spool) → P s → P (count_error s))
      → (fuel n : ℕ) (s : Spool) → P s
      → P (make_space disk fuel n s).1
  make_space_keeps P step err zero n s p = subst P (sym (out_of_fuel n s)) p
  make_space_keeps P step err (suc fuel) n s p = elim (turn fuel n s) [
    | fits room left ↦ rw left p
    | refuses over why left ↦ rw left (err s p)
    | evicts f over found left ↦
        rw left (make_space_keeps P step err fuel n (without s f) (step s f found p))
  ]

  pub length-without :
      (s : Spool) (f : Segment)
      → victim s ≡ some f
      → length (without s f).files + 1 ≡ length s.files
  unfolding without count_dropped
  length-without s f found = length-unlink f.name s.files (victim-sealed s f found).0

  -- The loop has decided: by the size that `_total_size` reads there is room for the new bytes below
  -- the bound, or there is none and the line is refused.
  abbrev pub Granted : ℕ → Option Bool × Spool → Type 0
  Granted n r =
      ((r.0 ≡ some true) × (total_size disk r.1 + n ≤ r.1.max_bytes))
      ⊎ ((r.0 ≡ some false) × (r.1.max_bytes < total_size disk r.1 + n))

  over_counted :
      (n : ℕ) (s : Spool)
      → s.max_bytes < total_size disk s + n
      → (count_error s).max_bytes < total_size disk (count_error s) + n
  unfolding count_error total_size
  over_counted n s h = h

  -- The capacity loop ends: with more fuel than there are files it does not run out. It grants room
  -- only where the new bytes and the size that `_total_size` reads of the files that are left, 0 where
  -- an OSError stops it, are within the bound, and it refuses the line only where they are not.
  pub make_space_enough :
      (fuel n : ℕ) (s : Spool) → length s.files < fuel → Granted n (make_space disk fuel n s)
  make_space_enough zero n s h = absurd (omega (arith, h))
  make_space_enough (suc fuel) n s h = elim (turn fuel n s) [
    | fits room left ↦ rw left (inl (refl, room))
    | refuses over why left ↦ rw left (inr (refl, over_counted n s over))
    | evicts f over found left ↦
        rw left
          (make_space_enough fuel n (without s f) (omega (arith, h, length-without s f found)))
  ]
