-- ===== src/Runtime/Spool/Kept.antt =====
-- `Spool.replay` of spool.py loses nothing.
use phlo_observe.Common.{
  ℕ, ◌≡◌, refl, sym, ap, ◌⊎◌, inl, inr, String, Bool, true, false, Option, none, some, List, [],
  ◌∷◌, str_eq, arith, ◌∙◌, if◌then◌else◌, All, Any, Bool-cases,
}
use phlo_observe.Runtime.Spool.{Suffix, corrupt, dead, Line, Segment, unlink}
use phlo_observe.Runtime.Spool.Replay.{
  Verdict, taken, permanent, transient, Replay, content_of, any_broken, file_of, with_suffix,
  quarantine, answered, offered, replay_file, within, replay_each, replay,
}

-- A file with these lines is in the directory.
abbrev pub HasLines : List Line → List Segment → Type 0
HasLines lines files = Any (λ g. g.lines ≡ lines) files

HasLines-with_suffix :
    (lines : List Line) (name : String) (suffix : Suffix) (files : List Segment)
    → HasLines lines files
    → HasLines lines (with_suffix name suffix files)
unfolding with_suffix
HasLines-with_suffix lines name suffix [] h = absurd h
HasLines-with_suffix lines name suffix (f ∷ fs) h = elim (Bool-cases (str_eq f.name name)) [
  | inl hit ↦ rw hit (elim h [ inl here ↦ inl here | inr there ↦ inr there ])
  | inr miss ↦ rw miss (elim h [
    | inl here ↦ inl here
    | inr there ↦ inr (HasLines-with_suffix lines name suffix fs there)
  ])
]

HasLines-unlink :
    (lines : List Line) (name : String) (f : Segment) (files : List Segment)
    → file_of name files ≡ some f
    → HasLines lines files
    → HasLines lines (unlink name files) ⊎ (f.lines ≡ lines)
unfolding unlink file_of
HasLines-unlink lines name f [] found h = absurd h
HasLines-unlink lines name f (g ∷ gs) found h = elim (Bool-cases (str_eq g.name name)) [
  | inl hit ↦
      let same_one : g ≡ f = ground (arith, found, hit) in
      rw hit (elim h [
        | inl here ↦ inr (ap (λ x. x.lines) (sym same_one) ∙ here)
        | inr there ↦ inl there
      ])
  | inr miss ↦ rw miss (elim h [
    | inl here ↦ inl (inl here)
    | inr there ↦ elim (HasLines-unlink lines name f gs (rw miss at found) there) [
      | inl stays ↦ inl (inr stays)
      | inr gone ↦ inr gone
    ]
  ])
]

module _ {D : Type 0} (emit_raw : D → List Line → D × Verdict)
    (reads renames unlinks : String → Bool) where
  -- A file with these lines is in the directory, or the drain has accepted their content.
  abbrev pub Survives : List Line → Replay D → Type 0
  Survives lines r =
      HasLines lines r.files
      ⊎ Any (λ batch. (f : Segment) × ((f.lines ≡ lines) × (batch ≡ content_of f))) r.accepted

  quarantine-Survives :
      (lines : List Line) (name : String) (suffix : Suffix) (r : Replay D)
      → Survives lines r
      → Survives lines (quarantine emit_raw reads renames unlinks name suffix r)
  unfolding quarantine
  quarantine-Survives lines name suffix r (inr sent) = inr sent
  quarantine-Survives lines name suffix r (inl stays) = elim (Bool-cases (renames name)) [
    | inl granted ↦ rw granted (inl (HasLines-with_suffix lines name suffix r.files stays))
    | inr denied ↦ rw denied (inl stays)
  ]

  answered-Survives :
      (lines : List Line) (name : String) (f : Segment) (r : Replay D) (verdict : Verdict)
      → file_of name r.files ≡ some f
      → Survives lines r
      → Survives lines (answered emit_raw reads renames unlinks name f r verdict).1
  unfolding answered
  answered-Survives lines name f r taken found (inr sent) = inr (inr sent)
  answered-Survives lines name f r taken found (inl stays) = elim (Bool-cases (unlinks name)) [
    | inr denied ↦ rw denied (inl stays)
    | inl granted ↦ rw granted (elim (HasLines-unlink lines name f r.files found stays) [
      | inl left ↦ inl left
      | inr its_own ↦ inr (inl (f, (its_own, refl)))
    ])
  ]
  answered-Survives lines name f r permanent found h = quarantine-Survives lines name dead r h
  answered-Survives lines name f r transient found h = h

  replay_file-Survives :
      (lines : List Line) (name : String) (r : Replay D) (found : Option Segment)
      → file_of name r.files ≡ found
      → Survives lines r
      → Survives lines (replay_file emit_raw reads renames unlinks name r found).1
  unfolding replay_file offered
  replay_file-Survives lines name r none found h = h
  replay_file-Survives lines name r (some f) found h = elim (Bool-cases (reads name)) [
    | inr denied ↦ rw denied h
    | inl granted ↦ rw granted (elim (Bool-cases (any_broken (content_of f))) [
      | inl broken ↦ rw broken (quarantine-Survives lines name corrupt r h)
      | inr sound ↦ rw sound (
          answered-Survives lines name f (record r { drain = (emit_raw r.drain (content_of f)).0 })
            (emit_raw r.drain (content_of f)).1 found h)
    ])
  ]

  Survives-if :
      (lines : List Line) (b : Bool) (x y : Replay D)
      → Survives lines x
      → Survives lines y
      → Survives lines (if b then x else y)
  Survives-if lines true x y h k = h
  Survives-if lines false x y h k = k

  replay_each-Survives :
      (lines : List Line) (max_events : Option ℕ) (segments : List Segment) (r : Replay D)
      → Survives lines r
      → Survives lines (replay_each emit_raw reads renames unlinks max_events segments r)
  unfolding replay_each
  replay_each-Survives lines max_events [] r h = h
  replay_each-Survives lines max_events (f ∷ fs) r h =
      let one = replay_file-Survives lines f.name r (file_of f.name r.files) refl h in
      Survives-if lines (within emit_raw reads renames unlinks max_events r.replayed) _ r
        (Survives-if lines
          (replay_file emit_raw reads renames unlinks f.name r (file_of f.name r.files)).0 _ _
          (replay_each-Survives lines max_events fs _ one) one)
        h

  part-Survives :
      (max_events : Option ℕ) (files part : List Segment) (drain : D)
      → ((lines : List Line) → HasLines lines part → HasLines lines files)
      → All
          (λ f. Survives f.lines (replay emit_raw reads renames unlinks max_events files drain))
          part
  unfolding replay
  part-Survives max_events files [] drain within_all = tt
  part-Survives max_events files (f ∷ fs) drain within_all = (
    replay_each-Survives f.lines max_events _ _ (inl (within_all f.lines (inl refl))),
    part-Survives max_events files fs drain (λ lines h. within_all lines (inr h)),
  )

  -- A replay loses no segment: each file of the directory is afterwards still there with its lines,
  -- perhaps under a quarantine suffix, or the drain has accepted its lines that are not blank.
  pub replay-Survives :
      (max_events : Option ℕ) (files : List Segment) (drain : D)
      → All
          (λ f. Survives f.lines (replay emit_raw reads renames unlinks max_events files drain))
          files
  replay-Survives max_events files drain = part-Survives max_events files files drain (λ lines h. h)
