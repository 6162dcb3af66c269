-- ===== src/Runtime/Spool/Space.antt =====
-- `Spool._evict_oldest` of spool.py: the choice of the file to unlink.
use phlo_observe.Common.{
  ◌+◌, ◌≤◌, ◌≡◌, sym, ap, ◌∙◌, ◌≢◌, ◌⊎◌, inl, inr, Bool, true, false, ◌||◌, subst, String, none,
  some, List, [], ◌∷◌, arith, eq_iff, All, Bool-cases, str_eq, length, str_order,
}
use phlo_observe.Runtime.Spool.{
  Segment, Spool, files_size, select, oldest_of, is_candidate, is_sealed, victim, unlink,
}

-- Does the list have a file of this name?
unfoldable pub has : String → List Segment → Bool
has name [] = false
has name (f ∷ fs) = str_eq f.name name || has name fs

oldest_cases :
    (f : Segment) (fs : List Segment)
    → (oldest_of (f ∷ fs) ≡ some f) ⊎ (oldest_of (f ∷ fs) ≡ oldest_of fs)
unfolding oldest_of
oldest_cases f fs = ground arith

has_own : (f : Segment) (fs : List Segment) → has f.name (f ∷ fs) ≡ true
unfolding has
has_own f fs = ground (arith, eq_iff f.name f.name)

has-oldest : (fs : List Segment) (g : Segment) → oldest_of fs ≡ some g → has g.name fs ≡ true
unfolding has oldest_of
has-oldest [] g h = cc
has-oldest (f ∷ fs) g h = elim (oldest_cases f fs) [
  | inl own ↦
      (let same : f ≡ g = ground arith in
        subst (λ x. has x.name (f ∷ fs) ≡ true) same (has_own f fs))
  | inr later ↦ ground (arith, has-oldest fs g (sym later ∙ h))
]

module _ (test : Segment → Bool) where
  has-select :
      (name : String) (fs : List Segment) → has name (select test fs) ≡ true → has name fs ≡ true
  unfolding has select
  has-select name [] h = h
  has-select name (f ∷ fs) h = ground (arith, has-select name fs)

  select_in :
      (f : Segment) (fs : List Segment) → test f ≡ true → select test (f ∷ fs) ≡ f ∷ select test fs
  unfolding select
  select_in f fs h = rw h

  select_out :
      (f : Segment) (fs : List Segment) → test f ≡ false → select test (f ∷ fs) ≡ select test fs
  unfolding select
  select_out f fs h = rw h

  oldest-select :
      (fs : List Segment) (g : Segment) → oldest_of (select test fs) ≡ some g → test g ≡ true
  unfolding select oldest_of
  oldest-select [] g h = cc
  oldest-select (f ∷ fs) g h = elim (Bool-cases (test f)) [
    | inr out ↦ oldest-select fs g (sym (ap oldest_of (select_out f fs out)) ∙ h)
    | inl kept ↦
        let at : oldest_of (f ∷ select test fs) ≡ some g =
          sym (ap oldest_of (select_in f fs kept)) ∙ h in
        elim (oldest_cases f (select test fs)) [
          | inl own ↦ (let same : f ≡ g = ground arith in subst (λ x. test x ≡ true) same kept)
          | inr later ↦ oldest-select fs g (sym later ∙ at)
        ]
  ]

  -- Where none is left to choose, every file fails the test.
  pub oldest_none :
      (fs : List Segment) → oldest_of (select test fs) ≡ none → All (λ f. test f ≡ false) fs
  unfolding select oldest_of
  oldest_none [] h = tt
  oldest_none (f ∷ fs) h = elim (Bool-cases (test f)) [
    | inr out ↦ (out, oldest_none fs (sym (ap oldest_of (select_out f fs out)) ∙ h))
    | inl kept ↦ absurd (
        ground
          (arith, sym (ap oldest_of (select_in f fs kept)) ∙ h, oldest_cases f (select test fs)))
  ]

pub length-unlink :
    (name : String) (fs : List Segment)
    → has name fs ≡ true
    → length (unlink name fs) + 1 ≡ length fs
unfolding has unlink
length-unlink name [] h = cc
length-unlink name (f ∷ fs) h = ground (arith, length-unlink name fs)

pub size-unlink : (name : String) (fs : List Segment) → files_size (unlink name fs) ≤ files_size fs
unfolding files_size unlink
size-unlink name [] = omega arith
size-unlink name (f ∷ fs) = ground (arith, size-unlink name fs)

pub has-unlink :
    (name other : String) (fs : List Segment)
    → name ≢ other
    → has other fs ≡ true
    → has other (unlink name fs) ≡ true
unfolding has unlink
has-unlink name other [] apart h = h
has-unlink name other (f ∷ fs) apart h =
    ground (arith, has-unlink name other fs apart, eq_iff f.name name, eq_iff f.name other)

pub victim_cases :
    (s : Spool)
    → ((victim s ≡ none) × (oldest_of (select (is_sealed s) s.files) ≡ none))
      ⊎ ((f : Segment) × (victim s ≡ some f)
          × (oldest_of (select (is_candidate s) s.files) ≡ some f))
      ⊎ ((f : Segment) × (victim s ≡ some f) × (oldest_of (select (is_sealed s) s.files) ≡ some f))
unfolding victim
victim_cases s = ground arith

candidate_sealed : (s : Spool) (f : Segment) → is_candidate s f ≡ true → is_sealed s f ≡ true
unfolding is_candidate is_sealed
candidate_sealed s f h = ground arith

-- A victim is one of the files, and not an active one.
pub victim-sealed :
    (s : Spool) (f : Segment)
    → victim s ≡ some f
    → (has f.name s.files ≡ true) × (is_sealed s f ≡ true)
victim-sealed s f h = elim (victim_cases s) [
  | inl (no_victim, rest) ↦ cc
  | inr (inl (g, found, chosen)) ↦
      let same : g ≡ f = ground arith in
      subst (λ x. (has x.name s.files ≡ true) × (is_sealed s x ≡ true)) same
        (
          has-select (is_candidate s) g.name s.files
              (has-oldest (select (is_candidate s) s.files) g chosen),
          candidate_sealed s g (oldest-select (is_candidate s) s.files g chosen),
        )
  | inr (inr (g, found, chosen)) ↦
      let same : g ≡ f = ground arith in
      subst (λ x. (has x.name s.files ≡ true) × (is_sealed s x ≡ true)) same
        (
          has-select (is_sealed s) g.name s.files
              (has-oldest (select (is_sealed s) s.files) g chosen),
          oldest-select (is_sealed s) s.files g chosen,
        )
]
