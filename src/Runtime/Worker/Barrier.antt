-- ===== src/Runtime/Worker/Barrier.antt =====
-- The admission barrier of backends.py: every sequence that is pending belongs to an event in the
-- queue or in a thread's batch, so that nothing is pending once these are empty.
use phlo_observe.Common.{
  ℕ, suc, ◌+◌, ◌≡◌, ◌≢◌, refl, ap, ◌∙◌, subst, ◌⊎◌, inl, inr, Bool, true, false, Option, some, List,
  [], ◌∷◌, ◌++◌, arith, length, Bool-cases, if◌then◌else◌, ◌==◌,
}
use phlo_observe.Runtime.Canonical.{CanonicalEvent}
use phlo_observe.Runtime.Worker.{
  Worker, Item, event, flush_request, stop, evict, remove_number, tail_of, head_of,
}
use phlo_observe.Runtime.Worker.Evict.{
  Evicted, none_found, oldest_ordinary, oldest_critical, evict-Evicted,
}

-- The events of an identity in the queue.
unfoldable pub count_ident : ℕ → List Item → ℕ
count_ident i [] = 0
count_ident i (event e ∷ items) =
    if i == e.ident then suc (count_ident i items) else count_ident i items
count_ident i (flush_request r d ∷ items) = count_ident i items
count_ident i (stop ∷ items) = count_ident i items

abbrev pub IsIn : {A : Type 0} → A → List A → Type 0
IsIn n [] = ⊥
IsIn n (m ∷ ms) = (m ≡ n) ⊎ IsIn n ms

-- A place for each pending sequence: with an event of the queue, or with a thread.
abbrev pub Placed : (ℕ → List ℕ) → (ℕ → List (Option ℕ)) → ℕ → Type 0
Placed sequences held n = ((i : ℕ) × IsIn n (sequences i)) ⊎ ((k : ℕ) × IsIn (some n) (held k))

module _ {S : Type 0} where
  -- Every queued event has a sequence and every sequence an event; a pending sequence has a place.
  pub record Tracked (w : Worker S) (held : ℕ → List (Option ℕ)) : Type 0 where
    pub patient : w.telemetry_required ≡ false
    pub counted : (i : ℕ) → length (w.sequences i) ≡ count_ident i w.queue
    pub placed : (n : ℕ) → IsIn n w.pending_sequences → Placed w.sequences held n

pub count_ident-append :
    (i : ℕ) (xs ys : List Item) → count_ident i (xs ++ ys) ≡ count_ident i xs + count_ident i ys
unfolding count_ident
count_ident-append i [] ys = omega arith
count_ident-append i (event e ∷ xs) ys = ground (arith, count_ident-append i xs ys)
count_ident-append i (flush_request r d ∷ xs) ys = count_ident-append i xs ys
count_ident-append i (stop ∷ xs) ys = count_ident-append i xs ys

pub IsIn-append : {A : Type 0} (n : A) (xs ys : List A) → IsIn n xs → IsIn n (xs ++ ys)
IsIn-append n [] ys h = absurd h
IsIn-append n (x ∷ xs) ys (inl here) = inl here
IsIn-append n (x ∷ xs) ys (inr there) = inr (IsIn-append n xs ys there)

pub IsIn-last : {A : Type 0} (n : A) (xs : List A) → IsIn n (xs ++ n ∷ [])
IsIn-last n [] = inl refl
IsIn-last n (x ∷ xs) = inr (IsIn-last n xs)

pub IsIn-remove_number : (n s : ℕ) (l : List ℕ) → IsIn n (remove_number s l) → IsIn n l × (s ≢ n)
unfolding remove_number
IsIn-remove_number n s [] h = absurd h
IsIn-remove_number n s (m ∷ ms) h = elim (Bool-cases (s == m)) [
  | inl same ↦
      let both =
        IsIn-remove_number n s ms
          (subst (λ b. IsIn n (if b then remove_number s ms else m ∷ remove_number s ms)) same h) in
      (inr both.0, both.1)
  | inr apart ↦
      elim (subst (λ b. IsIn n (if b then remove_number s ms else m ∷ remove_number s ms)) apart
        h) [
          | inl here ↦ (inl here, λ e. ground (arith, apart, here, e))
          | inr there ↦ (let both = IsIn-remove_number n s ms there in (inr both.0, both.1))
        ]
]

-- The head of the list leaves.
pub IsIn-tail_of :
    (n : ℕ) (l : List ℕ) → ((s : ℕ) → head_of l ≡ some s → s ≢ n) → IsIn n l → IsIn n (tail_of l)
unfolding head_of tail_of
IsIn-tail_of n [] apart there = absurd there
IsIn-tail_of n (m ∷ ms) apart (inl here) = absurd (apart m refl here)
IsIn-tail_of n (m ∷ ms) apart (inr there) = there

pub length-tail_of : (l : List ℕ) (c : ℕ) → length l ≡ suc c → length (tail_of l) ≡ c
unfolding tail_of
length-tail_of [] c h = absurd (omega (arith, h))
length-tail_of (m ∷ ms) c h = omega (arith, h)

-- One of two lists, by a test.
pub IsIn-if :
    (n : ℕ) (b : Bool) (xs ys : List ℕ)
    → (b ≡ true → IsIn n xs)
    → (b ≡ false → IsIn n ys)
    → IsIn n (if b then xs else ys)
IsIn-if n true xs ys f g = f refl
IsIn-if n false xs ys f g = g refl

abbrev pub without_head : ℕ → (ℕ → List ℕ) → ℕ → List ℕ
without_head ident sequences = λ i. if i == ident then tail_of (sequences i) else sequences i

pub Placed-without_head :
    (ident n : ℕ) (sequences : ℕ → List ℕ) (held : ℕ → List (Option ℕ))
    → ((s : ℕ) → head_of (sequences ident) ≡ some s → s ≢ n)
    → Placed sequences held n
    → Placed (without_head ident sequences) held n
Placed-without_head ident n sequences held apart (inl (i, waits)) = inl (
  i,
  IsIn-if n (i == ident) (tail_of (sequences i)) (sequences i)
      (λ same.
        IsIn-tail_of n (sequences i)
          (subst (λ j. (s : ℕ) → head_of (sequences j) ≡ some s → s ≢ n) (ground (arith, same))
            apart)
          waits)
      (λ other. waits),
)
Placed-without_head ident n sequences held apart (inr taken) = inr taken

count_ident-split :
    (i : ℕ) (front back : List Item) (e : CanonicalEvent)
    → count_ident i (front ++ event e ∷ back) ≡ (
        if i == e.ident then suc (count_ident i (front ++ back)) else count_ident i (front ++ back))
unfolding count_ident
count_ident-split i front back e =
    ground (arith, count_ident-append i front (event e ∷ back), count_ident-append i front back)

count_left :
    (i : ℕ) (items : List Item) (found : Option CanonicalEvent) (rest : List Item)
    (e : CanonicalEvent)
    → Evicted items found rest
    → found ≡ some e
    → count_ident i items ≡ (if i == e.ident then suc (count_ident i rest) else count_ident i rest)
count_left i items found rest e (none_found c) h = absurd cc
count_left i items found rest e (oldest_ordinary front v back splits n s o) h =
    let same_one : v ≡ e = cc in
    ap (count_ident i) splits
    ∙ count_ident-split i front back v
    ∙ ap
        (λ x.
          if i == x.ident
          then suc (count_ident i (front ++ back))
          else count_ident i (front ++ back))
        same_one
count_left i items found rest e (oldest_critical front v back splits s p c) h =
    let same_one : v ≡ e = cc in
    ap (count_ident i) splits
    ∙ count_ident-split i front back v
    ∙ ap
        (λ x.
          if i == x.ident
          then suc (count_ident i (front ++ back))
          else count_ident i (front ++ back))
        same_one

pub count_ident-evict :
    (i : ℕ) (items : List Item) (e : CanonicalEvent)
    → (evict items).0 ≡ some e
    → count_ident i items ≡ (
        if i == e.ident then suc (count_ident i (evict items).1) else count_ident i (evict items).1)
count_ident-evict i items e h =
    count_left i items (evict items).0 (evict items).1 e (evict-Evicted items) h

-- The parts of the state that the barrier depends on are the same.
pub record Like {S : Type 0} (w w' : Worker S) : Type 0 where
  pub flag : w.telemetry_required ≡ w'.telemetry_required
  pub items : w.queue ≡ w'.queue
  pub lists : w.sequences ≡ w'.sequences
  pub numbers : w.pending_sequences ≡ w'.pending_sequences
