-- ===== src/Runtime/Worker/Scan.antt =====
-- `_evict_oldest_event` of backends.py: the scan of the queue.
use phlo_observe.Common.{
  ℕ, zero, suc, ◌+◌, ◌≡◌, refl, ap, ◌∙◌, ◌⊎◌, inl, inr, true, false, Option, none, some, List, [],
  ◌∷◌, ◌++◌, arith, All, take, length, Bool-cases, ◌<◌,
}
use phlo_observe.Runtime.Canonical.{CanonicalEvent, is_critical}
use phlo_observe.Runtime.Worker.{Item, event, flush_request, stop, find_victim}

-- An item that the scan does not prefer: a sentinel or a critical event.
abbrev pub IsPassedOver : Item → Type 0
IsPassedOver (event e) = is_critical e.delivery ≡ true
IsPassedOver _ = Unit

abbrev pub IsControl : Item → Type 0
IsControl (event e) = ⊥
IsControl _ = Unit

-- The first preferred event of the list, within the first `n` items.
pub record Preferred (n : ℕ) (items : List Item) : Type 0 where
  pub front : List Item
  pub victim : CanonicalEvent
  pub back : List Item
  pub splits : items ≡ front ++ event victim ∷ back
  pub near : length front < n
  pub skipped : All IsPassedOver front
  pub ordinary : is_critical victim.delivery ≡ false

after_head :
    (n : ℕ) (x : Item) (xs : List Item)
    → IsPassedOver x
    → Preferred n xs
    → Preferred (suc n) (x ∷ xs)
after_head n x xs h p = record {
  front = x ∷ p.front;
  victim = p.victim;
  back = p.back;
  splits = ap (◌∷◌ x) p.splits;
  near = omega (arith, p.near);
  skipped = (h, p.skipped);
  ordinary = p.ordinary;
}

here :
    (n : ℕ) (e : CanonicalEvent) (xs : List Item)
    → is_critical e.delivery ≡ false
    → Preferred (suc n) (event e ∷ xs)
here n e xs h = record {
  front = [];
  victim = e;
  back = xs;
  splits = refl;
  near = omega arith;
  skipped = tt;
  ordinary = h;
}

find_ordinary :
    (n i : ℕ) (c : Option ℕ) (e : CanonicalEvent) (items : List Item)
    → is_critical e.delivery ≡ false
    → find_victim (suc n) i c (event e ∷ items) ≡ some i
unfolding find_victim
find_ordinary n i c e items h = ground (arith, h)

find_second_critical :
    (n i c : ℕ) (e : CanonicalEvent) (items : List Item)
    → is_critical e.delivery ≡ true
    → find_victim (suc n) i (some c) (event e ∷ items) ≡ find_victim n (i + 1) (some c) items
unfolding find_victim
find_second_critical n i c e items h = ground (arith, h)

find_first_critical :
    (n i : ℕ) (e : CanonicalEvent) (items : List Item)
    → is_critical e.delivery ≡ true
    → find_victim (suc n) i none (event e ∷ items) ≡ find_victim n (i + 1) (some i) items
unfolding find_victim
find_first_critical n i e items h = ground (arith, h)

-- The scan with a critical event at hand: the first preferred event, or that one.
abbrev Scanned : ℕ → ℕ → ℕ → List Item → Type 0
Scanned c n i items =
    (All IsPassedOver (take n items) × (find_victim n i (some c) items ≡ some c))
    ⊎ ((p : Preferred n items) × (find_victim n i (some c) items ≡ some (i + length p.front)))

scan_control :
    (x : Item) (c n i : ℕ) (items : List Item)
    → IsPassedOver x
    → find_victim (suc n) i (some c) (x ∷ items) ≡ find_victim n (i + 1) (some c) items
    → Scanned c n (i + 1) items
    → Scanned c (suc n) i (x ∷ items)
unfolding after_head
scan_control x c n i items h step (inl (passed, found)) = inl ((h, passed), step ∙ found)
scan_control x c n i items h step (inr (p, found)) =
    inr (after_head n x items h p, step ∙ found ∙ ap some (omega arith))

scan_with : (c n i : ℕ) (items : List Item) → Scanned c n i items
unfolding find_victim here
scan_with c zero i items = inl (tt, refl)
scan_with c (suc n) i [] = inl (tt, refl)
scan_with c (suc n) i (event e ∷ items) = elim (Bool-cases (is_critical e.delivery)) [
  | inl crit ↦
      scan_control (event e) c n i items crit (find_second_critical n i c e items crit)
        (scan_with c n (i + 1) items)
  | inr plain ↦
      inr (here n e items plain, find_ordinary n i (some c) e items plain ∙ ap some (omega arith))
]
scan_with c (suc n) i (flush_request r drains ∷ items) =
    scan_control (flush_request r drains) c n i items tt refl (scan_with c n (i + 1) items)
scan_with c (suc n) i (stop ∷ items) =
    scan_control stop c n i items tt refl (scan_with c n (i + 1) items)

-- The last resort: the first critical event, when the scanned part holds no preferred one.
pub record LastResort (n : ℕ) (items : List Item) : Type 0 where
  pub front : List Item
  pub victim : CanonicalEvent
  pub back : List Item
  pub splits : items ≡ front ++ event victim ∷ back
  pub sentinels : All IsControl front
  pub passed : All IsPassedOver (take n items)
  pub critical_victim : is_critical victim.delivery ≡ true

abbrev pub ScannedAfresh : ℕ → ℕ → List Item → Type 0
ScannedAfresh n i items =
    (All IsControl (take n items) × (find_victim n i none items ≡ none))
    ⊎ ((p : Preferred n items) × (find_victim n i none items ≡ some (i + length p.front)))
    ⊎ ((l : LastResort n items) × (find_victim n i none items ≡ some (i + length l.front)))

later_resort :
    (n : ℕ) (x : Item) (xs : List Item)
    → IsControl x
    → IsPassedOver x
    → LastResort n xs
    → LastResort (suc n) (x ∷ xs)
later_resort n x xs c h l = record {
  front = x ∷ l.front;
  victim = l.victim;
  back = l.back;
  splits = ap (◌∷◌ x) l.splits;
  sentinels = (c, l.sentinels);
  passed = (h, l.passed);
  critical_victim = l.critical_victim;
}

afresh_control :
    (x : Item) (n i : ℕ) (items : List Item)
    → IsControl x
    → IsPassedOver x
    → find_victim (suc n) i none (x ∷ items) ≡ find_victim n (i + 1) none items
    → ScannedAfresh n (i + 1) items
    → ScannedAfresh (suc n) i (x ∷ items)
unfolding after_head later_resort
afresh_control x n i items c h step (inl (controls, found)) = inl ((c, controls), step ∙ found)
afresh_control x n i items c h step (inr (inl (p, found))) =
    inr (inl (after_head n x items h p, step ∙ found ∙ ap some (omega arith)))
afresh_control x n i items c h step (inr (inr (l, found))) =
    inr (inr (later_resort n x items c h l, step ∙ found ∙ ap some (omega arith)))

first_critical :
    (n i : ℕ) (e : CanonicalEvent) (items : List Item)
    → is_critical e.delivery ≡ true
    → Scanned i n (i + 1) items
    → ScannedAfresh (suc n) i (event e ∷ items)
unfolding after_head
first_critical n i e items crit (inl (passed, found)) = inr (
    inr (
      record {
        front = [];
        victim = e;
        back = items;
        splits = refl;
        sentinels = tt;
        passed = (crit, passed);
        critical_victim = crit;
      },
      find_first_critical n i e items crit ∙ found ∙ ap some (omega arith),
    ))
first_critical n i e items crit (inr (p, found)) = inr (
    inl (
      after_head n (event e) items crit p,
      find_first_critical n i e items crit ∙ found ∙ ap some (omega arith),
    ))

pub scan_afresh : (n i : ℕ) (items : List Item) → ScannedAfresh n i items
unfolding find_victim here
scan_afresh zero i items = inl (tt, refl)
scan_afresh (suc n) i [] = inl (tt, refl)
scan_afresh (suc n) i (event e ∷ items) = elim (Bool-cases (is_critical e.delivery)) [
  | inl crit ↦ first_critical n i e items crit (scan_with i n (i + 1) items)
  | inr plain ↦
      inr (inl (here n e items plain, find_ordinary n i none e items plain ∙ ap some (omega arith)))
]
scan_afresh (suc n) i (flush_request r drains ∷ items) =
    afresh_control (flush_request r drains) n i items tt tt refl (scan_afresh n (i + 1) items)
scan_afresh (suc n) i (stop ∷ items) =
    afresh_control stop n i items tt tt refl (scan_afresh n (i + 1) items)
