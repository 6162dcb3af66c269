-- ===== src/Runtime/Worker/Evict.antt =====
-- `_evict_oldest_event` of backends.py: what leaves the queue.
use phlo_observe.Common.{
  ◌+◌, ◌≡◌, refl, inl, inr, true, false, Option, none, some, List, [], ◌∷◌, ◌++◌, arith, All, take,
  length, length-append, ◌<◌,
}
use phlo_observe.Runtime.Canonical.{CanonicalEvent, is_critical}
use phlo_observe.Runtime.Worker.{Item, event, find_victim, take_at, evict, evict_scan_limit}
use phlo_observe.Runtime.Worker.Scan.{IsPassedOver, IsControl, scan_afresh}

take_at-split :
    (front : List Item) (x : Item) (back : List Item)
    → take_at (length front) (front ++ x ∷ back) ≡ (some x, front ++ back)
unfolding take_at
take_at-split [] x back = refl
take_at-split (y ∷ front) x back = rw (take_at-split front x back)

-- What one eviction may do to the queue.
pub data Evicted (items : List Item) : Option CanonicalEvent → List Item → Type 0 where
  -- the scanned part holds sentinels alone, and nothing leaves
  none_found : All IsControl (take evict_scan_limit items) → Evicted items none items
  -- the oldest event that is not critical leaves; what stays keeps its order
  oldest_ordinary :
      (front : List Item) (e : CanonicalEvent) (back : List Item)
      → items ≡ front ++ event e ∷ back
      → length front < evict_scan_limit
      → All IsPassedOver front
      → is_critical e.delivery ≡ false
      → Evicted items (some e) (front ++ back)
  -- the scanned part holds no other event: the oldest critical one leaves
  oldest_critical :
      (front : List Item) (e : CanonicalEvent) (back : List Item)
      → items ≡ front ++ event e ∷ back
      → All IsControl front
      → All IsPassedOver (take evict_scan_limit items)
      → is_critical e.delivery ≡ true
      → Evicted items (some e) (front ++ back)

evict-none :
    (items : List Item)
    → find_victim evict_scan_limit 0 none items ≡ none
    → evict items ≡ (none, items)
unfolding evict
evict-none items found = ground arith

evict_at :
    (items front : List Item) (e : CanonicalEvent) (back : List Item)
    → items ≡ front ++ event e ∷ back
    → find_victim evict_scan_limit 0 none items ≡ some (0 + length front)
    → evict items ≡ (some e, front ++ back)
unfolding evict
evict_at items front e back splits found = ground (arith, take_at-split front (event e) back)

-- An eviction takes the oldest event of the scanned part that is not critical, a critical one only
-- if there is none, never a sentinel, and leaves all else in its order.
pub evict-Evicted : (items : List Item) → Evicted items (evict items).0 (evict items).1
evict-Evicted items = elim (scan_afresh evict_scan_limit 0 items) [
  | inl (controls, found) ↦ rw (evict-none items found) (none_found controls)
  | inr (inl (p, found)) ↦
      rw (evict_at items p.front p.victim p.back p.splits found)
        (oldest_ordinary p.front p.victim p.back p.splits p.near p.skipped p.ordinary)
  | inr (inr (l, found)) ↦
      rw (evict_at items l.front l.victim l.back l.splits found)
        (oldest_critical l.front l.victim l.back l.splits l.sentinels l.passed l.critical_victim)
]

length-split :
    (items front : List Item) (x : Item) (back : List Item)
    → items ≡ front ++ x ∷ back
    → length (front ++ back) + 1 ≡ length items
length-split items front x back h =
    rw h (omega (arith, length-append front back, length-append front (x ∷ back)))

shorter :
    {items rest : List Item} {found : Option CanonicalEvent} {e : CanonicalEvent}
    → Evicted items found rest
    → found ≡ some e
    → length rest + 1 ≡ length items
shorter (none_found c) h = cc
shorter (oldest_ordinary front e back splits n s o) h = length-split _ front (event e) back splits
shorter (oldest_critical front e back splits s p c) h = length-split _ front (event e) back splits

-- An eviction that finds an event shortens the queue by one.
pub length-evict :
    (items : List Item) {e : CanonicalEvent}
    → (evict items).0 ≡ some e
    → length (evict items).1 + 1 ≡ length items
length-evict items h = shorter (evict-Evicted items) h
