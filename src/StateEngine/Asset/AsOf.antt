-- ===== src/StateEngine/Asset/AsOf.antt =====
-- `materialized_before` of state_engine.py: the asset's history as of the event that asks.
use phlo_observe.Common.{
  ◌≡◌, refl, true, false, ◌&&◌, Option, none, some, List, [], ◌∷◌, arith, All, Any, Ascending,
  TotalOrder, Bool-cases, inl, inr, String,
}
use phlo_observe.StateEngine.Event.{Key, Time, key_order}
use phlo_observe.StateEngine.Asset.{AssetState, newest_before, materialized_before, moment_of}

module _ {A : Type 0} ⦃o : TotalOrder A⦄ (key : A) where
  -- No entry of the list stands above `k` and below the key.
  abbrev pub NothingBetween : A → List A → Type 0
  NothingBetween k l = All (λ x. (o.less x key && o.less k x) ≡ false) l

  pub record AsOfKey (l : List A) (k : A) : Type 0 where
    pub recorded : Any (λ x. k ≡ x) l
    pub precedes : o.less k key ≡ true
    pub newest_such : NothingBetween k l

  past_key :
      (k x : A) (xs : List A)
      → o.less x key ≡ false
      → All (λ y. o.less x y ≡ true) xs
      → NothingBetween k (x ∷ xs)
  past_key k x [] h all = (ground arith, tt)
  past_key k x (y ∷ ys) h all =
      let y_past : o.less y key ≡ false = ground (arith, o.less_trans x y key all.0) in
      let rest = past_key k x ys h all.1 in (rest.0, (ground arith, rest.1))

  newest_from :
      (b : A) (l : List A)
      → o.less b key ≡ true
      → Ascending (b ∷ l)
      → (k : A) × (newest_before key (some b) l ≡ some k) × AsOfKey (b ∷ l) k
  unfolding newest_before
  newest_from b [] h asc = (
    b,
    refl,
    record {
      recorded = inl refl;
      precedes = h;
      newest_such = (ground (arith, o.less_irrefl b), tt);
    },
  )
  newest_from b (x ∷ xs) h asc = elim (Bool-cases (o.less x key)) [
    | inl before ↦
        let (k, found, at) = newest_from x xs before asc.1 in
        (
          k,
          rw before found,
          record {
            recorded = inr at.recorded;
            precedes = at.precedes;
            newest_such =
                (ground (arith, at.newest_such.0, o.less_trans k b x, asc.0.0), at.newest_such);
          },
        )
    | inr past ↦ (
      b,
      rw past,
      record {
        recorded = inl refl;
        precedes = h;
        newest_such = (ground (arith, o.less_irrefl b), past_key b x xs past asc.1.0);
      },
    )
  ]

  -- Of no result, every entry is at or after the key.
  pub Found : List A → Option A → Type 0
  Found l none = All (λ x. o.less x key ≡ false) l
  Found l (some k) = AsOfKey l k

  rest_past :
      (x : A) (xs : List A)
      → o.less x key ≡ false
      → All (λ y. o.less x y ≡ true) xs
      → All (λ y. o.less y key ≡ false) (x ∷ xs)
  rest_past x [] h all = (h, tt)
  rest_past x (y ∷ ys) h all =
      let rest = rest_past x ys h all.1 in (h, (ground (arith, o.less_trans x y key all.0), rest.1))

  newest_before-Found : (l : List A) → Ascending l → Found l (newest_before key none l)
  unfolding newest_before Found
  newest_before-Found [] asc = tt
  newest_before-Found (x ∷ xs) asc = elim (Bool-cases (o.less x key)) [
    | inl before ↦ (let (k, found, at) = newest_from x xs before asc in rw (before, found) at)
    | inr past ↦ rw past (rest_past x xs past asc.0)
  ]

-- A reply of `materialized_before`, against the whole history.
pub FoundAt : Key → List Key → Option Time → Type 0
FoundAt key l none = All (λ x. key_order.less x key ≡ false) l
FoundAt key l (some t) = (id : String) × AsOfKey key l (t, id)

at_moment :
    (key : Key) (l : List Key) (r : Option Key) → Found key l r → FoundAt key l (moment_of r)
unfolding Found FoundAt
at_moment key l none found = found
at_moment key l (some (t, id)) found = (id, found)

-- Of an ascending history, a late event is shown the moment of the newest recorded materialization
-- strictly before its own key; it is shown none only if every recorded one is at or after that key.
pub materialized_before-FoundAt :
    (s : AssetState) (key : Key)
    → Ascending s.materialize_times
    → FoundAt key s.materialize_times (materialized_before s key)
unfolding materialized_before
materialized_before-FoundAt s key asc =
    at_moment key s.materialize_times (newest_before key none s.materialize_times)
      (newest_before-Found key s.materialize_times asc)
