-- ===== src/StateEngine/Keys/Writers.antt =====
-- `_set_latest` of state_engine.py.
use phlo_observe.Common.{◌≡◌, refl, ◌≢◌, Option, none, some, arith, TotalOrder, less_asym}
use phlo_observe.StateEngine.Keys.{Latest, set_latest}

module _ {K A : Type 0} ⦃o : TotalOrder K⦄ where
  commute_at :
      (v w : A) (k j : K) (u : Option A) (at : Option K)
      → k ≢ j
      → set_latest (some v) k (set_latest (some w) j (record { value = u; at = at }))
        ≡ set_latest (some w) j (set_latest (some v) k (record { value = u; at = at }))
  unfolding set_latest
  commute_at v w k j u none h = ground (arith, less_asym k j, o.less_connex k j)
  commute_at v w k j u (some c) h = ground (
    arith,
    less_asym k j,
    o.less_connex k j,
    o.less_trans k j c,
    o.less_trans j k c,
    o.less_trans k c j,
    o.less_trans j c k,
    o.less_trans c j k,
    o.less_trans c k j,
    o.less_connex k c,
    o.less_connex j c,
  )

  -- Two writes by events at different positions give the same field in either order.
  pub set_latest_comm :
      (v w : Option A) (k j : K) (cell : Latest K A)
      → k ≢ j
      → set_latest v k (set_latest w j cell) ≡ set_latest w j (set_latest v k cell)
  unfolding set_latest
  set_latest_comm none none k j cell h = refl
  set_latest_comm none (some w) k j cell h = refl
  set_latest_comm (some v) none k j cell h = refl
  set_latest_comm (some v) (some w) k j cell h = commute_at v w k j cell.value cell.at h
