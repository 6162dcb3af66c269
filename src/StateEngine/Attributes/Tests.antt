-- ===== src/StateEngine/Attributes/Tests.antt =====
-- The theorem on attribute merges at concrete updates.
use phlo_observe.Common.{String, none, List, ℕ, ◌≡◌, refl, [], ◌∷◌, arith, nat_order, fold}
use phlo_observe.Common.Dict
use phlo_observe.StateEngine.Attributes.{
  Gated, merge_attributes, merge_attributes_comm, field, gated_attr_merge,
}
use phlo_observe.StateEngine.Attributes.Batch.{merge_update, no_attributes, gated_attr_merge-batch}

abbrev empty : Gated ℕ ℕ
empty = record { attributes = []; attr_at = [] }

merge_attributes_comm_example :
    field "state"
      (merge_attributes (("state", 1) ∷ []) 5 (merge_attributes (("state", 2) ∷ []) 3 empty))
    ≡ field "state"
        (merge_attributes (("state", 2) ∷ []) 3 (merge_attributes (("state", 1) ∷ []) 5 empty))
unfolding Dict.get
merge_attributes_comm_example =
    merge_attributes_comm "state" (("state", 1) ∷ []) (("state", 2) ∷ []) 5 3 empty (refl, tt)
      (refl, tt) (λ p. omega (arith, p))

abbrev promoted_late : List (List (String × ℕ) × ℕ)
promoted_late = ((("state", 2) ∷ []), 5) ∷ ((("state", 1) ∷ []), 3) ∷ []

gated_attr_merge-batch_example :
    field "state" (
      gated_attr_merge none
        (fold merge_update no_attributes promoted_late).attributes
        (fold merge_update no_attributes promoted_late).attr_at
        empty)
    ≡ field "state" (fold merge_update empty promoted_late)
unfolding Dict.get
gated_attr_merge-batch_example =
    gated_attr_merge-batch "state" promoted_late empty ((refl, tt), ((refl, tt), tt))
