-- ===== src/StateEngine/Entities/Edges.antt =====
-- `edges_of` of state_engine.py and the ends of its edges.
use phlo_observe.Common.{
  ◌≡◌, refl, inl, inr, false, String, Option, none, some, List, [], ◌∷◌, ◌++◌, arith, All, str_eq,
  Option-cases,
}
use phlo_observe.Common.Dict
use phlo_observe.Common.Dict.{Dict}
use phlo_observe.StateEngine.Event.{Event}
use phlo_observe.StateEngine.Entities.{
  Edge, event_entities, edges_of, edges_among, target_edges, edge_between, present,
}

-- An identifier that the dict has in some role, and that is not empty.
abbrev pub IsEntity : Dict String → String → Type 0
IsEntity d eid = ((role : String) × (Dict.get role d ≡ some eid)) × (str_eq eid "" ≡ false)

abbrev pub Joins : Dict String → Edge → Type 0
Joins d edge = IsEntity d edge.from_entity × IsEntity d edge.to_entity

All-append {ℓ κ} :
    {A : Type ℓ} (P : A → Type κ) (xs ys : List A) → All P xs → All P ys → All P (xs ++ ys)
All-append P [] ys h k = k
All-append P (x ∷ xs) ys h k = (h.0, All-append P xs ys h.1 k)

present-IsEntity :
    (role : String) (d : Dict String) (eid : String) → present role d ≡ some eid → IsEntity d eid
present-IsEntity role d eid h = elim (Option-cases (Dict.get role d)) [
  | inl absent ↦ absurd (ground (arith, h, absent))
  | inr (found, at) ↦ ((role, ground (arith, h, at)), ground (arith, h, at))
]

between-Joins :
    (d : Dict String) (a b : Option String) (type : String)
    → ((x : String) → a ≡ some x → IsEntity d x)
    → ((x : String) → b ≡ some x → IsEntity d x)
    → All (Joins d) (edge_between a b type)
unfolding edge_between
between-Joins d none b type h k = tt
between-Joins d (some a) none type h k = tt
between-Joins d (some a) (some b) type h k = ((h a refl, k b refl), tt)

roles-Joins :
    (d : Dict String) (r s type : String)
    → All (Joins d) (edge_between (present r d) (present s d) type)
roles-Joins d r s type =
    between-Joins d (present r d) (present s d) type (present-IsEntity r d) (present-IsEntity s d)

targets-Joins :
    (d : Dict String) (type : String) (roles : List String)
    → All (Joins d) (target_edges d type roles)
unfolding target_edges
targets-Joins d type [] = tt
targets-Joins d type (role ∷ roles) =
    All-append (Joins d) (edge_between (present "run" d) (present role d) type)
      (target_edges d type roles) (roles-Joins d "run" role type) (targets-Joins d type roles)

among-Joins : (d : Dict String) (type : String) → All (Joins d) (edges_among d type)
unfolding edges_among
among-Joins d type =
    All-append (Joins d) (edge_between (present "service" d) (present "run" d) "executes") _
      (roles-Joins d "service" "run" "executes")
      (All-append (Joins d)
        (target_edges d type ("asset" ∷ "table" ∷ "iceberg" ∷ "model" ∷ "snapshot" ∷ [])) _
        (targets-Joins d type _)
        (All-append (Joins d) (edge_between (present "run" d) (present "branch" d) "writes_to") _
          (roles-Joins d "run" "branch" "writes_to")
          (All-append (Joins d) (edge_between (present "source" d) (present "asset" d) "produces") _
            (roles-Joins d "source" "asset" "produces")
            (roles-Joins d "run" "deployment" "deployed_as"))))

-- Every edge of an event joins two of its entities, whose identifiers are not empty: no edge has a
-- dangling end.
pub edges-Joins : (e : Event) → All (Joins (event_entities e)) (edges_of e)
unfolding edges_of
edges-Joins e = among-Joins (event_entities e) _
