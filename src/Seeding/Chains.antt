-- ===== src/Seeding/Chains.antt =====
-- Chains of dependencies: a cycle has no end, so none of its tasks is grounded.
use flowlite.Base.{subst, String, List, [], ◌∷◌, ◌++◌, string_Column, All, In, All-In}
use flowlite.JobYaml.{JobYamlTask}
use flowlite.Seeding.{depends_on_of}
use flowlite.Seeding.Graph.{Grounded, grounded, Linked, IsCycle}
use flowlite.Seeding.Declared.{ids_of, depends_on_of-In}

-- A chain of at least one dependency.
pub data Reaches (depends_on : String → List String) : String → String → Type 0 where
  step : {id last : String} → In last (depends_on id) → Reaches depends_on id last
  via :
      {id next last : String}
      → In next (depends_on id)
      → Reaches depends_on next last
      → Reaches depends_on id last

module _ (depends_on : String → List String) where
  Reaches-snoc :
      {id next last : String}
      → Reaches depends_on id next
      → In last (depends_on next)
      → Reaches depends_on id last
  Reaches-snoc (step m) n = via m (step n)
  Reaches-snoc (via m r) n = via m (Reaches-snoc r n)

  pub Grounded-Reaches : {id : String} → Grounded depends_on id → ¬ Reaches depends_on id id
  Grounded-Reaches {id} (grounded h) (step m) = Grounded-Reaches (h id m) (step m)
  Grounded-Reaches (grounded h) (via {next = next} m r) =
      Grounded-Reaches (h next m) (Reaches-snoc r m)

  Linked-Reaches :
      (id : String) (middle : List String) (last : String)
      → Linked depends_on (id ∷ middle ++ last ∷ [])
      → Reaches depends_on id last
  Linked-Reaches id [] last h = step h.0
  Linked-Reaches id (next ∷ middle) last h = via h.0 (Linked-Reaches next middle last h.1)

  -- A cycle starts at a task with dependencies.
  Linked-first :
      (id : String) (middle : List String) (last : String)
      → Linked depends_on (id ∷ middle ++ last ∷ [])
      → (next : String) × In next (depends_on id)
  Linked-first id [] last h = (last, h.0)
  Linked-first id (next ∷ middle) last h = (next, h.0)

pub IsCycle-refuted :
    (tasks : List JobYamlTask) (ids : List String)
    → All (Grounded (depends_on_of tasks)) (ids_of tasks)
    → ¬ IsCycle (depends_on_of tasks) ids
IsCycle-refuted tasks ids grounds (id, middle, e, h) =
    let linked = subst (Linked (depends_on_of tasks)) e h in
    let (next, m) = Linked-first (depends_on_of tasks) id middle id linked in
    Grounded-Reaches (depends_on_of tasks)
      (All-In _ (ids_of tasks) grounds (depends_on_of-In tasks id next m))
      (Linked-Reaches (depends_on_of tasks) id middle id linked)
