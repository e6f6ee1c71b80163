-- ===== src/Seeding/Graph.antt =====
-- What an answer of the walk says of the graph: a cycle is one, and no cycle means that there is none.
use flowlite.Base.{
  ℕ, zero, suc, ◌≡◌, refl, sym, ap, ◌∙◌, subst, String, inl, inr, some, List, [], ◌∷◌, ◌++◌, ◌==◌,
  string_Column, All, In, All-In, arith, Bool-cases,
}
use flowlite.Seeding.{
  from_position, Walked, cycle, clear, stuck, walk_each, remember, walk_task_dependencies,
}
use flowlite.Seeding.Walk.{contains→In, walk-cases, walk_each-cases}

-- A task all of whose dependencies, and theirs in turn, come to an end.
pub data Grounded (depends_on : String → List String) : String → Type 0 where
  grounded :
      {id : String}
      → ((dependency : String) → In dependency (depends_on id) → Grounded depends_on dependency)
      → Grounded depends_on id

module _ (depends_on : String → List String) where
  -- Each task of the list depends on the one behind it.
  abbrev pub Linked : List String → Type 0
  Linked [] = Unit
  Linked (id ∷ []) = Unit
  Linked (id ∷ next ∷ ids) = In next (depends_on id) × Linked (next ∷ ids)

  abbrev pub IsCycle : List String → Type 0
  IsCycle ids = (id : String) × (middle : List String) × (ids ≡ id ∷ middle ++ id ∷ []) × Linked ids

  Linked-append :
      (path : List String) (id next : String)
      → Linked (path ++ id ∷ [])
      → In next (depends_on id)
      → Linked ((path ++ id ∷ []) ++ next ∷ [])
  Linked-append [] id next h m = (m, tt)
  Linked-append (first ∷ []) id next h m = (h.0, (m, tt))
  Linked-append (first ∷ second ∷ path) id next h m =
      (h.0, Linked-append (second ∷ path) id next h.1 m)

  Linked-tail : (id : String) (ids : List String) → Linked (id ∷ ids) → Linked ids
  Linked-tail id [] h = tt
  Linked-tail id (next ∷ ids) h = h.1

  -- From the first position of an id on the path, the path goes on from that id.
  from_position-some :
      (id : String) (path : List String) {ids : List String}
      → from_position id path ≡ some ids
      → Linked (path ++ id ∷ [])
      → (middle : List String) × (ids ≡ id ∷ middle) × Linked (ids ++ id ∷ [])
  unfolding from_position
  from_position-some id [] e h = cc
  from_position-some id (other ∷ path) {ids} e h = elim (Bool-cases (other == id)) [
    | inl same ↦
        let found : other ∷ path ≡ ids = ground arith in
        let first = (string_Column.equals_iff other id).0 same in
        (path, sym found ∙ ap (λ x. x ∷ path) first, subst (λ x. Linked (x ++ id ∷ [])) found h)
    | inr off ↦
        let rest : from_position id path ≡ some ids = ground arith in
        from_position-some id path rest (Linked-tail other (path ++ id ∷ []) h)
  ]

  remember-cycle :
      (id : String) (walked : Walked) {ids : List String}
      → remember id walked ≡ cycle ids
      → walked ≡ cycle ids
  remember-cycle id (cycle ids) e = e
  remember-cycle id (clear ids) e = cc
  remember-cycle id stuck e = cc

  remember-clear :
      (id : String) (walked : Walked) {known : List String}
      → remember id walked ≡ clear known
      → (before : List String) × (walked ≡ clear before) × (known ≡ id ∷ before)
  remember-clear id (cycle ids) e = cc
  remember-clear id (clear ids) e = (ids, refl, cc)
  remember-clear id stuck e = cc

  pub walk_each-IsCycle :
      (walk : List String → String → Walked) (ids acyclic : List String) {found : List String}
      → ((acyclic : List String) (id : String)
          → In id ids
          → walk acyclic id ≡ cycle found
          → IsCycle found)
      → walk_each walk acyclic ids ≡ cycle found
      → IsCycle found
  unfolding walk_each
  walk_each-IsCycle walk [] acyclic h e = cc
  walk_each-IsCycle walk (id ∷ ids) acyclic h e = elim (walk_each-cases walk acyclic id ids) [
    | inl (other, first, same) ↦ h acyclic id (inl refl) (first ∙ sym same ∙ e)
    | inr (inl (known, _, same)) ↦
        walk_each-IsCycle walk ids known (λ a i m. h a i (inr m)) (sym same ∙ e)
    | inr (inr (_, same)) ↦ cc
  ]

  pub walk-IsCycle :
      (fuel : ℕ) (path acyclic : List String) (id : String) (whole : List String)
      → Linked (path ++ id ∷ [])
      → walk_task_dependencies fuel depends_on path acyclic id ≡ cycle whole
      → IsCycle whole
  unfolding walk_task_dependencies
  walk-IsCycle zero path acyclic id whole h e = cc
  walk-IsCycle (suc fuel) path acyclic id whole h e =
      elim (walk-cases fuel depends_on path acyclic id) [
        | inl (ids, at, same) ↦
            let (middle, first, linked) = from_position-some id path at h in
            let found : ids ++ id ∷ [] ≡ whole = cc (sym same ∙ e) in
            (id, middle, sym found ∙ ap (λ x. x ++ id ∷ []) first, subst Linked found linked)
        | inr (inl (_, same)) ↦ cc
        | inr (inr (_, same)) ↦
            walk_each-IsCycle (walk_task_dependencies fuel depends_on (path ++ id ∷ []))
              (depends_on id) acyclic
              (λ a next m.
                walk-IsCycle fuel (path ++ id ∷ []) a next whole (Linked-append path id next h m))
              (remember-cycle id _ (sym same ∙ e))
      ]

  pub walk_each-Grounded :
      (walk : List String → String → Walked)
      → ((acyclic : List String) (id : String) (known : List String)
          → All (Grounded depends_on) acyclic
          → walk acyclic id ≡ clear known
          → All (Grounded depends_on) known × Grounded depends_on id)
      → (ids acyclic : List String) (known : List String) → All (Grounded depends_on) acyclic
      → walk_each walk acyclic ids ≡ clear known
      → All (Grounded depends_on) known × All (Grounded depends_on) ids
  unfolding walk_each
  walk_each-Grounded walk h [] acyclic known g e = (subst (All (Grounded depends_on)) (cc e) g, tt)
  walk_each-Grounded walk h (id ∷ ids) acyclic known g e =
      elim (walk_each-cases walk acyclic id ids) [
        | inl (other, _, same) ↦ cc
        | inr (inl (middle, first, same)) ↦
            let (before, here) = h acyclic id middle g first in
            let (after, others) =
              walk_each-Grounded walk h ids middle known before (sym same ∙ e) in
            (after, (here, others))
        | inr (inr (_, same)) ↦ cc
      ]

  pub walk-Grounded :
      (fuel : ℕ) (path acyclic : List String) (id : String) (known : List String)
      → All (Grounded depends_on) acyclic
      → walk_task_dependencies fuel depends_on path acyclic id ≡ clear known
      → All (Grounded depends_on) known × Grounded depends_on id
  unfolding walk_task_dependencies
  walk-Grounded zero path acyclic id known g e = cc
  walk-Grounded (suc fuel) path acyclic id known g e =
      elim (walk-cases fuel depends_on path acyclic id) [
        | inl (ids, _, same) ↦ cc
        | inr (inl (member, same)) ↦
            let all : All (Grounded depends_on) known =
              subst (All (Grounded depends_on)) (cc (sym same ∙ e)) g in
            (all, All-In (Grounded depends_on) acyclic g (contains→In acyclic id member))
        | inr (inr (_, same)) ↦
            let (before, clear_before, all) = remember-clear id _ (sym same ∙ e) in
            let (others, mine) =
              walk_each-Grounded (walk_task_dependencies fuel depends_on (path ++ id ∷ []))
                (walk-Grounded fuel (path ++ id ∷ [])) (depends_on id) acyclic before g
                clear_before in
            let here =
              grounded {id = id} (λ d m. All-In (Grounded depends_on) (depends_on id) mine m) in
            (subst (All (Grounded depends_on)) (sym all) (here, others), here)
      ]
