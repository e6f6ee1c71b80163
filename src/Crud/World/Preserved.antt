-- ===== src/Crud/World/Preserved.antt =====
-- Rules for a part of the world that an action leaves as it is, whichever operation fails.
use flowlite.Base.{◌≡◌, refl, ◌∙◌, Bool, true, false, List, [], ◌∷◌, if◌then◌else◌}
use flowlite.Crud.World.{
  Error, constraint_failed, attempt_next, Db, World, Action, Result, ok, err, and_then, ◌>>=◌,
  operation, query, execute, insert,
}

abbrev pub Preserves : {A X : Type 0} → (World → X) → Action A → Type 0
Preserves part m = (w : World) → part (m w).1 ≡ part w

and_then-Preserves :
    {A B X : Type 0} (part : World → X) (x : Result A × World) (f : A → Action B)
    → ((a : A) → Preserves part (f a))
    → part (and_then x f).1 ≡ part x.1
and_then-Preserves part (ok a, w) f next = next a w
and_then-Preserves part (err e, w) f next = refl

pub bind-Preserves :
    {A B X : Type 0} (part : World → X) (m : Action A) (f : A → Action B)
    → Preserves part m
    → ((a : A) → Preserves part (f a))
    → Preserves part (m >>= f)
bind-Preserves part m f first next w = and_then-Preserves part (m w) f next ∙ first w

pub if-Preserves :
    {A X : Type 0} (part : World → X) (b : Bool) (m n : Action A)
    → Preserves part m
    → Preserves part n
    → Preserves part (if b then m else n)
if-Preserves part true m n h k = h
if-Preserves part false m n h k = k

either : {Y : Type 0} (P : Y → Type 0) (b : Bool) (x y : Y) → P x → P y → P (if b then x else y)
either P true x y p q = p
either P false x y p q = q

-- What comes after the first action, with what it answered.
pub bind-cases :
    {A B : Type 0} (Q : Result B × World → Type 0) (m : Action A) (f : A → Action B) (w : World)
    → ((a : A) (v : World) → m w ≡ (ok a, v) → Q (f a v))
    → ((v : World) (e : Error) → m w ≡ (err e, v) → Q (err e, v))
    → Q ((m >>= f) w)
bind-cases {A = A} {B = B} Q m f w good bad = by_result (m w) good bad
  where
    by_result :
        (x : Result A × World)
        → ((a : A) (v : World) → x ≡ (ok a, v) → Q (f a v))
        → ((v : World) (e : Error) → x ≡ (err e, v) → Q (err e, v))
        → Q (and_then x f)
    by_result (ok a, v) good bad = good a v refl
    by_result (err e, v) good bad = bad v e refl

-- A part that does not tell which operations fail.
abbrev pub IsBlind : {X : Type 0} → (World → X) → Type 0
IsBlind part = (w : World) (faults : List Bool) → part (record w { faults = faults }) ≡ part w

module _ {X : Type 0} (part : World → X) (blind : IsBlind part) where
  next-Preserves : (fs : List Bool) (w : World) → part (attempt_next fs w).1 ≡ part w
  next-Preserves [] w = refl
  next-Preserves (true ∷ fs) w = blind w fs
  next-Preserves (false ∷ fs) w = blind w fs

  pub operation-Preserves : Preserves part operation
  unfolding operation
  operation-Preserves w = next-Preserves w.faults w

  pub query-Preserves : {A : Type 0} (f : Db → A) → Preserves part (query f)
  unfolding query
  query-Preserves f =
      bind-Preserves part operation (λ _ w. (ok (f w.db), w)) operation-Preserves (λ _ w. refl)

  module _ (g : Db → Db) (same : (w : World) → part (record w { db = g w.db }) ≡ part w) where
    pub execute-Preserves : Preserves part (execute g)
    unfolding execute
    execute-Preserves =
        bind-Preserves part operation (λ _ w. (ok tt, record w { db = g w.db })) operation-Preserves
          (λ _. same)

    pub insert-Preserves : (allowed : Db → Bool) → Preserves part (insert allowed g)
    unfolding insert
    insert-Preserves allowed =
        bind-Preserves part operation
          (λ _ w.
            if allowed w.db then (ok tt, record w { db = g w.db }) else (err constraint_failed, w))
          operation-Preserves
          (λ _ w.
            either (λ (x : Result Unit × World). part x.1 ≡ part w) (allowed w.db)
              (ok tt, record w { db = g w.db }) (err constraint_failed, w) (same w) refl)
