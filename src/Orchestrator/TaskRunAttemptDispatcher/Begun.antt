-- ===== src/Orchestrator/TaskRunAttemptDispatcher/Begun.antt =====
-- Which attempts the table says were begun, and what updates make of that.
use flowlite.Base.{
  ℕ, ◌≡◌, ◌≢◌, refl, sym, ◌∙◌, ap, Bool, true, false, ◌&&◌, none, some, List, [], ◌∷◌, any, All,
  All-imp, ◌==◌, nat_Column, arith,
}
use flowlite.Crud.TaskRunAttempt.{TaskRunAttempt, AttemptInput, update_task_run_attempts}
use flowlite.Crud.World.Frames.{Seen}
use flowlite.Crud.Statements.{is_some}

-- The table has a started instant for the attempt.
abbrev pub is_begun : ℕ → List TaskRunAttempt → Bool
is_begun id rows = any (λ r. r.id == id && is_some r.started_at) rows

abbrev pub IsDistinct : List ℕ → Type 0
IsDistinct [] = Unit
IsDistinct (i ∷ is) = All (λ j. j ≢ i) is × IsDistinct is

-- No attempt has been started for twice, and the table has a started instant for each that was.
abbrev pub IsSpawnedOnce : Seen → Type 0
IsSpawnedOnce (d, ids) = IsDistinct ids × All (λ id. is_begun id d.task_run_attempts ≡ true) ids

-- The attempt is in the table, and was read with the started instant that it has there.
abbrev pub IsRead : TaskRunAttempt → List TaskRunAttempt → Type 0
IsRead attempt rows =
    (any (λ r. r.id == attempt.id) rows ≡ true)
    × All (λ r. r.id ≡ attempt.id → r.started_at ≡ attempt.started_at) rows

abbrev pub update_at : ℕ → AttemptInput → List TaskRunAttempt → List TaskRunAttempt
update_at id i =
    update_task_run_attempts (record { id = some id; task_run_id = none; status = none }) i

module _ (id : ℕ) (i : AttemptInput) where
  others_begun :
      (j : ℕ)
      → j ≢ id
      → (rows : List TaskRunAttempt) → is_begun j (update_at id i rows) ≡ is_begun j rows
  unfolding update_task_run_attempts
  others_begun j ne [] = refl
  others_begun j ne (r ∷ rows) = ground (arith, others_begun j ne rows)

  pub now_begun :
      (at : ℕ)
      → i.started_at ≡ some (some at)
      → (rows : List TaskRunAttempt) → any (λ r. r.id == id) rows ≡ true
      → is_begun id (update_at id i rows) ≡ true
  unfolding update_task_run_attempts
  now_begun at e [] h = cc
  now_begun at e (r ∷ rows) h = ground (arith, now_begun at e rows)

  still_begun :
      i.started_at ≡ none
      → (j : ℕ) (rows : List TaskRunAttempt) → is_begun j (update_at id i rows) ≡ is_begun j rows
  unfolding update_task_run_attempts
  still_begun e j [] = refl
  still_begun e j (r ∷ rows) = ground (arith, still_begun e j rows)

pub not_begun :
    (attempt : TaskRunAttempt) (rows : List TaskRunAttempt)
    → attempt.started_at ≡ none
    → All (λ r. r.id ≡ attempt.id → r.started_at ≡ attempt.started_at) rows
    → is_begun attempt.id rows ≡ false
not_begun attempt [] e h = refl
not_begun attempt (r ∷ rows) e h = ground (arith, not_begun attempt rows e h.1, h.0)

pub still_begun_each :
    (i : AttemptInput)
    → i.started_at ≡ none
    → (id : ℕ) (rows : List TaskRunAttempt) (ids : List ℕ) → All (λ j. is_begun j rows ≡ true) ids
    → All (λ j. is_begun j (update_at id i rows) ≡ true) ids
still_begun_each i e id rows ids = All-imp (λ j h. still_begun id i e j rows ∙ h) ids

pub begun_others :
    (i : AttemptInput) (id : ℕ) (rows : List TaskRunAttempt) (ids : List ℕ)
    → All (λ j. j ≢ id) ids
    → All (λ j. is_begun j rows ≡ true) ids
    → All (λ j. is_begun j (update_at id i rows) ≡ true) ids
begun_others i id rows [] ne h = tt
begun_others i id rows (j ∷ ids) ne h =
    (others_begun id i j ne.0 rows ∙ h.0, begun_others i id rows ids ne.1 h.1)

pub not_spawned :
    (id : ℕ) (rows : List TaskRunAttempt) (ids : List ℕ)
    → is_begun id rows ≡ false
    → All (λ j. is_begun j rows ≡ true) ids
    → All (λ j. j ≢ id) ids
not_spawned id rows ids e =
    All-imp (λ j h same. absurd (cc (sym h ∙ ap (λ k. is_begun k rows) same ∙ e))) ids
