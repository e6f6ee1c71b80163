-- ===== src/Retention/Budget.antt =====
-- How many job runs a pass of the retention service selects.
use flowlite.Base.{
  ℕ, ◌-◌, ◌≤◌, ◌<◌, min, String, Bool, true, false, not, Option, none, some, List, [], ◌∷◌, ◌++◌,
  ◌≡◌, refl, subst, ◌%◌, map, filter, length, take, length-take, length-append, u32, ◌==◌,
  nat_Column, if◌then◌else◌, Bool-cases, inl, inr, arith,
}
use flowlite.Crud.JobRun
use flowlite.Crud.JobRun.{JobRun, by_id}
use flowlite.Crud.World.{World, ok, ◌>>=◌, pure, operation}
use flowlite.Crud.World.Inversion.{>>=-eq-ok, query-eq-ok, pure-eq-ok}
use flowlite.Crud.Statements.{
  select_job, select_job_runs, count_job_runs, select_pending_notifications,
}
use flowlite.Crud.Multistatements.RetentionCandidates.{
  SelectDeletableSort, newest_first, oldest_first, count_finished_job_runs,
  select_job_ids_with_finished_job_runs, select_deletable_job_runs, select_window,
  finished_job_runs_filter, at_most, or_zero, owes,
}
use flowlite.Retention.{
  RetentionConfig, remaining_budget, select_candidates_of, select_each, select_per_job_candidates,
  select_overflow, select_global_overflow_candidates, select, is_new, keep_runs_of,
}

length-filter : (p : ℕ → Bool) (xs : List ℕ) → length (filter p xs) ≤ length xs
length-filter p [] = omega arith
length-filter p (x ∷ xs) =
    let ih = length-filter p xs in
    elim (Bool-cases (p x)) [ inl e ↦ rw e (omega (arith, ih)) | inr e ↦ rw e (omega (arith, ih)) ]

length-ids : (xs : List JobRun) → length (map (λ r. r.id) xs) ≡ length xs
length-ids [] = refl
length-ids (x ∷ xs) = omega (arith, length-ids xs)

-- A read with a limit.
select_job_runs-length :
    (job_id : Option String) (m : ℕ) (offset : Option ℕ) (w : World) {rows : List JobRun}
    {v : World}
    → select_job_runs (finished_job_runs_filter job_id) (some by_id) (some m) offset w
      ≡ (ok rows, v)
    → length rows ≤ m
unfolding select_job_runs JobRun.select_job_runs
select_job_runs-length job_id m offset w e =
    let (taken, same) = query-eq-ok _ w e in
    let short : (xs : List JobRun) → length (take m xs) ≤ m =
      λ xs. omega (arith, length-take m xs) in
    rw taken (short _)

select_window-length :
    (job_id : Option String) (sort : Option SelectDeletableSort) (m : ℕ) (offset : Option ℕ)
    (w : World) {rows : List JobRun} {v : World}
    → select_window job_id sort (some m) offset w ≡ (ok rows, v)
    → length rows ≤ m
unfolding select_window
select_window-length job_id none m offset w e = select_job_runs-length job_id m offset w e
select_window-length job_id (some oldest_first) m offset w e =
    select_job_runs-length job_id m offset w e
select_window-length job_id (some newest_first) m offset w e =
    let (matched, u, counted, read) =
      >>=-eq-ok (count_job_runs (finished_job_runs_filter job_id)) _ w e in
    let short = select_job_runs-length job_id (min m (matched - or_zero offset)) none u read in
    omega (arith, short)

select_deletable-length :
    (job_id : Option String) (sort : Option SelectDeletableSort) (m : ℕ) (offset : Option ℕ)
    (w : World) {ids : List ℕ} {v : World}
    → select_deletable_job_runs job_id sort (some m) offset w ≡ (ok ids, v)
    → length ids ≤ m
unfolding select_deletable_job_runs
select_deletable-length job_id sort m offset w e =
    let (window, u, windowed, rest) = >>=-eq-ok (select_window job_id sort (some m) offset) _ w e in
    let (pending, u', asked, last) = >>=-eq-ok select_pending_notifications _ u rest in
    let all = map (λ r. r.id) window in
    let (result, end) = pure-eq-ok (filter (λ id. not (owes pending id)) all) u' last in
    rw⁻¹ result (
      omega (
        arith,
        length-filter (λ id. not (owes pending id)) all,
        length-ids window,
        select_window-length job_id sort m offset w windowed,
      ))

module _ (config : RetentionConfig) (budget : ℕ) (bounded : 1 ≤ budget)
    (fits : budget < 4_294_967_296) where
  budget_left : (n : ℕ) → n ≤ budget → remaining_budget budget (u32 n) ≡ some (budget - n)
  unfolding remaining_budget
  budget_left n h =
      let some_budget : (budget == 0) ≡ false = ground (arith, bounded) in
      let small : n % 4_294_967_296 ≡ n = omega (arith, h, fits) in rw (some_budget, small) refl

  candidates-length :
      (n : ℕ) (job_id : String) (w : World) {ids : List ℕ} {v : World}
      → n ≤ budget
      → select_candidates_of config budget (u32 n) job_id w ≡ (ok ids, v)
      → length ids ≤ budget - n
  unfolding select_candidates_of
  candidates-length n job_id w {ids} {v} h e =
      let (job, u, found, rest) = >>=-eq-ok (select_job job_id) _ w e in
      by_keep (keep_runs_of config job == 0) (keep_runs_of config job) u rest
    where
      by_keep :
          (b : Bool) (keep : ℕ) (u : World)
          → (if b
                then pure []
                else select_deletable_job_runs
                    (some job_id)
                    (some newest_first)
                    (remaining_budget budget (u32 n))
                    (some keep))
              u
            ≡ (ok ids, v)
          → length ids ≤ budget - n
      by_keep true keep u e = let (result, end) = pure-eq-ok [] u e in rw⁻¹ result (omega arith)
      by_keep false keep u e =
          select_deletable-length (some job_id) (some newest_first) (budget - n) (some keep) u (
            subst
              (λ limit.
                select_deletable_job_runs (some job_id) (some newest_first) limit (some keep) u
                ≡ (ok ids, v))
              (budget_left n h) e)

  select_each-length :
      (job_ids : List String) (ids : List ℕ) (w : World) {result : List ℕ} {v : World}
      → length ids ≤ budget
      → select_each config budget job_ids ids w ≡ (ok result, v)
      → length result ≤ budget
  unfolding select_each
  select_each-length [] ids w h e = let (same, end) = pure-eq-ok ids w e in rw⁻¹ same h
  select_each-length (job_id ∷ job_ids) ids w h e =
      let (more, u, first, rest) =
        >>=-eq-ok (select_candidates_of config budget (u32 (length ids)) job_id) _ w e in
      let added = candidates-length (length ids) job_id w h first in
      select_each-length job_ids (ids ++ more) u (omega (arith, h, added, length-append ids more))
        rest

  overflow-length :
      (overflow : ℕ) (ids : List ℕ) (w : World) {more : List ℕ} {v : World}
      → length ids ≤ budget
      → select_overflow config budget overflow ids w ≡ (ok more, v)
      → length more ≤ budget - length ids
  unfolding select_overflow
  overflow-length overflow ids w {more} {v} h e = by_overflow (overflow == 0) w e
    where
      left : ℕ
      left = budget - length ids

      by_overflow :
          (b : Bool) (w : World)
          → (if b
                then pure []
                else (select_deletable_job_runs none
                      (some oldest_first)
                      (some (at_most (remaining_budget budget (u32 (length ids))) overflow))
                      none
                    >>= λ candidates. pure (filter (is_new config ids) candidates)))
              w
            ≡ (ok more, v)
          → length more ≤ budget - length ids
      by_overflow true w e = let (same, end) = pure-eq-ok [] w e in rw⁻¹ same (omega arith)
      by_overflow false w e =
          let m = at_most (remaining_budget budget (u32 (length ids))) overflow in
          let small : m ≤ budget - length ids = rw (budget_left (length ids) h) (omega arith) in
          let (candidates, u, found, rest) =
            >>=-eq-ok (select_deletable_job_runs none (some oldest_first) (some m) none) _ w e in
          let (same, end) = pure-eq-ok (filter (is_new config ids) candidates) u rest in
          rw⁻¹ same (
            omega (
              arith,
              small,
              length-filter (is_new config ids) candidates,
              select_deletable-length none (some oldest_first) m none w found,
            ))

  global-length :
      (ids : List ℕ) (w : World) {more : List ℕ} {v : World}
      → length ids ≤ budget
      → select_global_overflow_candidates config budget ids w ≡ (ok more, v)
      → length more ≤ budget - length ids
  unfolding select_global_overflow_candidates
  global-length ids w {more} {v} h e = by_total (config.keep_runs_total == 0) w e
    where
      by_total :
          (b : Bool) (w : World)
          → (if b
                then pure []
                else (count_finished_job_runs >>= λ finished.
                    select_overflow config budget (finished - config.keep_runs_total) ids))
              w
            ≡ (ok more, v)
          → length more ≤ budget - length ids
      by_total true w e = let (same, end) = pure-eq-ok [] w e in rw⁻¹ same (omega arith)
      by_total false w e =
          let (finished, u, counted, rest) = >>=-eq-ok count_finished_job_runs _ w e in
          overflow-length (finished - config.keep_runs_total) ids u h rest

-- Where a pass of the retention service may delete a number of runs that is not 0, in 32 bits, and its
-- select answers, it answers no more runs than that, whatever the jobs keep and the total is.
pub select-IsWithinBudget :
    (config : RetentionConfig) (w : World) {ids : List ℕ} {v : World}
    → 1 ≤ config.max_deletes_per_pass
    → config.max_deletes_per_pass < 4_294_967_296
    → select config w ≡ (ok ids, v)
    → length ids ≤ config.max_deletes_per_pass
unfolding select select_per_job_candidates
select-IsWithinBudget config w bounded fits e =
    let budget = config.max_deletes_per_pass in
    let (got, u, connected, rest) = >>=-eq-ok operation _ w e in
    let (per_job, u1, first, rest1) =
      >>=-eq-ok (select_per_job_candidates config budget) _ u rest in
    let (job_ids, u2, listed, each) = >>=-eq-ok select_job_ids_with_finished_job_runs _ u first in
    let (global, u3, second, last) =
      >>=-eq-ok (select_global_overflow_candidates config budget per_job) _ u1 rest1 in
    let (same, end) = pure-eq-ok (per_job ++ global) u3 last in
    let within = select_each-length config budget bounded fits job_ids [] u2 (omega arith) each in
    let more = global-length config budget bounded fits per_job u1 within second in
    rw⁻¹ same (omega (arith, within, more, length-append per_job global))
