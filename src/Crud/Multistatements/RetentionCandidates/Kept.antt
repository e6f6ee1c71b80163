-- ===== src/Crud/Multistatements/RetentionCandidates/Kept.antt =====
-- Which runs select_deletable_job_runs keeps.
use flowlite.Base.{
  ℕ, zero, suc, ◌-◌, ◌≤◌, min, String, Bool, true, false, not, ◌&&◌, ◌||◌, Option, none, some, List,
  [], ◌∷◌, ◌++◌, ◌≡◌, ◌≢◌, refl, sym, ap, ◌∙◌, subst, inl, inr, map, filter, any, length, take,
  drop, take-append-drop, length-drop, ◌==◌, nat_Column, string_Column, arith, if◌then◌else◌, All,
  All-imp, any-false, Bool-cases,
}
use flowlite.Crud.JobRun
use flowlite.Crud.JobRun.{
  JobRun, JobRunStatus, JobRunStatus_Column, all_job_run_statuses, job_run_filter,
}
use flowlite.Crud.World.{Db, World, JobRunNotification, is_pending, pending, ok}
use flowlite.Crud.World.Inversion.{>>=-eq-ok, query-eq-ok, pure-eq-ok}
use flowlite.Crud.Statements.{
  attempt_ids, select_job_runs, count_job_runs, select_pending_notifications,
}
use flowlite.Crud.Multistatements.RetentionCandidates.{
  newest_first, finished_job_runs_filter, at_most, select_window, owes, select_deletable_job_runs,
  finished_runs,
}

-- Whether a run has ended, and is one of the job, if one is named.
abbrev pub has_ended : Option String → JobRun → Bool
has_ended none r = JobRun.is_finished r.status
has_ended (some job_id) r = (r.job_id == job_id) && JobRun.is_finished r.status

-- Whether a notification of the run is still to be sent.
abbrev pub is_owing : Db → ℕ → Bool
is_owing db id = any (λ n. is_pending n && (n.job_run_id == id)) db.job_run_notifications

-- The runs that have ended are, in their order, an oldest part and a newest one, which has as many runs
-- as are to be kept, or all that there are; the ids are those of the oldest part that have no pending
-- notification.
pub record KeepsNewest (keep : ℕ) (job_id : Option String) (db : Db) (ids : List ℕ) : Type 0 where
  pub oldest : List JobRun
  pub newest : List JobRun
  pub split : filter (has_ended job_id) db.job_runs ≡ oldest ++ newest
  pub kept : min keep (length (filter (has_ended job_id) db.job_runs)) ≤ length newest
  pub chosen : ids ≡ filter (λ id. not (is_owing db id)) (map (λ r. r.id) oldest)
  pub ended : All (λ r. JobRun.is_finished r.status ≡ true) oldest
  pub paid :
      All (λ id. All (λ n. n.job_run_id ≡ id → n.status ≢ pending) db.job_run_notifications) ids

ended_in :
    (s : JobRunStatus)
    → any (λ t. t == s) (filter JobRun.is_finished all_job_run_statuses) ≡ JobRun.is_finished s
unfolding JobRun.is_finished JobRun.JobRunStatus-discrete
ended_in JobRun.scheduled = refl
ended_in JobRun.queued = refl
ended_in JobRun.running = refl
ended_in JobRun.succeeded = refl
ended_in JobRun.failed = refl
ended_in JobRun.skipped = refl
ended_in JobRun.aborted = refl
ended_in JobRun.timed_out = refl
ended_in JobRun.deleted = refl
ended_in JobRun.invalid = refl

trim : (b c : Bool) → (b && true && c && true && true && true && true) ≡ (b && c)
trim b c = ground arith

job_run_filter-eq-has_ended :
    (children : ℕ → List ℕ) (job_id : Option String) (r : JobRun)
    → job_run_filter children (finished_job_runs_filter job_id) r ≡ has_ended job_id r
unfolding job_run_filter finished_job_runs_filter
job_run_filter-eq-has_ended children none r =
    rw (ended_in r.status) (trim true (JobRun.is_finished r.status))
job_run_filter-eq-has_ended children (some job_id) r =
    rw (ended_in r.status) (trim (r.job_id == job_id) (JobRun.is_finished r.status))

filter_same :
    {A : Type 0} (p q : A → Bool) (xs : List A) → ((x : A) → p x ≡ q x) → filter p xs ≡ filter q xs
filter_same p q [] h = refl
filter_same p q (x ∷ xs) h =
    rw (h x) (ap (λ rest. if q x then x ∷ rest else rest) (filter_same p q xs h))

All-filter : {A : Type 0} (p : A → Bool) (xs : List A) → All (λ x. p x ≡ true) (filter p xs)
All-filter p [] = tt
All-filter p (x ∷ xs) = elim (Bool-cases (p x)) [
  | inl kept ↦ rw kept (kept, All-filter p xs)
  | inr dropped ↦ rw dropped (All-filter p xs)
]

finished_runs-eq-has_ended :
    (job_id : Option String) (db : Db)
    → finished_runs job_id db ≡ filter (has_ended job_id) db.job_runs
finished_runs-eq-has_ended job_id db =
    filter_same _ (has_ended job_id) db.job_runs
      (job_run_filter-eq-has_ended (attempt_ids db) job_id)

has_ended-is_finished :
    (job_id : Option String) (r : JobRun)
    → has_ended job_id r ≡ true
    → JobRun.is_finished r.status ≡ true
has_ended-is_finished none r h = h
has_ended-is_finished (some job_id) r h = ground arith

owes-eq-is_owing :
    (notifications : List JobRunNotification) (id : ℕ)
    → owes (filter is_pending notifications) id
      ≡ any (λ n. is_pending n && (n.job_run_id == id)) notifications
owes-eq-is_owing [] id = refl
owes-eq-is_owing (n ∷ ns) id = elim (Bool-cases (is_pending n)) [
  | inl kept ↦ rw kept (ap (λ b. (n.job_run_id == id) || b) (owes-eq-is_owing ns id))
  | inr dropped ↦ rw dropped (owes-eq-is_owing ns id)
]

not_pending :
    (n : JobRunNotification) (id : ℕ)
    → (is_pending n && (n.job_run_id == id)) ≡ false
    → n.job_run_id ≡ id
    → n.status ≢ pending
not_pending n id h e p =
    let owed : is_pending n ≡ true = rw p refl in
    absurd (ground (arith, owed, (nat_Column.equals_iff n.job_run_id id).1 e))

select_window-eq-take :
    (job_id : Option String) (limit : Option ℕ) (keep : ℕ) (w : World) {window : List JobRun}
    {v : World}
    → select_window job_id (some newest_first) limit (some keep) w ≡ (ok window, v)
    → (window
        ≡ take
            (at_most limit (length (finished_runs job_id w.db) - keep))
            (finished_runs job_id w.db))
      × (v.db ≡ w.db)
unfolding select_window count_job_runs select_job_runs JobRun.count_job_runs JobRun.select_job_runs
select_window-eq-take job_id limit keep w e =
    let (matched, u, counted, read) =
      >>=-eq-ok (count_job_runs (finished_job_runs_filter job_id)) _ w e in
    let (count, same) = query-eq-ok _ w counted in
    let (taken, same') = query-eq-ok _ u read in
    (
      taken
          ∙ ap (λ (d : Db). take (at_most limit (matched - keep)) (finished_runs job_id d)) same
          ∙ ap (λ m. take (at_most limit (m - keep)) (finished_runs job_id w.db)) count,
      same' ∙ same,
    )

-- Where `select_deletable_job_runs` ranks the newest first and answers, whatever its limit, the runs of the
-- job whose status is_finished, or those of all jobs where none is named, are in their order an oldest
-- part and a newest one with as many as its offset says are kept, or with all where there are
-- fewer. What it answers are the ids of those of the oldest part for which no notification has the run's
-- id and is pending.
pub select_deletable_job_runs-KeepsNewest :
    (job_id : Option String) (limit : Option ℕ) (keep : ℕ) (w : World) {ids : List ℕ} {v : World}
    → select_deletable_job_runs job_id (some newest_first) limit (some keep) w ≡ (ok ids, v)
    → KeepsNewest keep job_id w.db ids
unfolding select_deletable_job_runs select_pending_notifications
select_deletable_job_runs-KeepsNewest job_id limit keep w {ids} e =
    let all = finished_runs job_id w.db in
    let n = at_most limit (length all - keep) in
    let same_runs = finished_runs-eq-has_ended job_id w.db in
    let (window, w1, windowed, rest) =
      >>=-eq-ok (select_window job_id (some newest_first) limit (some keep)) _ w e in
    let (taken, same) = select_window-eq-take job_id limit keep w windowed in
    let (waiting, w2, asked, last) = >>=-eq-ok select_pending_notifications _ w1 rest in
    let (owing, same') = query-eq-ok _ w1 asked in
    let (result, end) =
      pure-eq-ok (filter (λ id. not (owes waiting id)) (map (λ r. r.id) window)) w2 last in
    let split = sym same_runs ∙ sym (take-append-drop n all) in
    let chosen =
      sym result
      ∙ ap (λ l. filter (λ id. not (owes l id)) (map (λ r. r.id) window))
          (owing ∙ ap (λ (d : Db). filter is_pending d.job_run_notifications) same)
      ∙ filter_same (λ id. not (owes (filter is_pending w.db.job_run_notifications) id))
          (λ id. not (is_owing w.db id)) (map (λ r. r.id) window)
          (λ id. ap not (owes-eq-is_owing w.db.job_run_notifications id))
      ∙ ap (λ l. filter (λ id. not (is_owing w.db id)) (map (λ r. r.id) l)) taken in
    record {
      oldest = take n all;
      newest = drop n all;
      split = split;
      kept =
          subst (λ rows. min keep (length rows) ≤ length (drop n all)) same_runs
            (bound limit (length all) (length-drop n all));
      chosen = chosen;
      ended =
          All-take (λ r. JobRun.is_finished r.status ≡ true) n all
            (subst (λ rows. All (λ r. JobRun.is_finished r.status ≡ true) rows) (sym same_runs)
              (All-imp (has_ended-is_finished job_id) _
                (All-filter (has_ended job_id) w.db.job_runs)));
      paid =
          subst
            (λ l.
              All
                (λ id. All (λ n. n.job_run_id ≡ id → n.status ≢ pending) w.db.job_run_notifications)
                l)
            (sym chosen)
            (All-imp
              (λ id h.
                All-imp (λ n. not_pending n id) _
                  (any-false _ w.db.job_run_notifications (ground arith)))
              _ (All-filter (λ id. not (is_owing w.db id)) (map (λ r. r.id) (take n all))));
    }
  where
    bound :
        (limit : Option ℕ) (size : ℕ) {rest : ℕ}
        → rest ≡ size - at_most limit (size - keep)
        → min keep size ≤ rest
    bound none size e = omega (arith, e)
    bound (some limit) size e = omega (arith, e)

    All-take : {A : Type 0} (P : A → Type 0) (n : ℕ) (xs : List A) → All P xs → All P (take n xs)
    All-take P zero xs h = tt
    All-take P (suc n) [] h = tt
    All-take P (suc n) (x ∷ xs) h = (h.0, All-take P n xs h.1)
