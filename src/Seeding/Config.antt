-- ===== src/Seeding/Config.antt =====
-- src/crud/crud.rs: what a job asks of the configuration, its limits and its notifications.
use flowlite.Base.{
  ℕ, ◌≡◌, ◌≢◌, ◌↔◌, refl, String, Bool, true, false, ap, In, ◌⊎◌, inl, inr, Option, none, some,
  List, [], ◌∷◌, ◌++◌, head?, filter, ◌==◌, string_Column, if◌then◌else◌, or_else, or_else-eq-none,
  find_map, find_map-eq-none, All, All-imp, arith, Bool-cases,
}
use flowlite.JobYaml.{JobYaml, JobYamlTask, JobYamlNotify}
use flowlite.Crud.World.{NotificationChannel, email, slack, Recipients}
use flowlite.Orchestrator.TaskRunAttemptDispatcher.{AppConfig}

pub data ConfigRefusal : Type 0 where
  unknown_limit : String → ConfigRefusal
  missing_section : NotificationChannel → List String → ConfigRefusal

-- A channel that names nobody is left out.
abbrev pub unless_empty : NotificationChannel × List String → Recipients → Recipients
unless_empty (channel, []) rest = rest
unless_empty (channel, recipient ∷ recipients) rest = (channel, recipient ∷ recipients) ∷ rest

unfoldable pub job_notify_recipients : JobYamlNotify → Recipients
job_notify_recipients notify =
    unless_empty (email, notify.email) (unless_empty (slack, notify.slack) [])

-- Whether flowlite.toml has a section for the channel: [smtp] and [slack].
abbrev pub is_configured : (smtp slack_section : Bool) → NotificationChannel → Bool
is_configured smtp slack_section email = smtp
is_configured smtp slack_section slack = slack_section

abbrev pub check_section :
    (smtp slack_section : Bool) → NotificationChannel × List String → Option ConfigRefusal
check_section smtp slack_section (channel, recipients) =
    if is_configured smtp slack_section channel
    then none
    else some (missing_section channel recipients)

unfoldable pub validate_job_notifications :
    (smtp slack_section : Bool) → JobYaml → Option ConfigRefusal
unfolding job_notify_recipients
validate_job_notifications smtp slack_section job_yaml =
    find_map (check_section smtp slack_section)
      (job_notify_recipients job_yaml.on_failure ++ job_notify_recipients job_yaml.on_success)

-- `concurrency_limits.get(limit)`
abbrev pub limit_of : AppConfig → String → Option (String × ℕ)
limit_of config limit = head? (filter (λ l. l.0 == limit) config.concurrency_limits)

abbrev pub unless_known : String → Option (String × ℕ) → Option ConfigRefusal
unless_known limit none = some (unknown_limit limit)
unless_known limit (some _) = none

abbrev pub check_limit : AppConfig → String → Option ConfigRefusal
check_limit config limit = unless_known limit (limit_of config limit)

unfoldable pub validate_job_limits : AppConfig → JobYaml → Option ConfigRefusal
validate_job_limits config job_yaml = or_else (find_map (check_limit config) job_yaml.limits) (
    find_map (λ task_yaml. find_map (check_limit config) (JobYamlTask.limits task_yaml))
      job_yaml.tasks)

-- Nobody is named under a channel that has no section.
abbrev pub IsDeliverable : (smtp slack_section : Bool) → JobYamlNotify → Type 0
IsDeliverable smtp slack_section notify =
    ((notify.email ≡ []) ⊎ (smtp ≡ true)) × ((notify.slack ≡ []) ⊎ (slack_section ≡ true))

-- The configuration has an entry for the limit, whatever its number.
abbrev pub IsKnown : AppConfig → String → Type 0
IsKnown config limit = (slots : ℕ) × In (limit, slots) config.concurrency_limits

entry_iff :
    (limit : String) (entries : List (String × ℕ))
    → (head? (filter (λ l. l.0 == limit) entries) ≢ none)
      ↔ ((slots : ℕ) × In (limit, slots) entries)
entry_iff limit [] = (λ h. absurd (h refl), λ h. absurd h.1)
entry_iff limit ((name, slots) ∷ entries) = elim (Bool-cases (name == limit)) [
  | inl same ↦ (
    λ h. (slots, inl (ap (λ n. (n, slots)) ((string_Column.equals_iff name limit).0 same))),
    λ h. rw same (λ e. cc),
  )
  | inr other ↦
      let (to, from) = entry_iff limit entries in
      (
        λ h. let (n, m) = to (rw other at h) in (n, inr m),
        λ (n, m). rw other (from (n, later other m)),
      )
]
  where
    later :
        {n : ℕ}
        → (name == limit) ≡ false
        → In (limit, n) ((name, slots) ∷ entries)
        → In (limit, n) entries
    later e (inr m) = m
    later e (inl same) = absurd (
        ground
          (arith, e, (string_Column.equals_iff name limit).1 (ap (λ (p : String × ℕ). p.0) same)))

unless_known_iff :
    (limit : String) (found : Option (String × ℕ))
    → (unless_known limit found ≡ none) ↔ (found ≢ none)
unless_known_iff limit none = (λ h. cc, λ h. absurd (h refl))
unless_known_iff limit (some entry) = (λ h e. cc, λ h. refl)

check_limit_iff :
    (config : AppConfig) (limit : String) → (check_limit config limit ≡ none) ↔ IsKnown config limit
check_limit_iff config limit =
    let (there, missing) = unless_known_iff limit (limit_of config limit) in
    let (to, from) = entry_iff limit config.concurrency_limits in
    (λ h. to (there h), λ h. missing (from h))

check_limits_iff :
    (config : AppConfig) (limits : List String)
    → (find_map (check_limit config) limits ≡ none) ↔ All (IsKnown config) limits
check_limits_iff config limits =
    let (to, from) = find_map-eq-none (check_limit config) limits in
    (
      λ h. All-imp (λ limit. (check_limit_iff config limit).0) limits (to h),
      λ h. from (All-imp (λ limit. (check_limit_iff config limit).1) limits h),
    )

module _ (smtp slack_section : Bool) where
  Passes : NotificationChannel × List String → Type 0
  Passes entry = check_section smtp slack_section entry ≡ none

  -- A channel passes where it names nobody, or has its section.
  unless_empty_iff :
      (channel : NotificationChannel) (recipients : List String) (rest : Recipients)
      → All Passes (unless_empty (channel, recipients) rest) ↔ (
          ((recipients ≡ []) ⊎ (is_configured smtp slack_section channel ≡ true)) × All Passes rest)
  unfolding Passes
  unless_empty_iff channel [] rest = (λ h. (inl refl, h), λ h. h.1)
  unless_empty_iff channel (recipient ∷ recipients) rest =
      elim (Bool-cases (is_configured smtp slack_section channel)) [
        | inl there ↦ (λ h. (inr there, h.1), λ h. (ground arith, h.1))
        | inr absent ↦
            (λ h. absurd (ground arith), λ h. absurd (elim h.0 [ inl e ↦ cc | inr e ↦ cc ]))
      ]

  block_iff :
      (notify : JobYamlNotify)
      → All Passes (job_notify_recipients notify) ↔ IsDeliverable smtp slack_section notify
  unfolding job_notify_recipients
  block_iff notify =
      let (to, from) =
        unless_empty_iff email notify.email (unless_empty (slack, notify.slack) []) in
      let (next, back) = unless_empty_iff slack notify.slack [] in
      (λ h. ((to h).0, (next (to h).1).0), λ h. from (h.0, back (h.1, tt)))

All-append_iff :
    {A : Type 0} (P : A → Type 0) (xs ys : List A) → All P (xs ++ ys) ↔ (All P xs × All P ys)
All-append_iff P [] ys = (λ h. (tt, h), λ h. h.1)
All-append_iff P (x ∷ xs) ys =
    let (to, from) = All-append_iff P xs ys in
    (λ h. ((h.0, (to h.1).0), (to h.1).1), λ h. (h.0.0, from (h.0.1, h.1)))

validate_job_notifications_iff :
    (smtp slack_section : Bool) (job_yaml : JobYaml)
    → (validate_job_notifications smtp slack_section job_yaml ≡ none) ↔ (
        IsDeliverable smtp slack_section job_yaml.on_failure
        × IsDeliverable smtp slack_section job_yaml.on_success)
unfolding validate_job_notifications Passes
validate_job_notifications_iff smtp slack_section job_yaml =
    let failure = job_notify_recipients job_yaml.on_failure in
    let success = job_notify_recipients job_yaml.on_success in
    let (to, from) = find_map-eq-none (check_section smtp slack_section) (failure ++ success) in
    let (both, back) = All-append_iff (Passes smtp slack_section) failure success in
    let (first, first_back) = block_iff smtp slack_section job_yaml.on_failure in
    let (second, second_back) = block_iff smtp slack_section job_yaml.on_success in
    (
      λ h. (first (both (to h)).0, second (both (to h)).1),
      λ h. from (back (first_back h.0, second_back h.1)),
    )

-- validate_job_limits accepts a job exactly where the configuration's concurrency_limits have an entry
-- for each limit that the job or one of its tasks claims, whatever its number, 0 included, and
-- validate_job_notifications exactly where neither block names somebody under a channel without a
-- section.
pub validate_job_limits-IsKnown :
    (config : AppConfig) (smtp slack_section : Bool) (job_yaml : JobYaml)
    → ((validate_job_limits config job_yaml ≡ none) ↔ (
        All (IsKnown config) job_yaml.limits
        × All (λ task_yaml. All (IsKnown config) (JobYamlTask.limits task_yaml)) job_yaml.tasks))
      × ((validate_job_notifications smtp slack_section job_yaml ≡ none) ↔ (
          IsDeliverable smtp slack_section job_yaml.on_failure
          × IsDeliverable smtp slack_section job_yaml.on_success))
unfolding validate_job_limits
validate_job_limits-IsKnown config smtp slack_section job_yaml =
    let limits = λ (t : JobYamlTask). t.limits in
    let each = λ (t : JobYamlTask). find_map (check_limit config) t.limits in
    let (to, from) =
      or_else-eq-none (find_map (check_limit config) job_yaml.limits)
        (find_map each job_yaml.tasks) in
    let (own, own_back) = check_limits_iff config job_yaml.limits in
    let (all, all_back) = find_map-eq-none each job_yaml.tasks in
    (
      (
        λ h. (
          own (to h).0,
          All-imp (λ t. (check_limits_iff config (limits t)).0) job_yaml.tasks (all (to h).1),
        ),
        λ h. from (
          own_back h.0,
          all_back (All-imp (λ t. (check_limits_iff config (limits t)).1) job_yaml.tasks h.1),
        ),
      ),
      validate_job_notifications_iff smtp slack_section job_yaml,
    )
