-- ===== src/Orchestrator/TaskRunAttemptChildren.antt =====
-- src/orchestrator/task_run_attempt_children.rs. What the system says of a process is a parameter.
use flowlite.Base.{
  ℕ, zero, suc, ◌+◌, Bool, true, false, Option, none, some, List, [], ◌∷◌, leb, if◌then◌else◌,
}
use flowlite.Crud.World.{
  World, Child, Action, Result, ok, err, ◌>>=◌, ◌>>◌, pure, done, ask, signal, Signal, sigterm,
  sigkill, to_group, to_child,
}
use flowlite.Crud.TaskRunAttempt.{TaskRunAttempt}
use flowlite.Orchestrator.TaskRunAttemptReader.{Chunk}

-- The answers of the system, at a moment.
pub record System : Type 0 where
  -- `Child::try_wait`: whether it exited, and then with success
  pub try_wait : World → Child → Result (Option Bool)
  -- whether `killpg(group, 0)` says that there is no process
  pub no_such_group : World → ℕ → Bool
  -- whether `killpg(group, SIGKILL)` says that it sent the signal
  pub group_killed : World → ℕ → Bool
  -- what a reader has stored as `last_output_at`, if it has
  pub last_read : World → Child → Option ℕ
  -- what `try_recv` gives up to its first error
  pub received : World → Child → List Chunk
  -- what `recv` gives up to the end of the channel or the timeout
  pub drained : World → Child → List Chunk
  -- whether the data directory resolves
  pub resolves : World → Bool
  -- the size of the result: none where there is no such file, an error where it cannot be read
  pub metadata : World → TaskRunAttempt → Result (Option ℕ)
  pub read : World → TaskRunAttempt → Result (List ℕ)

abbrev pub load : ℕ → Option ℕ → ℕ
load old none = old
load old (some at) = at

module _ (system : System) where
  unfoldable pub try_wait : Child → Action (Option Bool)
  try_wait child = ask (λ w. system.try_wait w child) >>= λ answer w. (answer, w)

  abbrev pub is_silent : ℕ → Child → Option ℕ → Action Bool
  is_silent now child none = pure false
  is_silent now child (some idle_timeout) = ask (λ w. system.last_read w child) >>= λ stored.
      pure (leb (load child.last_output_at stored + idle_timeout) now)

  -- `is_idle`. The difference of the two instants is at least the timeout.
  unfoldable pub is_idle : ℕ → Child → Action Bool
  is_idle now child = is_silent now child child.idle_timeout

  abbrev pub has_exited : Result (Option Bool) × World → Result Bool × World
  has_exited (ok (some success), w) = (ok true, w)
  has_exited (ok none, w) = (ok false, w)
  has_exited (err e, w) = (ok false, w)

  abbrev pub nothing_left : Option ℕ → Bool → Action Bool
  nothing_left none leader_exited = pure leader_exited
  nothing_left (some group) leader_exited = ask (λ w. system.no_such_group w group)

  unfoldable pub process_group_is_gone : Child → Action Bool
  unfolding try_wait
  process_group_is_gone child =
      (λ w. has_exited (try_wait child w)) >>= nothing_left child.process_group_id

abbrev pub signal_group : Option ℕ → Signal → Action Unit
signal_group none s = done
signal_group (some group) s = signal (to_group group s)

unfoldable pub signal_process_group : Child → Signal → Action Unit
signal_process_group child s = signal_group child.process_group_id s

unfoldable pub terminate_process_group : Child → Action Unit
unfolding signal_process_group
terminate_process_group child = signal_process_group child sigterm

unfoldable pub kill_process_group : Child → Action Unit
unfolding signal_process_group
kill_process_group child =
    signal_process_group child sigkill >> signal (to_child child.task_run_attempt_id)

-- What `terminate_all` does to each of the children.
unfoldable pub signal_each : (Child → Action Unit) → List Child → Action Unit
signal_each each [] = done
signal_each each (child ∷ children) = each child >> signal_each each children

module _ (system : System) where
  -- `any(|child| !child.process_group_is_gone())`
  unfoldable pub any_left : List Child → Action Bool
  unfolding process_group_is_gone
  any_left [] = pure false
  any_left (child ∷ children) =
      process_group_is_gone system child >>= λ gone. if gone then any_left children else pure true

  -- The `while`: the clock allows `rounds` of them before the deadline.
  unfoldable pub wait_until_gone : (rounds : ℕ) → List Child → Action Unit
  unfolding any_left
  wait_until_gone zero children = done
  wait_until_gone (suc rounds) children =
      any_left children >>= λ left. if left then wait_until_gone rounds children else done

  unfoldable pub terminate_all : (rounds : ℕ) → Action Unit
  unfolding signal_each terminate_process_group kill_process_group wait_until_gone
  terminate_all rounds w =
      let children = w.children in
      (signal_each terminate_process_group children
          >> wait_until_gone rounds children
          >> signal_each kill_process_group children
          >> (λ v. (ok tt, record v { children = [] })))
        w
