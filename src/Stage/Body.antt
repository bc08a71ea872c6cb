-- ===== src/Stage/Body.antt =====
-- The body of `run` of stage/stage.go behind the wait for the prerequisites. `runAsMultipleStreams`, which
-- starts a goroutine for each stream, is not modelled: a stage that comes to it stops there.
pub mod Failures
use pbench.Prelude.{
  ℕ, zero, suc, ◌+◌, Bool, true, false, Option, none, some, List, [], Text, length, ltb,
  if◌then◌else◌,
}
use pbench.Stage.Config.{Stage}
use pbench.Stage.Queries.{RunError, file_failed, Outside, Run, join_errors, run_shell_scripts}
use pbench.Stage.Sequence.{Sources, run_sequentially}
use pbench.Stage.Random.{Chance, Ended, ended, panicked, out_of_rounds, run_randomly}
use pbench.Stage.Files.{Disk, Expanded, ok, missing, unreadable, expand_query_file_dirs}
use pbench.Stage.Client.{ClientApi, Clients, prepare_client}
use pbench.Stage.Inherit.{set_defaults, propagate_states}

-- `*s.RandomExecution`, which `setDefaults` has set.
unfoldable pub runs_randomly : Stage → Bool
runs_randomly s = elim s.random_execution [ none ↦ false | some b ↦ b ]

-- `s.StreamCount != nil && *s.StreamCount > 1`
unfoldable pub has_streams : Stage → Bool
has_streams s = elim s.stream_count [ none ↦ false | some n ↦ ltb 1 n ]

-- A stage that has ended, or one that gives its queries to parallel streams, which are not modelled.
pub data Work (W : Type 0) : Type 0 where
  worked : Ended W → Work W
  in_streams : Stage → Run W → Work W

module _ (o : Outside) (f : Sources o.World) (chance : Chance o.World) (disk : Disk)
    (rounds skip : ℕ) where
  open o use {World}

  from_sequence : Option RunError × Stage × Run World → Ended World
  from_sequence (e, s, r) = ended e s r

  pub run_mode : Bool → Stage → Run World → Ended World
  unfolding from_sequence
  run_mode true s r = run_randomly o f chance rounds skip s r
  run_mode false s r = from_sequence (run_sequentially o f s r)

  -- The queries, if there are any.
  pub run_work : ℕ → Stage → Run World → Work World
  unfolding run_mode
  run_work zero s r = worked (ended none s r)
  run_work (suc n) s r =
      if has_streams s then in_streams s r else worked (run_mode (runs_randomly s) s r)

  -- The scripts behind the queries run even if these have failed.
  post_stage : Work World → Work World
  post_stage (worked (ended e s r)) =
      let (post, r') = run_shell_scripts o s s.post_stage_shell_scripts [] r in
      worked (ended (join_errors e post) s r')
  post_stage (worked panicked) = worked panicked
  post_stage (worked out_of_rounds) = worked out_of_rounds
  post_stage (in_streams s r) = in_streams s r

  pub after_expansion : Stage → Expanded Stage → Run World → Work World
  unfolding post_stage run_work
  after_expansion s (ok s') r =
      post_stage (run_work (length s'.queries + length s'.query_files) s' r)
  after_expansion s (missing file) r = worked (ended (some (file_failed file)) s r)
  after_expansion s (unreadable file) r = worked (ended (some (file_failed file)) s r)

  after_pre_stage : Stage → Option RunError × Run World → Work World
  unfolding after_expansion
  after_pre_stage s (some e, r) = worked (ended (some e) s r)
  after_pre_stage s (none, r) = after_expansion s (expand_query_file_dirs disk s) r

  -- From the scripts in front of the queries on.
  pub run_stage : Stage → Run World → Work World
  unfolding after_pre_stage
  run_stage s r = after_pre_stage s (run_shell_scripts o s s.pre_stage_shell_scripts [] r)

  module _ (api : ClientApi) where
    -- With the clients and the next stages that `prepareClient` and `propagateStates` leave.
    pub propagated_to :
        Stage × Clients api
        → Option (List Stage)
        → Run World
        → Work World × Clients api × List Stage
    propagated_to (s, clients) none r = (worked panicked, clients, [])
    propagated_to (s, clients) (some nexts) r = (run_stage s r, clients, nexts)

    pub with_set_defaults :
        Option Stage → List Stage → Clients api → Run World → Work World × Clients api × List Stage
    with_set_defaults none nexts clients r = (worked panicked, clients, nexts)
    with_set_defaults (some s) nexts clients r =
        let p = prepare_client api s clients in propagated_to p (propagate_states p.0 nexts) r

    -- The whole body, of a stage with its next stages. A nil dereference in between is a panic.
    pub run_body :
        Stage → List Stage → Clients api → Run World → Work World × Clients api × List Stage
    run_body s nexts clients r = with_set_defaults (set_defaults s) nexts clients r
