-- ===== src/Examples/ReplayRuns.antt =====
-- Runs of the command `replay`.
use pbench.Prelude.{ℕ, ◌≡◌, refl, false, [], ◌∷◌, Text, Map, codes, lookup, text_eq}
use pbench.Prelude.Int.{pos}
use pbench.Replay.Frames.{QueryFrame, parse_session_params, separates}
use pbench.Replay.Frames.Params.{parse_session_params-print}
use pbench.Replay.Schedule.{query_frame_scheduler}
use pbench.Replay.Schedule.Order.{planned, query_frame_scheduler_lem}

abbrev props : Map Text
props = (codes "k", codes "a=b") ∷ (codes "l", []) ∷ []

parse_session_params-print_example : parse_session_params (codes "{k=a=b, l=}") ≡ props
unfolding separates lookup text_eq
parse_session_params-print_example =
    parse_session_params-print props
      (((refl, tt), (refl, tt), (refl, (refl, (refl, tt)))), (((refl, tt), (refl, tt), tt), tt))
      (refl, (refl, tt))

abbrev at : ℕ → QueryFrame
at t = record {
  query_id = codes "q";
  create_time = t;
  wall_time_millis = pos 1;
  output_rows = pos 1;
  written_output_rows = pos 0;
  catalog = codes "hive";
  schema = codes "s";
  session_properties = codes "{}";
  query = codes "select 1";
}

-- The guard blocks for three units each time.
abbrev blocked : ℕ → ℕ
blocked n = 3

query_frame_scheduler_lem_example :
    query_frame_scheduler (λ m. codes "h") (λ n. false) blocked (at 10 ∷ at 15 ∷ at 12 ∷ [])
    ≡ record { query_frame = at 10; header = codes "h"; waited = 3 }
      ∷ planned (λ m. codes "h") (λ n. false) blocked 1 10 10 (at 15 ∷ at 12 ∷ [])
query_frame_scheduler_lem_example =
    query_frame_scheduler_lem (λ m. codes "h") (λ n. false) blocked (at 10) (at 15 ∷ at 12 ∷ [])
