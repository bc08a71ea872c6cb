-- ===== src/Forward/Poll.antt =====
-- The loop of `Run` of cmd/forward/main.go that polls the source cluster. The answers of the cluster are
-- a list, which ends when the context is done; the goroutines that the loop starts are its actions.
pub mod Once
use pbench.Prelude.{
  ℕ, zero, suc, ◌+◌, ◌≡◌, refl, Bool, true, false, Option, none, some, List, [], ◌∷◌, ◌++◌, Text,
  ltb, if◌then◌else◌,
}

-- What the loop reads of a `QueryStateInfo`: `user_cancelled` where the query failed since its user
-- cancelled it.
pub record QueryState : Type 0 where
  pub query_id : Text
  pub create_time : ℕ
  pub user_cancelled : Bool

pub data Answer : Type 0 where
  states : List QueryState → Answer
  unavailable : Answer

pub data Action : Type 0 where
  cancel : Text → Action
  forward : Text → Action

pub data Exit : Type 0 where
  interrupted : Exit
  gave_up : Exit

abbrev pub max_retry : ℕ
max_retry = 10

abbrev cancels : QueryState → List Action
cancels s = if s.user_cancelled then cancel s.query_id ∷ [] else []

abbrev starts : Bool → QueryState → List Action
starts true s = []
starts false s = forward s.query_id ∷ []

-- The loop over the states: the new cutoff time, and the goroutines that are started.
pub poll_states : Bool → ℕ → ℕ → List QueryState → ℕ × List Action
poll_states first cutoff newest [] = (newest, [])
poll_states first cutoff newest (s ∷ ss) =
    let seen = poll_states first cutoff newest ss in
    let next =
      poll_states first cutoff (if ltb newest s.create_time then s.create_time else newest) ss in
    if ltb cutoff s.create_time
    then (next.0, cancels s ++ (starts first s ++ next.1))
    else (seen.0, cancels s ++ seen.1)

-- The polling loop, with `firstBatch`, `lastQueryStateCheckCutoffTime` and `attempt`.
pub poll_loop : Bool → ℕ → ℕ → List Answer → List Action × Exit
unfolding poll_states
poll_loop first cutoff attempt [] = ([], interrupted)
poll_loop first cutoff attempt (unavailable ∷ answers) =
    let rest = poll_loop first cutoff (suc attempt) answers in
    if ltb max_retry attempt then ([], gave_up) else rest
poll_loop first cutoff attempt (states ss ∷ answers) =
    let batch = poll_states first cutoff cutoff ss in
    let rest = poll_loop false batch.0 1 answers in
    if ltb max_retry attempt then ([], gave_up) else (batch.1 ++ rest.0, rest.1)

-- The zero time comes before every query.
unfoldable pub poll : List Answer → List Action × Exit
unfolding poll_loop
poll answers = poll_loop true 0 1 answers
