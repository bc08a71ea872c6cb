-- ===== src/Examples/ForwardRuns.antt =====
-- Runs of the command `forward`.
use pbench.Prelude.{
  ◌≢◌, ap, ℕ, refl, true, false, none, some, List, [], ◌∷◌, arith, Text, codes, Option, ltb,
  if◌then◌else◌, text_eq,
}
use pbench.Forward.Poll.{QueryState, Answer, states, unavailable, poll}
use pbench.Forward.Poll.Once.{forwards_of, AllConsistent, IsDistinct, poll-IsDistinct}
use pbench.Forward.Queries.{
  Patterns, QueryInfo, TargetResult, refused, drained, Setup, forward_query,
}
use pbench.Forward.Queries.Outcomes.{IsAccounted, forward_query-IsAccounted}

abbrev state : Text → ℕ → QueryState
state id t = record { query_id = id; create_time = t; user_cancelled = false }

abbrev create : Text → ℕ
create id = if text_eq id (codes "a") then 5 else 7

abbrev answers : List Answer
answers =
    states (state (codes "a") 5 ∷ [])
    ∷ unavailable
    ∷ states (state (codes "b") 7 ∷ state (codes "a") 5 ∷ [])
    ∷ []

abbrev first_code : Text → ℕ
first_code [] = 0
first_code (c ∷ s) = c

b-ne-a : codes "b" ≢ codes "a"
b-ne-a e = let p = ap first_code e in omega arith

answers-AllConsistent : AllConsistent create answers
unfolding text_eq
answers-AllConsistent =
    (((refl, tt), (tt, tt)), (((refl, (refl, tt)), ((b-ne-a, tt), (tt, tt))), tt))

poll-IsDistinct_example : IsDistinct (forwards_of (poll answers).0)
poll-IsDistinct_example = poll-IsDistinct create answers answers-AllConsistent

abbrev later_answers : List Answer
later_answers = states (state (codes "b") 7 ∷ state (codes "a") 5 ∷ []) ∷ []

abbrev patterns : Patterns
patterns = record {
  compiles = λ p. true;
  matches = λ p q. text_eq p q;
  replace_all = λ p s q. if text_eq p q then s else q;
}

abbrev setup : Setup
setup = record {
  excludes = codes "drop" ∷ [];
  replacements = (codes "select 1", codes "select 2") ∷ [];
  mappings = (codes "s", codes "t") ∷ [];
  dry_run = false;
}

abbrev info : ℕ → Option QueryInfo
info k =
    if ltb k 3
    then none
    else some (record {
      query_id = codes "q";
      query = codes "select 1";
      catalog = none;
      schema = some (codes "s");
      session_properties = [];
    })

abbrev targets : QueryInfo → List TargetResult
targets q = refused ∷ drained 4 ∷ []

forward_query-IsAccounted_example :
    IsAccounted patterns setup info targets (forward_query patterns setup info targets)
forward_query-IsAccounted_example =
    forward_query-IsAccounted patterns setup info targets (λ q. omega arith)
