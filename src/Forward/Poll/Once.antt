-- ===== src/Forward/Poll/Once.antt =====
-- Which queries the polling loop of cmd/forward/main.go forwards.
use pbench.Prelude.{
  ltb→lt, ◌<◌, ◌≢◌, All-append, All, map, ℕ, suc, ◌≤◌, ◌≡◌, refl, sym, ap, ◌∙◌, Bool, true, false,
  List, [], ◌∷◌, ◌++◌, arith, Text, ltb, if◌then◌else◌, Bool-cases, inl, inr,
}
use pbench.Forward.Poll.{
  poll, starts, QueryState, Answer, states, unavailable, Action, cancel, forward, max_retry,
  cancels, poll_states, poll_loop,
}

abbrev pub forwards_of : List Action → List Text
forwards_of [] = []
forwards_of (cancel id ∷ actions) = forwards_of actions
forwards_of (forward id ∷ actions) = id ∷ forwards_of actions

abbrev pub latest_of : ℕ → List QueryState → ℕ
latest_of time [] = time
latest_of time (s ∷ ss) = latest_of (if ltb time s.create_time then s.create_time else time) ss

-- The queries of an answer that were created behind the cutoff time.
abbrev pub newer : ℕ → List QueryState → List Text
newer cutoff [] = []
newer cutoff (s ∷ ss) =
    let rest = newer cutoff ss in if ltb cutoff s.create_time then s.query_id ∷ rest else rest

-- The answers that are read: until ten attempts in a row have failed.
abbrev pub answered : ℕ → List Answer → List (List QueryState)
answered attempt [] = []
answered attempt (unavailable ∷ answers) =
    let rest = answered (suc attempt) answers in if ltb max_retry attempt then [] else rest
answered attempt (states ss ∷ answers) =
    let rest = answered 1 answers in if ltb max_retry attempt then [] else ss ∷ rest

-- Nothing of the first answer, and of each later one the queries that are newer than all before it.
abbrev pub planned : Bool → ℕ → List (List QueryState) → List Text
planned first cutoff [] = []
planned first cutoff (ss ∷ batches) =
    (if first then [] else newer cutoff ss) ++ planned false (latest_of cutoff ss) batches

forwards_of-append : (a b : List Action) → forwards_of (a ++ b) ≡ forwards_of a ++ forwards_of b
forwards_of-append [] b = refl
forwards_of-append (cancel id ∷ a) b = forwards_of-append a b
forwards_of-append (forward id ∷ a) b = ap (λ ids. id ∷ ids) (forwards_of-append a b)

forwards_of-cancels :
    (s : QueryState) (a : List Action) → forwards_of (cancels s ++ a) ≡ forwards_of a
forwards_of-cancels s a = ground arith

not_later :
    (newest cutoff time : ℕ)
    → cutoff ≤ newest
    → ltb cutoff time ≡ false
    → (if ltb newest time then time else newest) ≡ newest
not_later newest cutoff time l e = ground arith

later :
    (newest cutoff time : ℕ) → cutoff ≤ newest → cutoff ≤ (if ltb newest time then time else newest)
later newest cutoff time l = ground arith

forwards_of-starts :
    (first : Bool) (s : QueryState) (ids : List Text)
    → forwards_of (starts first s) ++ (if first then [] else ids)
      ≡ (if first then [] else s.query_id ∷ ids)
forwards_of-starts true s ids = refl
forwards_of-starts false s ids = refl

poll_states_lem :
    (first : Bool) (cutoff newest : ℕ) (ss : List QueryState)
    → cutoff ≤ newest
    → ((poll_states first cutoff newest ss).0 ≡ latest_of newest ss)
      × (forwards_of (poll_states first cutoff newest ss).1
          ≡ (if first then [] else newer cutoff ss))
unfolding poll_states
poll_states_lem true cutoff newest [] l = (refl, refl)
poll_states_lem false cutoff newest [] l = (refl, refl)
poll_states_lem first cutoff newest (s ∷ ss) l = elim (Bool-cases (ltb cutoff s.create_time)) [
  | inl e ↦
      let newest' = if ltb newest s.create_time then s.create_time else newest in
      let (a, b) = poll_states_lem first cutoff newest' ss (later newest cutoff s.create_time l) in
      rw (e, poll_states)
        (
          a,
          forwards_of-cancels s _
              ∙ forwards_of-append (starts first s) _
              ∙ ap (λ ids. forwards_of (starts first s) ++ ids) b
              ∙ forwards_of-starts first s (newer cutoff ss),
        )
  | inr e ↦
      let (a, b) = poll_states_lem first cutoff newest ss l in
      rw (e, poll_states)
        (
          a ∙ ap (λ t. latest_of t ss) (sym (not_later newest cutoff s.create_time l e)),
          forwards_of-cancels s _ ∙ b,
        )
]

-- The queries that are forwarded are those of the answers that are read: nothing of the first, and of
-- each later one those created behind every query of the answers before it.
pub poll_loop_lem :
    (first : Bool) (cutoff attempt : ℕ) (answers : List Answer)
    → forwards_of (poll_loop first cutoff attempt answers).0
      ≡ planned first cutoff (answered attempt answers)
unfolding poll_loop
poll_loop_lem first cutoff attempt [] = refl
poll_loop_lem first cutoff attempt (unavailable ∷ answers) =
    elim (Bool-cases (ltb max_retry attempt)) [
      | inl e ↦ rw e refl
      | inr e ↦ rw e (poll_loop_lem first cutoff (suc attempt) answers)
    ]
poll_loop_lem first cutoff attempt (states ss ∷ answers) =
    elim (Bool-cases (ltb max_retry attempt)) [
      | inl e ↦ rw e refl
      | inr e ↦
          let (a, b) = poll_states_lem first cutoff cutoff ss (omega arith) in
          rw e (
            forwards_of-append (poll_states first cutoff cutoff ss).1 _
            ∙ (λ i. b i ++ forwards_of (poll_loop false (a i) 1 answers).0)
            ∙ ap (λ ids. (if first then [] else newer cutoff ss) ++ ids)
                (poll_loop_lem false (latest_of cutoff ss) 1 answers))
    ]

abbrev pub IsAbsent : Text → List Text → Type 0
IsAbsent x ys = All (λ y. x ≢ y) ys

abbrev pub IsDistinct : List Text → Type 0
IsDistinct [] = Unit
IsDistinct (x ∷ xs) = IsAbsent x xs × IsDistinct xs

IsDistinct-append :
    (xs ys : List Text)
    → IsDistinct xs
    → IsDistinct ys
    → All (λ x. IsAbsent x ys) xs
    → IsDistinct (xs ++ ys)
IsDistinct-append [] ys hx hy c = hy
IsDistinct-append (x ∷ xs) ys (a, hx) hy (b, c) =
    (All-append (λ y. x ≢ y) xs ys a b, IsDistinct-append xs ys hx hy c)

module _ (create : Text → ℕ) where
  -- An answer tells of each query once, and always the same time of its creation.
  abbrev pub IsConsistent : List QueryState → Type 0
  IsConsistent ss =
      All (λ (s : QueryState). s.create_time ≡ create s.query_id) ss
      × IsDistinct (map (λ (s : QueryState). s.query_id) ss)

  abbrev pub AllConsistent : List Answer → Type 0
  AllConsistent [] = Unit
  AllConsistent (unavailable ∷ answers) = AllConsistent answers
  AllConsistent (states ss ∷ answers) = IsConsistent ss × AllConsistent answers

  All-answered :
      (attempt : ℕ) (answers : List Answer)
      → AllConsistent answers
      → All IsConsistent (answered attempt answers)
  All-answered attempt [] h = tt
  All-answered attempt (unavailable ∷ answers) h = elim (Bool-cases (ltb max_retry attempt)) [
    | inl e ↦ rw e tt
    | inr e ↦ rw e (All-answered (suc attempt) answers h)
  ]
  All-answered attempt (states ss ∷ answers) (h, hs) = elim (Bool-cases (ltb max_retry attempt)) [
    | inl e ↦ rw e tt
    | inr e ↦ rw e (h, All-answered 1 answers hs)
  ]

  latest_of-le : (time : ℕ) (ss : List QueryState) → time ≤ latest_of time ss
  latest_of-le time [] = omega arith
  latest_of-le time (s ∷ ss) =
      ground (arith, latest_of-le (if ltb time s.create_time then s.create_time else time) ss)

  -- The queries that are newer were created between the cutoff time and the latest.
  newer_range :
      (cutoff time : ℕ) (ss : List QueryState)
      → All (λ (s : QueryState). s.create_time ≡ create s.query_id) ss
      → All (λ id. (cutoff < create id) × (create id ≤ latest_of time ss)) (newer cutoff ss)
  newer_range cutoff time [] h = tt
  newer_range cutoff time (s ∷ ss) (h, hs) =
      let time' = if ltb time s.create_time then s.create_time else time in
      let rest = newer_range cutoff time' ss hs in
      elim (Bool-cases (ltb cutoff s.create_time)) [
        | inl e ↦
            let above = ltb→lt cutoff s.create_time e in
            let reached : s.create_time ≤ time' = ground arith in
            let within = latest_of-le time' ss in rw e ((omega arith, omega arith), rest)
        | inr e ↦ rw e rest
      ]

  IsAbsent-newer :
      (x : Text) (cutoff : ℕ) (ss : List QueryState)
      → IsAbsent x (map (λ (s : QueryState). s.query_id) ss)
      → IsAbsent x (newer cutoff ss)
  IsAbsent-newer x cutoff [] h = tt
  IsAbsent-newer x cutoff (s ∷ ss) (h, hs) = elim (Bool-cases (ltb cutoff s.create_time)) [
    | inl e ↦ rw e (h, IsAbsent-newer x cutoff ss hs)
    | inr e ↦ rw e (IsAbsent-newer x cutoff ss hs)
  ]

  IsDistinct-newer :
      (cutoff : ℕ) (ss : List QueryState)
      → IsDistinct (map (λ (s : QueryState). s.query_id) ss)
      → IsDistinct (newer cutoff ss)
  IsDistinct-newer cutoff [] h = tt
  IsDistinct-newer cutoff (s ∷ ss) (h, hs) = elim (Bool-cases (ltb cutoff s.create_time)) [
    | inl e ↦ rw e (IsAbsent-newer s.query_id cutoff ss h, IsDistinct-newer cutoff ss hs)
    | inr e ↦ rw e (IsDistinct-newer cutoff ss hs)
  ]

  All-weaker :
      (P Q : Text → Type 0) (xs : List Text) → ((x : Text) → P x → Q x) → All P xs → All Q xs
  All-weaker P Q [] f h = tt
  All-weaker P Q (x ∷ xs) f (h, hs) = (f x h, All-weaker P Q xs f hs)

  apart : (x y : Text) (time : ℕ) → create x ≤ time → time < create y → x ≢ y
  apart x y time l m = λ e. let same = ap create e in omega arith

  planned_lem :
      (first : Bool) (cutoff : ℕ) (batches : List (List QueryState))
      → All IsConsistent batches
      → All (λ id. cutoff < create id) (planned first cutoff batches)
        × IsDistinct (planned first cutoff batches)
  planned_lem first cutoff [] h = (tt, tt)
  planned_lem true cutoff (ss ∷ batches) ((times, ids), hs) =
      let (above, distinct) = planned_lem false (latest_of cutoff ss) batches hs in
      let grows = latest_of-le cutoff ss in (All-weaker _ _ _ (λ x l. omega arith) above, distinct)
  planned_lem false cutoff (ss ∷ batches) ((times, ids), hs) =
      let rest = planned false (latest_of cutoff ss) batches in
      let (above, distinct) = planned_lem false (latest_of cutoff ss) batches hs in
      let grows = latest_of-le cutoff ss in
      let range = newer_range cutoff cutoff ss times in
      (
        All-append (λ id. cutoff < create id) (newer cutoff ss) rest
            (All-weaker _ (λ id. cutoff < create id) _ (λ x r. r.0) range)
            (All-weaker _ (λ id. cutoff < create id) _ (λ x l. omega arith) above),
        IsDistinct-append (newer cutoff ss) rest (IsDistinct-newer cutoff ss ids) distinct (
            All-weaker _ (λ x. IsAbsent x rest) _
              (λ x r.
                All-weaker _ (λ y. x ≢ y) _ (λ y l. apart x y (latest_of cutoff ss) r.1 l) above)
              range),
      )

  -- If each answer tells of a query once, and always the same time of its creation, then no query is
  -- forwarded twice, however often the cluster tells of it.
  pub poll-IsDistinct :
      (answers : List Answer) → AllConsistent answers → IsDistinct (forwards_of (poll answers).0)
  unfolding poll
  poll-IsDistinct answers h =
      rw (poll_loop_lem true 0 1 answers)
        (planned_lem true 0 (answered 1 answers) (All-answered 1 answers h)).1

  -- A query that was created no later than some query of the first answer is never forwarded, also if
  -- only a later answer tells of it.
  poll-IsAbsent :
      (ss : List QueryState) (answers : List Answer) (id : Text)
      → AllConsistent (states ss ∷ answers)
      → create id ≤ latest_of 0 ss
      → IsAbsent id (forwards_of (poll (states ss ∷ answers)).0)
  unfolding poll
  poll-IsAbsent ss answers id (h, hs) l = rw (poll_loop_lem true 0 1 (states ss ∷ answers)) (
      All-weaker _ (λ y. id ≢ y) _ (λ y m. apart id y (latest_of 0 ss) l m)
        (planned_lem false (latest_of 0 ss) (answered 1 answers) (All-answered 1 answers hs)).0)
