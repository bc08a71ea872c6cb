-- ===== src/Replay/Schedule/Order.antt =====
-- Which frames are run, when, and with which header (cmd/replay/main.go).
use pbench.Prelude.{
  ℕ, zero, suc, ◌+◌, ◌-◌, ◌≤◌, ◌≡◌, refl, sym, ap, Bool, none, some, List, [], ◌∷◌, arith, Text,
  Map, lookup, insert, lookup-insert, ltb, text_eq, text_eq_iff, Bool-cases, Option-cases, inl, inr,
  if◌then◌else◌, subst,
}
use pbench.Replay.Frames.{QueryFrame, parse_session_params}
use pbench.Replay.Schedule.{
  Fired, Scheduler, wait_for, pass_guard, cached_header, schedule_loop, query_frame_scheduler,
}

abbrev pub latest : ℕ → ℕ → ℕ
latest a b = if ltb a b then b else a

module _ (header_value : Map Text → Text) (done : ℕ → Bool) (blocked : ℕ → ℕ) where
  -- How long the sends of the frames below `n` on the guard have blocked.
  abbrev pub total_blocked : ℕ → ℕ
  total_blocked zero = 0
  total_blocked (suc n) = total_blocked n + blocked n

  -- What is run of the frames, where `first` is the time of the first frame, and `last` the latest so
  -- far: each with the header of its own properties, after the time that had passed in the log between
  -- the first frame and the latest up to this one, and all the time for which the guard has blocked.
  abbrev pub planned : ℕ → ℕ → ℕ → List QueryFrame → List Fired
  planned n first last [] = []
  planned n first last (f ∷ frames) =
      let time = latest last f.create_time in
      let rest = planned (suc n) first time frames in
      if done n
      then []
      else record {
        query_frame = f;
        header = header_value (parse_session_params f.session_properties);
        waited = (time - first) + total_blocked (suc n);
      }
        ∷ rest

  -- Every header of the cache is that of the properties under which it stands.
  abbrev IsCoherent : Map Text → Type 0
  IsCoherent m =
      (props h : Text) → lookup props m ≡ some h → h ≡ header_value (parse_session_params props)

  record IsScheduling (n first last : ℕ) (s : Scheduler) : Type 0 where
    pub coherent : IsCoherent s.session_param_cache
    pub time : s.last_fired_time ≡ last
    pub behind : first ≤ last
    pub waited : s.waits ≡ (last - first) + total_blocked n

  IsCoherent-insert :
      (m : Map Text) (props : Text)
      → IsCoherent m
      → IsCoherent (insert props (header_value (parse_session_params props)) m)
  IsCoherent-insert m props c = λ k h e. elim (Bool-cases (text_eq props k)) [
    | inl q ↦
        let same : props ≡ k = (text_eq_iff props k).0 q in
        let e' : some (header_value (parse_session_params props)) ≡ some h =
          rw (lookup-insert props k (header_value (parse_session_params props)) m, q) at e in
        rw (← same) (cc)
    | inr q ↦
        c k h (rw (lookup-insert props k (header_value (parse_session_params props)) m, q) at e)
  ]

  cache-wait_for :
      (f : QueryFrame) (s : Scheduler)
      → (wait_for header_value done blocked f s).session_param_cache ≡ s.session_param_cache
  unfolding wait_for
  cache-wait_for f s = ground arith

  wait_for-IsScheduling :
      (n first last : ℕ) (f : QueryFrame) (s : Scheduler)
      → IsScheduling n first last s
      → IsScheduling n first (latest last f.create_time) (wait_for header_value done blocked f s)
  unfolding wait_for
  wait_for-IsScheduling n first last f s h = record {
    coherent = subst IsCoherent (sym (cache-wait_for f s)) h.coherent;
    time = ground arith;
    behind = ground arith;
    waited = ground arith;
  }

  cached_header_lem :
      (n first last : ℕ) (f : QueryFrame) (s : Scheduler)
      → IsScheduling n first last s
      → ((cached_header header_value done blocked f s).0
          ≡ header_value (parse_session_params f.session_properties))
        × IsScheduling n first last (cached_header header_value done blocked f s).1
        × ((cached_header header_value done blocked f s).1.waits ≡ s.waits)
  unfolding cached_header
  cached_header_lem n first last f s h =
      elim (Option-cases (lookup f.session_properties s.session_param_cache)) [
        | inl e ↦
            let grown : IsScheduling n first last (record s {
              session_param_cache =
                  insert f.session_properties
                    (header_value (parse_session_params f.session_properties))
                    s.session_param_cache;
            }) =
              record {
                coherent = IsCoherent-insert s.session_param_cache f.session_properties h.coherent;
                time = h.time;
                behind = h.behind;
                waited = h.waited;
              } in
            rw (e, cached_header) (refl, grown, refl)
        | inr (v, e) ↦ rw (e, cached_header) (h.coherent f.session_properties v e, h, refl)
      ]

  one-IsCoherent :
      (props : Text) → IsCoherent ((props, header_value (parse_session_params props)) ∷ [])
  one-IsCoherent props = λ k h e. elim (Bool-cases (text_eq props k)) [
    | inl q ↦
        let same : props ≡ k = (text_eq_iff props k).0 q in
        let e' : some (header_value (parse_session_params props)) ≡ some h =
          unfold lookup in rw q at e in
        rw (← same) (cc)
    | inr q ↦ absurd (nothing h (unfold lookup in rw q at e))
  ]
    where
      nothing : (h : Text) → none ≡ some h → ⊥
      nothing h e = cc

  pass_guard-IsScheduling :
      (n first last : ℕ) (s : Scheduler)
      → IsScheduling n first last s
      → IsScheduling (suc n) first last (pass_guard header_value done blocked n s)
  unfolding pass_guard
  pass_guard-IsScheduling n first last s h = record {
    coherent = h.coherent;
    time = h.time;
    behind = h.behind;
    waited = omega (arith, h.waited);
  }

  schedule_loop_lem :
      (n first last : ℕ) (frames : List QueryFrame) (s : Scheduler)
      → IsScheduling n first last s
      → schedule_loop header_value done blocked n frames s ≡ planned n first last frames
  unfolding schedule_loop
  schedule_loop_lem n first last [] s h = refl
  schedule_loop_lem n first last (f ∷ frames) s h =
      let h' = wait_for-IsScheduling n first last f s h in
      let time = latest last f.create_time in
      let s' = wait_for header_value done blocked f s in
      let (header, kept, same) = cached_header_lem n first time f s' h' in
      let s2 = (cached_header header_value done blocked f s').1 in
      let passed = pass_guard-IsScheduling n first time s2 kept in
      let rest =
        schedule_loop_lem (suc n) first time frames (pass_guard header_value done blocked n s2)
          passed in
      λ i.
        if done n
        then []
        else record { query_frame = f; header = header i; waited = passed.waited i } ∷ rest i

  abbrev begun : QueryFrame → Scheduler
  begun f = record {
    session_param_cache =
        (f.session_properties, header_value (parse_session_params f.session_properties)) ∷ [];
    last_fired_time = f.create_time;
    waits = blocked 0;
  }

  -- Until the context is done, every frame is run, in the order of the log: with the header of its own
  -- session properties, cached or not. When it is run, the scheduler has waited since the first frame for
  -- as long as the latest frame up to it was created after the first, and on top of it for all the time
  -- that the guard of the parallelism has blocked, for this frame and those before: the delays add up.
  -- Waits for a frame to be read from the log, and the scheduler's own work, are not counted.
  pub query_frame_scheduler_lem :
      (f : QueryFrame) (frames : List QueryFrame)
      → query_frame_scheduler header_value done blocked (f ∷ frames)
        ≡ record {
          query_frame = f;
          header = header_value (parse_session_params f.session_properties);
          waited = blocked 0;
        }
          ∷ planned 1 f.create_time f.create_time frames
  unfolding query_frame_scheduler
  query_frame_scheduler_lem f frames =
      let start : IsScheduling 1 f.create_time f.create_time (begun f) = record {
        coherent = one-IsCoherent f.session_properties;
        time = refl;
        behind = omega arith;
        waited = omega arith;
      } in
      ap
        (λ rest.
          record {
            query_frame = f;
            header = header_value (parse_session_params f.session_properties);
            waited = blocked 0;
          }
          ∷ rest)
        (schedule_loop_lem 1 f.create_time f.create_time frames (begun f) start)
