-- ===== src/Replay/Schedule.antt =====
-- The reading of the log and `QueryFrameScheduler` of cmd/replay/main.go. How long the send of a frame on
-- the guard of the parallelism blocks, which depends on the queries that run, is a parameter; the time for
-- which the channel has no frame yet is not counted. Times are counted in units since some start.
pub mod Order
use pbench.Prelude.{
  ℕ, zero, suc, ◌+◌, ◌-◌, ◌≡◌, refl, Bool, true, false, Option, none, some, List, [], ◌∷◌, ◌++◌,
  Text, Map, lookup, insert, ltb, if◌then◌else◌,
}
use pbench.Replay.Frames.{
  QueryFrame, FrameResult, frame, bad_frame, new_query_frame, parse_session_params,
}

-- The frames of the rows that can be read: the others are passed over.
pub read_frames : (Text → Option ℕ) → List (List Text) → List QueryFrame
read_frames parse_time [] = []
read_frames parse_time (fields ∷ rows) = elim (new_query_frame parse_time fields) [
  | frame f ↦ f ∷ read_frames parse_time rows
  | bad_frame e ↦ read_frames parse_time rows
]

-- A frame that is run, with its header, and how long the scheduler has waited since the first frame.
pub record Fired : Type 0 where
  pub query_frame : QueryFrame
  pub header : Text
  pub waited : ℕ

-- The variables of the scheduler, and the time that it has waited so far, for timers and for the guard.
pub record Scheduler : Type 0 where
  pub session_param_cache : Map Text
  pub last_fired_time : ℕ
  pub waits : ℕ

module _ (header_value : Map Text → Text) (done : ℕ → Bool) (blocked : ℕ → ℕ) where
  -- `if frame.CreateTime.After(lastFiredTime)`: the wait for a frame.
  pub wait_for : QueryFrame → Scheduler → Scheduler
  wait_for f s =
      if ltb s.last_fired_time f.create_time
      then record s {
        last_fired_time = f.create_time;
        waits = s.waits + (f.create_time - s.last_fired_time);
      }
      else s

  -- The header of a frame, from the cache if it is there.
  pub cached_header : QueryFrame → Scheduler → Text × Scheduler
  cached_header f s = elim (lookup f.session_properties s.session_param_cache) [
    | some h ↦ (h, s)
    | none ↦
        let h = header_value (parse_session_params f.session_properties) in
        (h, record s { session_param_cache = insert f.session_properties h s.session_param_cache })
  ]

  -- `parallelismGuard <- struct{}{}` for the frame of this number.
  pub pass_guard : ℕ → Scheduler → Scheduler
  pass_guard n s = record s { waits = s.waits + blocked n }

  abbrev fire : QueryFrame → Text × Scheduler → Fired
  fire f (h, s) = record { query_frame = f; header = h; waited = s.waits }

  -- The loop over the channel; `done` tells whether the context is done when so many frames have been
  -- taken from it.
  pub schedule_loop : ℕ → List QueryFrame → Scheduler → List Fired
  unfolding wait_for cached_header pass_guard
  schedule_loop n [] s = []
  schedule_loop n (f ∷ frames) s =
      let r = cached_header f (wait_for f s) in
      let s' = pass_guard n r.1 in
      let rest = schedule_loop (suc n) frames s' in if done n then [] else fire f (r.0, s') ∷ rest

  -- `QueryFrameScheduler`, from the first frame on.
  pub query_frame_scheduler : List QueryFrame → List Fired
  unfolding schedule_loop
  query_frame_scheduler [] = []
  query_frame_scheduler (f ∷ frames) =
      let h = header_value (parse_session_params f.session_properties) in
      record { query_frame = f; header = h; waited = blocked 0 }
      ∷ schedule_loop 1 frames (record {
        session_param_cache = (f.session_properties, h) ∷ [];
        last_fired_time = f.create_time;
        waits = blocked 0;
      })
