-- ===== src/Publish/Schedules/Cancelling.antt =====
-- A scheduled publication that was cancelled.
use multi_plantform_poster.Base.{ℕ, ◌≡◌, Bool, true, false, Option, none, some, List, arith}
use multi_plantform_poster.Store.{
  ok, World, pure, raise, query, execute, rescue, transaction, lift_then, ◌>>=◌,
}
use multi_plantform_poster.Access.{Uuid}
use multi_plantform_poster.Publish.{ScheduleStatus, Schedule, Tables}
use multi_plantform_poster.Publish.Lifecycle.{start_publish_attempt, start_body}
use multi_plantform_poster.Publish.Lifecycle.Attempts.{started}
use multi_plantform_poster.Publish.Queue.{State, Setting}
use multi_plantform_poster.Publish.Schedules.{write_cancelled, cancel_scheduled_publication}

-- The schedule is there and cancelled.
abbrev has_cancelled : ScheduleStatus → Bool
has_cancelled ScheduleStatus.cancelled = true
has_cancelled _ = false

abbrev pub is_cancelled : Option Schedule → Bool
is_cancelled none = false
is_cancelled (some s) = has_cancelled s.status

-- No attempt is started for a schedule that is cancelled, and nothing changes.
cancelled_stays :
    (attempt_id ws id : Uuid) (now : ℕ) (w : World Tables)
    → is_cancelled (w.tables.schedules id) ≡ true
    → let (r, w') = start_publish_attempt attempt_id ws id now w in
      (started r ≡ none) × (w'.tables ≡ w.tables)
unfolding start_publish_attempt start_body transaction ◌>>=◌ execute query pure raise rescue
cancelled_stays attempt_id ws id now w h = ground arith

module _ (s : Setting) where
  cancel_writes :
      (project_id id user : Uuid) (w : World (State s.redis.Keys)) {schedule : Schedule}
      → (cancel_scheduled_publication s project_id id user w).0 ≡ ok schedule
      → is_cancelled
          ((cancel_scheduled_publication s project_id id user w).1.tables.tables.schedules id)
        ≡ true
  unfolding cancel_scheduled_publication write_cancelled lift_then ◌>>=◌ execute query pure raise
  cancel_writes project_id id user w h = ground arith

  -- Once a cancellation has succeeded, no attempt to publish the schedule is started, in whichever
  -- workspace it is asked for, and the attempt that is refused changes nothing; whatever statements
  -- fail, as long as no one else writes the schedule.
  pub cancel_scheduled_publication_stops :
      (project_id id user attempt_id ws : Uuid) (now : ℕ) (w : World (State s.redis.Keys))
      (faults : List Bool) {schedule : Schedule}
      → (cancel_scheduled_publication s project_id id user w).0 ≡ ok schedule
      → let w' = (cancel_scheduled_publication s project_id id user w).1 in
        let v : World Tables = record { tables = w'.tables.tables; faults = faults } in
        let (r, v') = start_publish_attempt attempt_id ws id now v in
        (started r ≡ none) × (v'.tables ≡ v.tables)
  cancel_scheduled_publication_stops project_id id user attempt_id ws now w faults {schedule} h =
      cancelled_stays attempt_id ws id now _
        (cancel_writes project_id id user w {schedule = schedule} h)
