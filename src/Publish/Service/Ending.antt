-- ===== src/Publish/Service/Ending.antt =====
-- What a whole publish call leaves of its schedule.
use multi_plantform_poster.Base.{
  ℕ, ◌≡◌, refl, inl, inr, true, false, not, ◌&&◌, ◌||◌, Option, none, some, [], arith, ◌==◌,
  find_if, Bool-cases,
}
use multi_plantform_poster.Base.Text.{Text, text_eq}
use multi_plantform_poster.Store.{
  Error, Result, ok, err, is_ok, World, Action, Result-cases, pure, raise, query, execute,
  transaction, rescue, lift_then, ◌>>=◌,
}
use multi_plantform_poster.Access.{Uuid, Project}
use multi_plantform_poster.Publish.{PublicationStatus, Publication, Attempt, Tables, same_status}
use multi_plantform_poster.Publish.Lifecycle.{start_publish_attempt, start_body}
use multi_plantform_poster.Publish.Lifecycle.Attempts.{
  is_running, started, start_running, IsIdle, open_others_none,
}
use multi_plantform_poster.Publish.Service.{
  Externals, Response, needs_sync, real_id, or_fail, find_account, with_account, publish_started,
  publish_in, publish_project, project_workspace_id, find_row, check_workspace,
}
use multi_plantform_poster.Publish.Service.Attempts.{Ready, Ended, publish_started-Ended}

-- A started attempt, or none for a schedule that does not run.
start-Ready :
    (id workspace_id schedule_id : Uuid) (at : ℕ) (w : World Tables) (attempt : Option Attempt)
    → w.faults ≡ []
    → IsIdle schedule_id w.tables
    → (start_publish_attempt id workspace_id schedule_id at w).0 ≡ ok attempt
    → Ready workspace_id schedule_id attempt
        (start_publish_attempt id workspace_id schedule_id at w).1
unfolding start_publish_attempt start_body transaction ◌>>=◌ execute query pure raise rescue
start-Ready id workspace_id schedule_id at w none f h e = ground arith
start-Ready id workspace_id schedule_id at w (some a) f h e =
    ground (arith, open_others_none schedule_id id w.tables h.1)

start_failed-Ended :
    (id workspace_id schedule_id : Uuid) (at : ℕ) (w : World Tables) (x : Error)
    → w.faults ≡ []
    → IsIdle schedule_id w.tables
    → (start_publish_attempt id workspace_id schedule_id at w).0 ≡ err x
    → Ended schedule_id (start_publish_attempt id workspace_id schedule_id at w).1
unfolding start_publish_attempt start_body transaction ◌>>=◌ execute query pure raise rescue
start_failed-Ended id workspace_id schedule_id at w x f h e = ground arith

module _ (ext : Externals) (workspace_id user_id : Uuid) (project : Project) where
  publish_in-Ended :
      (project_id : Uuid) (platform : Text) (schedule_id : Uuid) (row : Option Publication)
      (w : World Tables)
      → ((id ws : Uuid) → is_ok (ext.find_account id ws) ≡ true)
      → Ended schedule_id w
      → Ended schedule_id
          (publish_in ext workspace_id user_id project project_id platform schedule_id row w).1
  unfolding publish_in raise ◌>>=◌
  publish_in-Ended project_id platform schedule_id none w found h = h
  publish_in-Ended project_id platform schedule_id (some row) w found h =
      elim (Bool-cases (not row.enabled || same_status row.status PublicationStatus.cancelled)) [
        | inl d ↦ rw d h
        | inr d ↦
            elim (Result-cases
              (start_publish_attempt ext.new_id workspace_id schedule_id ext.started_at w).0) [
                | inl (a, e) ↦
                    rw (d, e)
                      (publish_started-Ended ext workspace_id user_id schedule_id a project row _
                        (λ id. found id workspace_id)
                        (start-Ready ext.new_id workspace_id schedule_id ext.started_at w a h.0 h.1
                          e))
                | inr (x, e) ↦
                    rw (d, e)
                      (start_failed-Ended ext.new_id workspace_id schedule_id ext.started_at w x h.0
                        h.1 e)
              ]
      ]

find_row-is_ok :
    (workspace_id project_id : Uuid) (platform : Text) (w : World Tables)
    → w.faults ≡ []
    → (query (find_row workspace_id project_id platform) w).1.faults ≡ []
unfolding query
find_row-is_ok workspace_id project_id platform w h = ground arith

lift_then-Ended :
    {A : Type 0} (schedule_id : Uuid) (r : Result A) (next : A → Action Tables Response)
    (w : World Tables)
    → IsIdle schedule_id w.tables
    → ((a : A) → IsIdle schedule_id (next a w).1.tables)
    → IsIdle schedule_id (lift_then r next w).1.tables
unfolding lift_then
lift_then-Ended schedule_id (ok a) next w h k = k a
lift_then-Ended schedule_id (err e) next w h k = h

-- A publish call of a schedule that is not running and has no attempt under way, in which no
-- statement fails and the lookup of an account finds one, leaves the schedule not running and no
-- attempt of it under way, which is running or without the time of its end: whatever else goes wrong,
-- or goes well, the attempt that the call started is finished.
pub publish_project-ends :
    (ext : Externals) (workspace_id project_id : Uuid) (platform : Text) (user : Option Uuid)
    (schedule_id : Uuid) (w : World Tables)
    → w.faults ≡ []
    → ((id ws : Uuid) → is_ok (ext.find_account id ws) ≡ true)
    → IsIdle schedule_id w.tables
    → IsIdle schedule_id
        (publish_project ext workspace_id project_id platform user schedule_id w).1.tables
unfolding publish_project raise rescue query ◌>>=◌ pure
publish_project-ends ext workspace_id project_id platform none schedule_id w f found h = h
publish_project-ends ext workspace_id project_id platform (some user_id) schedule_id w f found h =
    lift_then-Ended schedule_id (ext.project_for_publish project_id user_id) _ w h λ project.
      lift_then-Ended schedule_id
        (check_workspace workspace_id (project_workspace_id ext.personal_workspace_id project)) _ w
        h
        λ ws.
          rw f
            (publish_in-Ended ext ws user_id project project_id platform schedule_id
              (find_if
                (λ p.
                  p.workspace_id == ws
                  && (p.project_id == project_id && text_eq p.platform platform))
                w.tables.publications)
              (record { tables = w.tables; faults = [] }) found (refl, h)).1

-- Where the publisher is found, no sync is needed, and credentials and media leave the publication
-- as it is, but the account that it names is not found: what follows the start of the attempt
-- returns the error of that lookup and leaves the running schedule running, so that a further call
-- on the tables that are left starts no attempt for it.
pub publish_started_stuck :
    (ext : Externals) (workspace_id user_id id schedule_id account : Uuid) (at : ℕ)
    (attempt : Option Attempt) (project : Project) (row : Publication) (w : World Tables)
    (x : Error)
    → is_ok (ext.get_publisher row.platform) ≡ true
    → needs_sync row ≡ false
    → ext.apply_saved_credentials user_id row ≡ ok row
    → ext.prepare_media_refs project row ≡ ok row
    → real_id row.platform_account_id ≡ some account
    → ext.find_account account workspace_id ≡ err x
    → is_running (w.tables.schedules schedule_id) ≡ true
    → let (r, w') = publish_started ext workspace_id user_id attempt project row w in
      (r ≡ err x)
      × (is_running (w'.tables.schedules schedule_id) ≡ true)
      × (started (start_publish_attempt id workspace_id schedule_id at w').0 ≡ none)
unfolding publish_started or_fail with_account find_account
publish_started_stuck ext workspace_id user_id id schedule_id account at attempt project row w x p n
      c m a f h =
    elim (Result-cases (ext.get_publisher row.platform)) [
      | inl (u, e) ↦
          rw (e, n, c, m, a, f, find_account)
            (refl, h, (start_running id workspace_id schedule_id at w h).0)
      | inr (y, e) ↦ ground (arith, e)
    ]
