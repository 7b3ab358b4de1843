-- ===== src/Tests/Queueing.antt =====
-- Keys, the lock, the worker, requests and schedules.
use multi_plantform_poster.Base.{
  ℕ, ◌+◌, ◌≡◌, refl, inr, true, false, none, some, List, [], ◌∷◌, ◌++◌, ◌==◌, arith, if◌then◌else◌,
}
use multi_plantform_poster.Base.Text.{Text, codes, text_eq, trim_space, to_lower}
use multi_plantform_poster.Store.{
  ok, err, World, pure, raise, query, execute, transaction, outcome, ◌>>=◌, lift_then,
  database_error,
}
use multi_plantform_poster.RedisKey.{behind, part, tag, tag_of, extract_tag}
use multi_plantform_poster.RedisKey.Tags.{IsFilled, extract_tag-tag}
use multi_plantform_poster.Publish.{
  PublicationStatus, Publication, PublishJob, Tables, update_publications, same_status,
}
use multi_plantform_poster.Publish.Lock.{
  Command, acquires, refreshes, releases, says, perform, perform_all, acquire_lock, refresh_lock,
  refresh_script,
}
use multi_plantform_poster.Publish.Lock.Ownership.{Leases, lease_all, perform_all-leases}
use multi_plantform_poster.Publish.Lock.Exclusion.{count_granted, acquire_excludes}
use multi_plantform_poster.Publish.Lifecycle.{start_publish_attempt}
use multi_plantform_poster.Publish.Lifecycle.Attempts.{started}
use multi_plantform_poster.Publish.Service.{find_row}
use multi_plantform_poster.Publish.Queue.{
  EventType, PublishEvent, State, Setting, on_keys, job_key, job_text, ensure_publish_job_lock,
  is_retriable,
}
use multi_plantform_poster.Publish.Worker.{Times, event_of, end_job, process_publish_job}
use multi_plantform_poster.Publish.Worker.Refusing.{process_publish_job_refused}
use multi_plantform_poster.Publish.Worker.Retrying.{marked_row, end_job_retries}
use multi_plantform_poster.Publish.Replay.{JobResponse, replay}
use multi_plantform_poster.Publish.Replay.Newest.{IsFinal, replay-IsFinal}
use multi_plantform_poster.Publish.Enqueue.{Draws, enqueue_prepared, enqueue_publish_project}
use multi_plantform_poster.Publish.Enqueue.Undoing.{enqueue_publish_project_undone}
use multi_plantform_poster.Publish.Enqueue.Repeating.{enqueue_publish_project_repeats}
use multi_plantform_poster.Publish.Schedules.{cancel_scheduled_publication, cancelled_by}
use multi_plantform_poster.Publish.Schedules.Cancelling.{cancel_scheduled_publication_stops}
use multi_plantform_poster.Tests.Redis.{leases, leases-laws}
use multi_plantform_poster.Tests.Publishing.{row, schedule, start, project, outside}

extract_tag-tag_example :
    (extract_tag (codes "lock:" ++ (tag (codes "project") (codes " A}b ") ++ codes ":x"))
      ≡ some (tag_of (codes "project") (codes " A}b ")))
    × IsFilled (part (codes "project"))
    × IsFilled (part (codes " A}b "))
unfolding behind
extract_tag-tag_example =
    extract_tag-tag (codes "lock:") (codes "project") (codes " A}b ") (codes ":x") refl

abbrev no_leases : Leases
no_leases = λ k. none

abbrev fresh : World Leases
fresh = record { tables = no_leases; faults = [] }

abbrev key : Text
key = codes "k"

abbrev commands : List Command
commands =
    acquires key (codes "a") 10 3
    ∷ refreshes key (codes "b") 10 4
    ∷ releases key (codes "a") 5
    ∷ acquires key (codes "b") 10 6
    ∷ []

perform_all-leases_example : perform_all leases commands fresh ≡ lease_all commands fresh
perform_all-leases_example =
    perform_all-leases leases leases-laws commands 3 fresh fresh
      (
        omega arith,
        omega arith,
        (omega arith, omega arith, (omega arith, tt, (omega arith, omega arith, tt))),
      )
      (λ k t h. refl) refl

abbrev others : List Command
others = acquires key (codes "b") 10 4 ∷ refreshes key (codes "b") 10 9 ∷ []

acquire_excludes_example : count_granted key others (ok (says false) ∷ ok (says false) ∷ []) ≡ 0
unfolding text_eq perform_all perform acquire_lock refresh_lock refresh_script execute query ◌>>=◌
    pure
acquire_excludes_example =
    acquire_excludes leases leases-laws key (codes "a") 10 3 others fresh fresh
      (ok (says false) ∷ ok (says false) ∷ []) (λ k t h. refl) refl
      (omega arith, omega arith, (omega arith, omega arith, (omega arith, omega arith, tt)))
      (omega arith, refl, (omega arith, refl, tt)) refl

abbrev setting : Setting
setting = record {
  redis = leases;
  ext = outside (ok 9);
  resolve_publication_account = λ user p. ok p;
  uuid_text = λ u. (b'a' + u) ∷ [];
  enqueue_task = λ job. none;
  has_smaller_id = λ e o. false;
  has_queue = true;
  has_coordinator = true;
}

abbrev times : Times
times = record {
  checked_at = 1;
  acquired_at = 2;
  ticks = [];
  started_at = 3;
  ended_at = 4;
  released_at = 5;
}

abbrev job : PublishJob
job = record {
  job_id = 7;
  project_id = 3;
  workspace_id = 2;
  user_id = 4;
  platform = codes "x";
  publication_id = 1;
  schedule_id = 5;
  idempotency_key = codes "once";
  enqueued_at = 0;
}

-- The state with one publication.
abbrev with_row : Publication → Leases → State Leases
with_row p keys = record {
  tables = record start.tables { publications = p ∷ [] };
  projects = λ j. if j == 3 then some project else none;
  versions = λ ws pid. none;
  schedule_ids = 5 ∷ [];
  events = [];
  activities = [];
  outbox = λ j. none;
  keys = keys;
}

abbrev state : Publication → Leases → World (State Leases)
state p keys = record { tables = with_row p keys; faults = [] }

abbrev done_row : Publication
done_row = record row { status = PublicationStatus.succeeded }

process_publish_job_refused_example :
    (process_publish_job setting times job (state done_row no_leases)).1.tables
    ≡ with_row done_row no_leases
unfolding text_eq is_retriable same_status
process_publish_job_refused_example =
    process_publish_job_refused setting times job (state done_row no_leases) refl (λ at. refl)
      (inr (refl, λ ws. ground arith))

abbrev held_keys : Leases
held_keys = λ k. some (record { owner = job_text setting job; deadline = 100 })

end_job_retries_example :
    let (r, w') = end_job setting times job false (err database_error) (state row held_keys) in
    (r ≡ err database_error)
    × (find_row 2 3 (codes "x") w'.tables.tables
        ≡ ok (some (marked_row setting times database_error row)))
    × ((ensure_publish_job_lock setting job (job_key setting job) 6 7 w').0 ≡ ok true)
unfolding text_eq
end_job_retries_example =
    end_job_retries setting times leases-laws job database_error (state row held_keys) row 6 7 refl
      (omega arith) (omega arith) refl refl refl refl

abbrev event : EventType → ℕ → PublishEvent
event type at = event_of job type PublicationStatus.queued [] [] [] at

replay-IsFinal_example :
    let es = event EventType.succeeded 3 ∷ event EventType.started 3 ∷ [] in
    IsFinal (event EventType.queued 2 ∷ es) (replay (event EventType.queued 2) es)
replay-IsFinal_example =
    replay-IsFinal (event EventType.queued 2)
      (event EventType.succeeded 3 ∷ event EventType.started 3 ∷ [])

abbrev draws : Draws
draws = record {
  job_id = 8;
  schedule_id = 15;
  outbox_event_id = 16;
  scheduled_at = 10;
  acquired_at = 11;
  recorded_at = 12;
  released_at = 13;
  claimed_at = 14;
  dispatched_at = 15;
}

-- The third statement of the transaction fails, once the lock is taken.
abbrev failing : World (State Leases)
failing = record {
  tables = with_row row no_leases;
  faults = false ∷ false ∷ false ∷ false ∷ false ∷ true ∷ [];
}

enqueue_publish_project_undone_example :
    record (enqueue_publish_project setting draws [] 3
      (codes "x")
      (some 4)
      (codes "once")
      failing).1.tables { keys = no_leases }
    ≡ with_row row no_leases
unfolding enqueue_publish_project enqueue_prepared text_eq trim_space to_lower execute query pure
    raise outcome transaction lift_then ◌>>=◌ same_status
enqueue_publish_project_undone_example =
    enqueue_publish_project_undone setting draws 3 (codes "x") (some 4) (codes "once") failing
      {e = database_error} refl refl

abbrev queued_state : World (State Leases)
queued_state =
    (enqueue_prepared setting draws [] project (codes "x") 4 (codes "once") row
      (state row no_leases)).1

abbrev queued_response : JobResponse
queued_response = record {
  status = PublicationStatus.queued;
  platform = codes "x";
  remote_id = [];
  publish_url = [];
  error_message = [];
  job_id = some 8;
  idempotency_key = codes "once";
  queued_at = some 10;
  scheduled_publication_id = some 15;
  scheduled_at = some 10;
}

enqueue_publish_project_repeats_example :
    let w' = record queued_state { faults = [] } in
    let (again, w'') =
      enqueue_publish_project setting draws [] 3 (codes "x") (some 4) (codes "once") w' in
    (w''.tables ≡ w'.tables)
    × ((found : JobResponse) × (again ≡ ok found) × (found.job_id ≡ some 8))
unfolding enqueue_prepared text_eq trim_space execute query pure raise outcome transaction lift_then
    ◌>>=◌ same_status on_keys update_publications
enqueue_publish_project_repeats_example =
    enqueue_publish_project_repeats setting draws draws project 3 (codes "x") 4 (codes "once") row
      [] [] (state row no_leases) {r = queued_response} refl refl refl refl tt refl refl

abbrev off_row : Publication
off_row = record row { enabled = false }

cancel_scheduled_publication_stops_example :
    let w' = (cancel_scheduled_publication setting 3 5 4 (state row no_leases)).1 in
    let v : World Tables = record { tables = w'.tables.tables; faults = [] } in
    let (r, v') = start_publish_attempt 21 2 5 30 v in (started r ≡ none) × (v'.tables ≡ v.tables)
unfolding cancel_scheduled_publication query execute pure lift_then ◌>>=◌
cancel_scheduled_publication_stops_example =
    cancel_scheduled_publication_stops setting 3 5 4 21 2 30 (state row no_leases) []
      {schedule = cancelled_by setting 4 schedule} refl
