-- ===== src/Tests/Publishing.antt =====
-- Publications, attempts, the outbox and a publish call.
use multi_plantform_poster.Base.{
  ◌+◌, ◌≡◌, refl, true, false, none, some, List, [], ◌∷◌, ◌==◌, count_if, arith, if◌then◌else◌,
}
use multi_plantform_poster.Base.Text.{codes, text_eq, trim_space}
use multi_plantform_poster.Store.{
  Result, ok, err, is_ok, World, pure, raise, query, execute, transaction, rescue, ◌>>=◌,
  record_not_found,
}
use multi_plantform_poster.Access.{Uuid, Project}
use multi_plantform_poster.Publish.{
  PublicationStatus, DraftStatus, ScheduleStatus, AttemptStatus, Publication, Schedule, Attempt,
  Tables, same_status, update_publications,
}
use multi_plantform_poster.Publish.Lifecycle.{
  AttemptCompletion, mark_as, last_attempt_no, new_attempt, start_body, start_publish_attempt,
  finish_publish_attempt,
}
use multi_plantform_poster.Publish.Lifecycle.Claiming.{mark_as_once}
use multi_plantform_poster.Publish.Lifecycle.Attempts.{
  IsNumbered, Call, starts, finishes, is_running, started, IsIdle, perform_all, start_excludes,
  perform_all-IsNumbered, finish-schedule,
}
use multi_plantform_poster.Publish.Service.{Externals, needs_sync, publish_started, publish_project}
use multi_plantform_poster.Publish.Service.Ending.{publish_project-ends, publish_started_stuck}
use multi_plantform_poster.Publish.Lifecycle.{of_platforms, mark_prepublish_syncing}
use multi_plantform_poster.Publish.Lifecycle.Syncing.{
  syncing_row, mark_prepublish_syncing_all_or_none,
}
use multi_plantform_poster.Publish.{is_active}
use multi_plantform_poster.Base.{is_some, ◌⊎◌, update_if, not, ◌&&◌}

abbrev pub row : Publication
row = record {
  id = 1;
  workspace_id = 2;
  project_id = 3;
  platform = codes "x";
  platform_account_id = some 9;
  enabled = true;
  status = PublicationStatus.draft;
  draft_status = DraftStatus.ready;
  adapted_content = codes "hello";
  remote_id = [];
  publish_url = [];
  error_message = [];
  retry_count = 0;
  last_attempt_at = none;
  published_at = none;
}

abbrev pub schedule : Schedule
schedule = record {
  workspace_id = 2;
  project_id = 3;
  publication_id = 1;
  platform_account_id = some 9;
  project_version_id = none;
  scheduled_at = 6;
  timezone = codes "UTC";
  status = ScheduleStatus.scheduled;
  idempotency_key = [];
  created_by = 4;
  cancelled_by = none;
  last_error = [];
}

abbrev pub start : World Tables
start = record {
  tables = record {
    publications = row ∷ [];
    schedules = λ j. if j == 5 then some schedule else none;
    attempts = [];
  };
  faults = [];
}

abbrev queued_once : World Tables
queued_once = (mark_as PublicationStatus.queued row 7 start).1

mark_as_once_example :
    (is_ok (mark_as PublicationStatus.publishing row 8 queued_once).0 ≡ false)
    × ((mark_as PublicationStatus.publishing row 8 queued_once).1.tables.publications
        ≡ queued_once.tables.publications)
unfolding mark_as ◌>>=◌ execute query pure raise update_publications same_status
mark_as_once_example =
    mark_as_once PublicationStatus.queued PublicationStatus.publishing row 7 8 start queued_once
      refl (λ e. ground (arith, e)) refl

abbrev attempt : Attempt
attempt = new_attempt 6 5 1 7

abbrev in_progress : World Tables
in_progress = (start_publish_attempt 6 2 5 7 start).1

start_excludes_example :
    (attempt.attempt_no ≡ count_if (λ b. b.schedule_id == 5) start.tables.attempts + 1)
    × (started (start_publish_attempt 16 0 5 9 in_progress).0 ≡ none)
    × ((start_publish_attempt 16 0 5 9 in_progress).1.tables ≡ in_progress.tables)
unfolding start_publish_attempt start_body transaction ◌>>=◌ execute query pure raise rescue
    last_attempt_no
start_excludes_example = start_excludes 6 16 2 0 5 7 9 start in_progress attempt tt refl refl

abbrev success : AttemptCompletion
success = record {
  status = AttemptStatus.succeeded;
  remote_id = codes "r";
  publish_url = [];
  error_message = [];
}

abbrev calls : List Call
calls = starts 6 2 5 7 ∷ finishes 2 attempt success 8 ∷ starts 16 2 5 9 ∷ []

perform_all-IsNumbered_example : IsNumbered (perform_all calls start).tables
perform_all-IsNumbered_example = perform_all-IsNumbered calls start tt

abbrev failure : AttemptCompletion
failure = record success { status = AttemptStatus.failed }

abbrev after_failure : World Tables
after_failure = (finish_publish_attempt 2 attempt failure 8 in_progress).1

finish-schedule_example :
    (is_running (after_failure.tables.schedules 5) ≡ false)
    × (is_some (started (start_publish_attempt 16 2 5 9 after_failure).0) ≡ true)
unfolding start_publish_attempt start_body finish_publish_attempt transaction ◌>>=◌ execute query
    pure raise rescue
finish-schedule_example =
    finish-schedule 16 2 attempt failure 8 9 in_progress after_failure
      (record schedule { status = ScheduleStatus.running; last_error = [] }) refl refl refl refl
      refl

abbrev pub project : Project
project = record { id = 3; user_id = 4; workspace_id = some 2 }

-- Everything outside works, but accounts are found or not as `found` says.
abbrev pub outside : Result Uuid → Externals
outside found = record {
  project_for_publish = λ p u. ok project;
  personal_workspace_id = λ u. u;
  get_publisher = λ platform. ok tt;
  apply_saved_credentials = λ u p. ok p;
  prepare_media_refs = λ pr p. ok p;
  find_account = λ id ws. found;
  uses_stored_cookies = λ platform. false;
  apply_saved_cookies = λ u platform a. ok tt;
  publish = λ p a. record { error = none; remote_id = codes "r"; publish_url = [] };
  error_text = λ e. [];
  sanitize = λ s. s;
  new_id = 6;
  started_at = 7;
  finished_at = 8;
}

publish_project-ends_example :
    IsIdle 5 (publish_project (outside (ok 9)) 2 3 (codes "x") (some 4) 5 start).1.tables
publish_project-ends_example =
    publish_project-ends (outside (ok 9)) 2 3 (codes "x") (some 4) 5 start refl (λ id ws. refl)
      (refl, refl)

publish_started_stuck_example :
    let (r, w') =
      publish_started (outside (err record_not_found)) 2 4 (some attempt) project row in_progress in
    (r ≡ err record_not_found)
    × (is_running (w'.tables.schedules 5) ≡ true)
    × (started (start_publish_attempt 16 2 5 9 w').0 ≡ none)
unfolding start_publish_attempt start_body transaction ◌>>=◌ execute query pure raise rescue
    needs_sync same_status text_eq trim_space
publish_started_stuck_example =
    publish_started_stuck (outside (err record_not_found)) 2 4 16 5 9 9 (some attempt) project row
      in_progress record_not_found refl refl refl refl refl refl refl

mark_prepublish_syncing_all_or_none_example :
    let test = of_platforms 2 3 (codes "x" ∷ []) in
    let (r, w') = mark_prepublish_syncing 2 3 (codes "x" ∷ []) start in
    ((r ≡ ok tt)
      × (count_if (λ p. test p && is_active p.status) start.tables.publications ≡ 0)
      × (w'.tables.publications
          ≡ update_if
              (λ p. test p && not (is_active p.status))
              syncing_row
              start.tables.publications))
    ⊎ ((is_ok r ≡ false) × (w'.tables ≡ start.tables))
mark_prepublish_syncing_all_or_none_example =
    mark_prepublish_syncing_all_or_none 2 3 (codes "x") [] start
