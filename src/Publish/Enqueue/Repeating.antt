-- ===== src/Publish/Enqueue/Repeating.antt =====
-- A request that is made again with its key.
use multi_plantform_poster.Base.{
  ◌≡◌, refl, ap, ◌∙◌, inl, inr, true, false, none, some, List, [], ◌∷◌, arith, if◌then◌else◌,
}
use multi_plantform_poster.Base.Text.{Text, text_eq, text_eq_refl, trim_space}
use multi_plantform_poster.Store.{
  Error, ok, err, is_ok, raise, Result-cases, World, pure, outcome, transaction, ◌>>=◌, lift_then,
}
use multi_plantform_poster.Store.Rules.{transaction-ok, bind-first}
use multi_plantform_poster.Access.{Uuid, Project}
use multi_plantform_poster.Publish.{Publication, PublishJob, Schedule}
use multi_plantform_poster.Publish.Lock.{acquire_lock}
use multi_plantform_poster.Publish.Service.{project_workspace_id}
use multi_plantform_poster.Publish.Queue.{State, Setting, on_keys, job_text, job_key, lock_ttl}
use multi_plantform_poster.Publish.Replay.{
  JobResponse, find_idempotent_publish_response, is_queued_with,
}
use multi_plantform_poster.Publish.Replay.Newest.{AreBehind}
use multi_plantform_poster.Publish.Replay.Answering.{find_first}
use multi_plantform_poster.Publish.Handover.Keeping.{dispatch_event_keeps}
use multi_plantform_poster.Publish.Enqueue.{
  Draws, new_job, record_request, end_enqueue, after_lock, replayed, enqueue_prepared, enqueue_new,
  enqueue_publish_project,
}
use multi_plantform_poster.Publish.Enqueue.Replaying.{
  is_recordable, requested_event, queued_event, record_request-Turns,
}

module _ (s : Setting) where
  end_enqueue-events :
      (d : Draws) (p : Publication) (job : PublishJob) (schedule : Schedule)
      (w : World (State s.redis.Keys))
      → (end_enqueue s d p job (ok schedule) w).1.tables.events ≡ w.tables.events
  unfolding end_enqueue outcome pure ◌>>=◌
  end_enqueue-events d p job schedule w =
      ap (λ t. t.events) (dispatch_event_keeps s d.outbox_event_id d.claimed_at d.dispatched_at w)

module _ (s : Setting) (d : Draws) (project : Project) (platform : Text) (user : Uuid) (key : Text)
    (p : Publication) where
  abbrev job : PublishJob
  job = new_job s d project p platform user key

  queued_matches :
      is_queued_with job.workspace_id project.id platform user key (queued_event s d project p job)
      ≡ true
  queued_matches = ground (arith, text_eq_refl platform, text_eq_refl key)

  failed :
      (e : Error) (w : World (State s.redis.Keys))
      → is_ok (end_enqueue s d p job (err e) w).0 ≡ false
  unfolding end_enqueue outcome raise ◌>>=◌
  failed e w = refl

  written-events :
      (w : World (State s.redis.Keys)) {r : JobResponse}
      → is_recordable (queued_event s d project p job) ≡ true
      → ((outcome (transaction (record_request s d project p job)) >>= end_enqueue s d p job) w).0
        ≡ ok r
      → ((outcome (transaction (record_request s d project p job)) >>= end_enqueue s d p job)
          w).1.tables.events
        ≡ queued_event s d project p job ∷ requested_event s d project p job ∷ w.tables.events
  unfolding ◌>>=◌ outcome
  written-events w valid h =
      let (r, w') = transaction (record_request s d project p job) w in
      elim (Result-cases r) [
        | inl (schedule, e) ↦
            let (inner, same) = transaction-ok (record_request s d project p job) w e in
            let turned =
              (record_request-Turns s d project p job w.tables.events valid).at w {a = schedule}
                refl inner in
            ground (arith, end_enqueue-events s d p job schedule w', e, same, turned)
        | inr (x, e) ↦ ground (arith, failed x w')
      ]

  acquire_events :
      (w : World (State s.redis.Keys))
      → (on_keys
          (acquire_lock s.redis (job_key s job) (job_text s job) lock_ttl d.acquired_at)
          w).1.tables.events
        ≡ w.tables.events
  unfolding on_keys
  acquire_events w = refl

  -- What a request that gets the lock and succeeds leaves of the events.
  prepared-events :
      (others : List (State s.redis.Keys → State s.redis.Keys)) (w : World (State s.redis.Keys))
      {r : JobResponse}
      → is_recordable (queued_event s d project p job) ≡ true
      → (on_keys (acquire_lock s.redis (job_key s job) (job_text s job) lock_ttl d.acquired_at) w).0
        ≡ ok true
      → (enqueue_prepared s d others project platform user key p w).0 ≡ ok r
      → (enqueue_prepared s d others project platform user key p w).1.tables.events
        ≡ queued_event s d project p job ∷ requested_event s d project p job ∷ w.tables.events
  unfolding enqueue_prepared after_lock ◌>>=◌
  prepared-events others w {r} valid locked h =
      let (acquired, w1) =
        on_keys (acquire_lock s.redis (job_key s job) (job_text s job) lock_ttl d.acquired_at) w in
      ground (arith, locked, acquire_events w, written-events w1 {r = r} valid)

new_found :
    (s : Setting) (d : Draws) (project : Project) (platform : Text) (user : Uuid) (key : Text)
    (others : List (State s.redis.Keys → State s.redis.Keys)) (w : World (State s.redis.Keys))
    (found : JobResponse)
    → enqueue_new s d others project platform user key (some found) w ≡ (ok found, w)
unfolding enqueue_new pure
new_found s d project platform user key others w found = refl

enqueue_steps :
    (s : Setting) (d : Draws) (project : Project) (project_id : Uuid) (platform : Text)
    (user : Uuid) (key : Text) (others : List (State s.redis.Keys → State s.redis.Keys))
    (w : World (State s.redis.Keys))
    → s.ext.project_for_publish project_id user ≡ ok project
    → enqueue_publish_project s d others project_id platform (some user) key w
      ≡ (replayed s project platform user (trim_space key)
            >>= enqueue_new s d others project platform user (trim_space key))
          w
unfolding enqueue_publish_project lift_then
enqueue_steps s d project project_id platform user key others w access = rw access refl

-- A request whose key is found comes to what is found.
found_again :
    (s : Setting) (d : Draws) (project : Project) (project_id : Uuid) (platform : Text)
    (user : Uuid) (key : Text) (others : List (State s.redis.Keys → State s.redis.Keys))
    (w : World (State s.redis.Keys)) (found : JobResponse)
    → let ws = project_workspace_id s.ext.personal_workspace_id project in
      let (r, w') = find_idempotent_publish_response s ws project.id platform user key w in
      s.ext.project_for_publish project_id user ≡ ok project
      → trim_space key ≡ key
      → text_eq key [] ≡ false
      → r ≡ ok (some found)
      → enqueue_publish_project s d others project_id platform (some user) key w ≡ (ok found, w')
found_again s d project project_id platform user key others w found access trimmed named h =
    let find =
      find_idempotent_publish_response s (project_workspace_id s.ext.personal_workspace_id project)
        project.id platform user key in
    let new = enqueue_new s d others project platform user key in
    enqueue_steps s d project project_id platform user key others w access
    ∙ ap
        (λ k.
          (replayed s project platform user k >>= enqueue_new s d others project platform user k) w)
        trimmed
    ∙ ap (λ b. ((if b then pure none else find) >>= new) w) named
    ∙ bind-first find new w h
    ∙ new_found s d project platform user key others (find w).1 found

-- A request that got the lock, was queued and is made again with its key, by the same user for the same
-- project and platform, is answered with the job that was queued, and changes nothing: for a key that
-- is neither blank nor padded, once no statement fails, with ids that are not nil, and where an earlier
-- queued event of them with that key is dated before, or at the same time with a greater id.
pub enqueue_publish_project_repeats :
    (s : Setting) (d d' : Draws) (project : Project) (project_id : Uuid) (platform : Text)
    (user : Uuid) (key : Text) (p : Publication)
    (others others' : List (State s.redis.Keys → State s.redis.Keys))
    (w : World (State s.redis.Keys)) {r : JobResponse}
    → let job = new_job s d project p platform user key in
      let w' = record (enqueue_prepared s d others project platform user key p w).1 {
        faults = [];
      } in
      s.ext.project_for_publish project_id user ≡ ok project
      → trim_space key ≡ key
      → text_eq key [] ≡ false
      → is_recordable (queued_event s d project p job) ≡ true
      → AreBehind s.has_smaller_id
          (queued_event s d project p job)
          (is_queued_with job.workspace_id project.id platform user key)
          w.tables.events
      → (on_keys (acquire_lock s.redis (job_key s job) (job_text s job) lock_ttl d.acquired_at) w).0
        ≡ ok true
      → (enqueue_prepared s d others project platform user key p w).0 ≡ ok r
      → let (again, w'') =
          enqueue_publish_project s d' others' project_id platform (some user) key w' in
        (w''.tables ≡ w'.tables)
        × ((found : JobResponse) × (again ≡ ok found) × (found.job_id ≡ some d.job_id))
enqueue_publish_project_repeats s d d' project project_id platform user key p others others' w {r}
      access trimmed named valid past locked h =
    let job = new_job s d project p platform user key in
    let ws = project_workspace_id s.ext.personal_workspace_id project in
    let w' = record (enqueue_prepared s d others project platform user key p w).1 { faults = [] } in
    let q = queued_event s d project p job in
    let blank : text_eq (trim_space key) [] ≡ false = rw trimmed named in
    let (calm, kept, (found, same, its_job)) =
      find_first s project.id ws platform user key q
        (requested_event s d project p job ∷ w.tables.events) w' blank refl
        (prepared-events s d project platform user key p others w {r = r} valid locked h)
        (ground arith, past) (queued_matches s d project platform user key p) in
    let again =
      found_again s d' project project_id platform user key others' w' found access trimmed named
        same in
    (ap (λ x. x.1.tables) again ∙ kept, (found, ap (λ x. x.0) again, its_job))
