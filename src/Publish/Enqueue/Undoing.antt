-- ===== src/Publish/Enqueue/Undoing.antt =====
-- What is left of a request to publish that is refused or fails.
use multi_plantform_poster.Base.{not, ℕ, ◌≡◌, refl, ap, Bool, true, Option, none, some, [], arith}
use multi_plantform_poster.Base.Text.{Text, text_eq, trim_space}
use multi_plantform_poster.Store.{
  Error, Result, ok, err, is_ok, World, Action, pure, raise, outcome, ◌>>=◌,
}
use multi_plantform_poster.Store.Rules.{
  Keeps, Keeps-pure, Keeps-raise, Keeps-query, Keeps-if, Keeps-bind,
}
use multi_plantform_poster.Store.Undo.{
  Undoes, Undoes-Keeps, Undoes-if, Undoes-bind, Undoes-lift_then, Undoes-transaction, Keeps-outcome,
  Keeps-lift_then,
}
use multi_plantform_poster.Access.{Uuid, Project}
use multi_plantform_poster.Publish.{Publication, PublishJob, Schedule}
use multi_plantform_poster.Publish.Lock.{acquire_lock, release_lock}
use multi_plantform_poster.Publish.Queue.{
  State, Setting, Coordinated, on_keys, job_text, job_key, lock_ttl, check_publication,
}
use multi_plantform_poster.Publish.Schedules.{prepare_publish_job_for_project, checked}
use multi_plantform_poster.Publish.Replay.{JobResponse}
use multi_plantform_poster.Publish.Replay.Reading.{find-Keeps, wait-Keeps}
use multi_plantform_poster.Publish.Enqueue.{
  Draws, new_job, record_request, end_enqueue, after_lock, refuse, or_refused, enqueue_prepared,
  enqueue_or_publish, replayed, or_error, enqueue_checked, enqueue_new, enqueue_publish_project,
}

module _ (s : Setting) where
  -- The state but for the keys of Redis.
  abbrev pub AgreesBut : State s.redis.Keys → State s.redis.Keys → Type 0
  AgreesBut t t' = record t' { keys = t.keys } ≡ t

  module _ (t : State s.redis.Keys) where
    on_keys-Keeps : {A : Type 0} (m : Action s.redis.Keys A) → Keeps (AgreesBut t) (on_keys m)
    unfolding on_keys
    on_keys-Keeps m = record { at = λ w h. h }

    end-Undoes :
        (d : Draws) (p : Publication) (job : PublishJob) (e : Error)
        → Undoes (AgreesBut t) (end_enqueue s d p job (err e))
    unfolding end_enqueue
    end-Undoes d p job e = Undoes-Keeps _ (
        Keeps-bind _ _
          (Keeps-outcome _
            (on_keys-Keeps (release_lock s.redis (job_key s job) (job_text s job) d.released_at)))
          (λ r. Keeps-raise e))

    end-total :
        (d : Draws) (p : Publication) (job : PublishJob) (schedule : Schedule)
        (w : World (State s.redis.Keys))
        → is_ok (end_enqueue s d p job (ok schedule) w).0 ≡ true
    unfolding end_enqueue outcome pure ◌>>=◌
    end-total d p job schedule w = refl

    after_lock-Undoes :
        (d : Draws) (project : Project) (p : Publication) (job : PublishJob)
        (refused : Coordinated s JobResponse) (acquired : Bool)
        → Undoes (AgreesBut t) refused
        → Undoes (AgreesBut t) (after_lock s d project p job refused acquired)
    unfolding after_lock
    after_lock-Undoes d project p job refused acquired r =
        Undoes-if acquired _ _
          (Undoes-transaction (record_request s d project p job) (end_enqueue s d p job)
            (end-Undoes d p job) (end-total d p job))
          r

    or_refused-Undoes : (o : Option JobResponse) → Undoes (AgreesBut t) (or_refused s o)
    unfolding or_refused
    or_refused-Undoes none = Undoes-Keeps _ (Keeps-raise _)
    or_refused-Undoes (some r) = Undoes-Keeps _ (Keeps-pure r)

    refuse-Undoes : (pid : Uuid) (job : PublishJob) → Undoes (AgreesBut t) (refuse s [] pid job)
    unfolding refuse
    refuse-Undoes pid job =
        Undoes-if (text_eq job.idempotency_key []) _ _ (Undoes-Keeps _ (Keeps-raise _)) (
          Undoes-bind _ _
            (wait-Keeps s job.workspace_id pid job.platform job.user_id (AgreesBut t)
              job.idempotency_key)
            or_refused-Undoes)

    prepared-Undoes :
        (d : Draws) (project : Project) (platform : Text) (user : Uuid) (key : Text)
        (p : Publication)
        → Undoes (AgreesBut t) (enqueue_prepared s d [] project platform user key p)
    unfolding enqueue_prepared
    prepared-Undoes d project platform user key p =
        let job = new_job s d project p platform user key in
        Undoes-bind _ _
          (on_keys-Keeps
            (acquire_lock s.redis (job_key s job) (job_text s job) lock_ttl d.acquired_at))
          (λ acquired.
            after_lock-Undoes d project p job (refuse s [] project.id job) acquired
              (refuse-Undoes project.id job))

    replayed-Keeps :
        (project : Project) (platform : Text) (user : Uuid) (key : Text)
        → Keeps (AgreesBut t) (replayed s project platform user key)
    replayed-Keeps project platform user key =
        Keeps-if (text_eq key []) _ _ (Keeps-pure none)
          (find-Keeps s _ project.id platform user (AgreesBut t) key)

    or_error-Undoes : (e : Error) (o : Option JobResponse) → Undoes (AgreesBut t) (or_error s e o)
    unfolding or_error
    or_error-Undoes e none = Undoes-Keeps _ (Keeps-raise e)
    or_error-Undoes e (some r) = Undoes-Keeps _ (Keeps-pure r)

    or_publish-Undoes :
        (d : Draws) (project : Project) (platform : Text) (user : Uuid) (key : Text)
        (p : Publication)
        → s.has_queue ≡ true
        → Undoes (AgreesBut t) (enqueue_or_publish s d [] project platform user key p)
    unfolding enqueue_or_publish
    or_publish-Undoes d project platform user key p queued = rw queued (
        Undoes-if (not s.has_coordinator) _ _ (Undoes-Keeps _ (Keeps-raise _))
          (prepared-Undoes d project platform user key p))

    checked-Undoes :
        (d : Draws) (project : Project) (platform : Text) (user : Uuid) (key : Text)
        (r : Result Publication)
        → s.has_queue ≡ true
        → Undoes (AgreesBut t) (enqueue_checked s d [] project platform user key r)
    unfolding enqueue_checked
    checked-Undoes d project platform user key (ok p) queued =
        or_publish-Undoes d project platform user key p queued
    checked-Undoes d project platform user key (err e) queued =
        Undoes-bind _ _ (replayed-Keeps project platform user key) (or_error-Undoes e)

    look-Keeps :
        (user : Uuid) (now : ℕ) (r : Result Publication)
        → Keeps (AgreesBut t) (checked s user now r)
    look-Keeps user now (err e) = Keeps-raise _
    look-Keeps user now (ok p) = Keeps-lift_then (check_publication s user now p) _ Keeps-pure

    prepare-Keeps :
        (project : Project) (platform : Text) (user : Uuid) (now : ℕ)
        → Keeps (AgreesBut t) (prepare_publish_job_for_project s project platform user now)
    unfolding prepare_publish_job_for_project
    prepare-Keeps project platform user now =
        Keeps-bind _ _ (Keeps-outcome _ (Keeps-query _)) (look-Keeps user now)

    new-Undoes :
        (d : Draws) (project : Project) (platform : Text) (user : Uuid) (key : Text)
        (o : Option JobResponse)
        → s.has_queue ≡ true
        → Undoes (AgreesBut t) (enqueue_new s d [] project platform user key o)
    unfolding enqueue_new
    new-Undoes d project platform user key (some r) queued = Undoes-Keeps _ (Keeps-pure r)
    new-Undoes d project platform user key none queued =
        Undoes-bind _ _ (Keeps-outcome _ (prepare-Keeps project platform user d.scheduled_at))
          (λ r. checked-Undoes d project platform user key r queued)

-- Where there is a queue, a request to publish that ends in an error, whichever statement or command
-- failed, leaves every table as it was: no schedule, event, activity or outbox event is written and
-- the publication is not queued; only keys of Redis may differ. This is without others who write while
-- the request waits.
pub enqueue_publish_project_undone :
    (s : Setting) (d : Draws) (project_id : Uuid) (platform : Text) (user : Option Uuid)
    (key : Text) (w : World (State s.redis.Keys)) {e : Error}
    → s.has_queue ≡ true
    → (enqueue_publish_project s d [] project_id platform user key w).0 ≡ err e
    → record (enqueue_publish_project s d [] project_id platform user key w).1.tables {
      keys = w.tables.keys;
    }
      ≡ w.tables
unfolding enqueue_publish_project raise
enqueue_publish_project_undone s d project_id platform none key w queued h = ground arith
enqueue_publish_project_undone s d project_id platform (some user) key w queued h =
    let t = w.tables in
    let key' = trim_space key in
    let m : Undoes (AgreesBut s t) _ =
      Undoes-lift_then (s.ext.project_for_publish project_id user)
        (λ project.
          replayed s project platform user key' >>= enqueue_new s d [] project platform user key')
        (λ project.
          Undoes-bind _ _ (replayed-Keeps s t project platform user key')
            (λ o. new-Undoes s t d project platform user key' o queued)) in
    m.at w refl (ap is_ok h)
