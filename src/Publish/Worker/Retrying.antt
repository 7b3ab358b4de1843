-- ===== src/Publish/Worker/Retrying.antt =====
-- A job whose publishing failed: its lock is given back, and the job that the queue delivers again
-- gets it.
use multi_plantform_poster.Base.{
  ℕ, ◌+◌, ◌≤◌, ◌≡◌, refl, ap, Bool, true, false, ◌&&◌, none, some, List, [], ◌∷◌, arith,
  if◌then◌else◌, find_if, find_if_sound, update_if, ◌==◌,
}
use multi_plantform_poster.Base.Text.{text_eq, text_eq_refl}
use multi_plantform_poster.Store.{
  Error, Result, ok, err, World, pure, raise, query, execute, outcome, ◌>>=◌,
}
use multi_plantform_poster.Publish.{
  PublicationStatus, PublishJob, Publication, same_status, in_scope, update_publications,
}
use multi_plantform_poster.Publish.Lock.{
  RedisLaws, lock_value, acquire_lock, release_lock, release_script,
}
use multi_plantform_poster.Publish.Lifecycle.{mark_failed}
use multi_plantform_poster.Publish.Service.{find_row}
use multi_plantform_poster.Publish.Queue.{
  State, Setting, Coordinated, on_tables, on_keys, job_text, job_key, lock_ttl, is_retriable,
  EventType, PublishEvent, record_publish_event, publication_retriable_for_job,
  ensure_publish_job_lock,
}
use multi_plantform_poster.Publish.Worker.{Times, event_of, note, release, fail_job, end_job}

module _ {A : Type 0} where
  -- An update that leaves a test alone changes the row that the test finds, and nothing else of it.
  pub find_if-update_if :
      (q p : A → Bool) (f : A → A) (xs : List A) {x : A}
      → ((y : A) → q (if p y then f y else y) ≡ q y)
      → find_if q xs ≡ some x
      → find_if q (update_if p f xs) ≡ some (if p x then f x else x)
  find_if-update_if q p f [] h e = cc
  find_if-update_if q p f (y ∷ ys) {x} h e =
      ground (arith, h y, find_if-update_if q p f ys {x = x} h)

module _ (s : Setting) (times : Times) where
  -- Nothing fails from here on.
  IsCalm : World (State s.redis.Keys) → Type 0
  IsCalm w = w.faults ≡ []

  note_keeps :
      (e : PublishEvent) (w : World (State s.redis.Keys))
      → IsCalm w
      → let w' = (note s times e w).1 in
        IsCalm w' × (w'.tables.keys ≡ w.tables.keys) × (w'.tables.tables ≡ w.tables.tables)
  unfolding IsCalm note outcome record_publish_event query execute pure ◌>>=◌
  note_keeps e w calm = ground arith

  release_frees :
      RedisLaws s.redis
      → (job : PublishJob) (w : World (State s.redis.Keys)) (t : ℕ) → IsCalm w
      → times.released_at ≤ t
      → s.redis.get w.tables.keys (job_key s job) times.released_at ≡ some (job_text s job)
      → let w' = (release s times job w).1 in
        IsCalm w'
        × (w'.tables.tables ≡ w.tables.tables)
        × (s.redis.get w'.tables.keys (job_key s job) t ≡ none)
  unfolding IsCalm release outcome on_keys release_lock release_script execute
  release_frees laws job w t calm h held = ground (
    arith,
    text_eq_refl (job_text s job),
    text_eq_refl (job_key s job),
    laws.del_get w.tables.keys (job_key s job) times.released_at (job_key s job) t h,
  )

  -- The rows that fail_job marks, and what it writes to them.
  abbrev is_marked : PublishJob → Publication → Bool
  is_marked job p =
      (p.project_id == job.project_id)
      && (text_eq p.platform job.platform && in_scope job.workspace_id p.workspace_id)

  abbrev pub marked_row : Error → Publication → Publication
  marked_row e p = record p {
    status = PublicationStatus.failed;
    error_message = s.ext.sanitize (s.ext.error_text e);
    retry_count = p.retry_count + 1;
  }

  abbrev mark : PublishJob → Error → Coordinated s (Result (Unit {0}))
  mark job e = outcome (
      on_tables (
        mark_failed s.ext.sanitize job.workspace_id job.project_id job.platform
          (s.ext.error_text e)))

  mark_keeps :
      (job : PublishJob) (e : Error) (w : World (State s.redis.Keys))
      → IsCalm w
      → let w' = (mark job e w).1 in
        IsCalm w'
        × (w'.tables.keys ≡ w.tables.keys)
        × (w'.tables.tables.publications
            ≡ update_if (is_marked job) (marked_row e) w.tables.tables.publications)
  unfolding IsCalm outcome on_tables mark_failed execute pure ◌>>=◌ update_publications
  mark_keeps job e w calm = ground arith

  -- find_row's test.
  abbrev is_sought : PublishJob → Publication → Bool
  is_sought job p =
      (p.workspace_id == job.workspace_id)
      && ((p.project_id == job.project_id) && text_eq p.platform job.platform)

  sought_marked :
      (job : PublishJob) (p : Publication) → is_sought job p ≡ true → is_marked job p ≡ true
  sought_marked job p h = ground arith

  mark_stays :
      (job : PublishJob) (e : Error) (p : Publication)
      → is_sought job (if is_marked job p then marked_row e p else p) ≡ is_sought job p
  mark_stays job e p = ground arith

  marked_found :
      (job : PublishJob) (e : Error) (ps : List Publication) (p : Publication)
      → find_if (is_sought job) ps ≡ some p
      → find_if (is_sought job) (update_if (is_marked job) (marked_row e) ps)
        ≡ some (marked_row e p)
  marked_found job e ps p h = ground (
    arith,
    find_if-update_if (is_sought job) (is_marked job) (marked_row e) ps {x = p} (mark_stays job e)
        h,
    sought_marked job p (find_if_sound (is_sought job) ps {x = p} h),
  )

  failed_event : PublishJob → Error → PublishEvent
  failed_event job e =
      event_of job EventType.failed PublicationStatus.failed [] []
        (s.ext.sanitize (s.ext.error_text e)) times.ended_at

  fail_job_steps :
      (job : PublishJob) (e : Error) (w : World (State s.redis.Keys))
      → fail_job s times job e w
        ≡ (err e, (release s times job (note s times (failed_event job e) (mark job e w).1).1).1)
  unfolding fail_job raise ◌>>=◌ note release outcome failed_event
  fail_job_steps job e w = refl

  -- After the return of an error of publishing without another error: the row is marked, and the lock
  -- is free.
  fail_job_ends :
      RedisLaws s.redis
      → (job : PublishJob) (e : Error) (w : World (State s.redis.Keys)) (p : Publication) (t : ℕ)
      → IsCalm w
      → times.released_at ≤ t
      → s.redis.get w.tables.keys (job_key s job) times.released_at ≡ some (job_text s job)
      → find_if (is_sought job) w.tables.tables.publications ≡ some p
      → let (r, w') = fail_job s times job e w in
        (r ≡ err e)
        × IsCalm w'
        × (find_if (is_sought job) w'.tables.tables.publications ≡ some (marked_row e p))
        × (s.redis.get w'.tables.keys (job_key s job) t ≡ none)
  fail_job_ends laws job e w p t calm h held found =
      let (calm1, keys1, rows1) = mark_keeps job e w calm in
      let w1 = (mark job e w).1 in
      let (calm2, keys2, rows2) = note_keeps (failed_event job e) w1 calm1 in
      let w2 = (note s times (failed_event job e) w1).1 in
      let held2 : s.redis.get w2.tables.keys (job_key s job) times.released_at
          ≡ some (job_text s job) =
        rw keys2 (rw keys1 held) in
      let (calm3, rows3, free) = release_frees laws job w2 t calm2 h held2 in
      rw (fail_job_steps job e w) (
        refl,
        calm3,
        rw rows3 (rw rows2 (rw rows1 (marked_found job e w.tables.tables.publications p found))),
        free,
      )

  found_inner :
      (job : PublishJob) (w : World (State s.redis.Keys)) (p : Publication)
      → find_row job.workspace_id job.project_id job.platform w.tables.tables ≡ ok (some p)
      → find_if (is_sought job) w.tables.tables.publications ≡ some p
  found_inner job w p found = ground (arith, found)

  still : {a b c : ℕ} → a ≤ b → b ≤ c → a ≤ c
  still h h' = omega arith

  -- A job gets a lock that is free, when its publication is still to be published.
  free_lock :
      RedisLaws s.redis
      → (job : PublishJob) (w : World (State s.redis.Keys)) (p : Publication) (t t' : ℕ) → IsCalm w
      → text_eq [] (job_text s job) ≡ false
      → s.redis.get w.tables.keys (job_key s job) t ≡ none
      → s.redis.get w.tables.keys (job_key s job) t' ≡ none
      → find_if (is_sought job) w.tables.tables.publications ≡ some p
      → is_retriable p ≡ true
      → (ensure_publish_job_lock s job (job_key s job) t t' w).0 ≡ ok true
  unfolding IsCalm ensure_publish_job_lock on_keys lock_value acquire_lock
      publication_retriable_for_job execute query pure ◌>>=◌
  free_lock laws job w p t t' calm named free free' found retriable =
      let (granted, after) =
        laws.set_nx_free w.tables.keys (job_key s job) (job_text s job) lock_ttl t' (omega arith)
          free' in
      ground (arith, text_eq_refl [])

  marked-is_retriable :
      (e : Error) (p : Publication) → p.enabled ≡ true → is_retriable (marked_row e p) ≡ true
  unfolding is_retriable same_status
  marked-is_retriable e p h = ground arith

  -- When the publish call of a job ended in an error, no statement from there on fails and the job
  -- still holds its lock when it gives it back, then the job returns that error, its publication is
  -- marked as failed, and the job, delivered again at any later time, gets the lock and runs: provided
  -- that the publication is enabled, and Redis obeys its laws.
  pub end_job_retries :
      RedisLaws s.redis
      → (job : PublishJob) (e : Error) (w : World (State s.redis.Keys)) (p : Publication)
        (checked_at acquired_at : ℕ)
      → w.faults ≡ []
      → times.released_at ≤ checked_at
      → checked_at ≤ acquired_at
      → text_eq [] (job_text s job) ≡ false
      → s.redis.get w.tables.keys (job_key s job) times.released_at ≡ some (job_text s job)
      → find_row job.workspace_id job.project_id job.platform w.tables.tables ≡ ok (some p)
      → p.enabled ≡ true
      → let (r, w') = end_job s times job false (err e) w in
        (r ≡ err e)
        × (find_row job.workspace_id job.project_id job.platform w'.tables.tables
            ≡ ok (some (marked_row e p)))
        × ((ensure_publish_job_lock s job (job_key s job) checked_at acquired_at w').0 ≡ ok true)
  unfolding end_job IsCalm
  end_job_retries laws job e w p t t' calm h h' named held found enabled =
      let (same, calm', row, free) =
        fail_job_ends laws job e w p t calm h held (found_inner job w p found) in
      let (same', calm'', row', free') =
        fail_job_ends laws job e w p t' calm (still h h') held (found_inner job w p found) in
      let w' = (fail_job s times job e w).1 in
      (
        same,
        ap ok row,
        free_lock laws job w' (marked_row e p) t t' calm' named free free' row
            (marked-is_retriable e p enabled),
      )
