-- ===== src/Publish/Worker/Refusing.antt =====
-- Jobs that are not run: those that another job's lock keeps out, and those that come again when
-- there is nothing left to publish.
use multi_plantform_poster.Base.{
  ℕ, ◌≡◌, refl, ◌∙◌, ◌⊎◌, inl, inr, Bool, false, none, some, [], arith, Bool-cases,
}
use multi_plantform_poster.Base.Text.{Text, text_eq}
use multi_plantform_poster.Store.{
  Result, ok, err, World, pure, raise, query, execute, outcome, ◌>>=◌,
}
use multi_plantform_poster.Access.{Uuid}
use multi_plantform_poster.Publish.{PublishJob, Publication}
use multi_plantform_poster.Publish.Lock.{is_held_by, lock_value, release_lock, release_script}
use multi_plantform_poster.Publish.Service.{find_row}
use multi_plantform_poster.Publish.Queue.{
  State, Setting, Coordinated, on_keys, job_text, job_key, found_row, is_retriable,
  ensure_publish_job_workspace_id, publication_retriable_for_job, ensure_publish_job_lock,
}
use multi_plantform_poster.Publish.Queue.Resolving.{resolve_keeps, AgreesWith, ensure-AgreesWith}
use multi_plantform_poster.Publish.Worker.{
  Times, is_invalid_job, release, run_if_locked, process_resolved, process_publish_job,
}

abbrev is_true : Result Bool → Bool
is_true (ok b) = b
is_true (err e) = false

abbrev pub says_retriable : Result Publication → Bool
says_retriable (ok p) = is_retriable p
says_retriable (err e) = false

module _ (s : Setting) (times : Times) where
  -- The job holds its lock at no time.
  abbrev pub IsForeign : PublishJob → State s.redis.Keys → Type 0
  IsForeign job t =
      (at : ℕ) → is_held_by (job_text s job) (s.redis.get t.keys (job_key s job) at) ≡ false

  -- Another holds the lock, or it is free and no row of the project and platform is still to be
  -- published.
  abbrev pub IsRefused : PublishJob → State s.redis.Keys → Type 0
  IsRefused job t =
      ((holder : Text) × (s.redis.get t.keys (job_key s job) times.checked_at ≡ some holder)
        × (text_eq holder [] ≡ false))
      ⊎ ((s.redis.get t.keys (job_key s job) times.checked_at ≡ none)
          × ((ws : Uuid)
              → says_retriable (found_row (find_row ws job.project_id job.platform t.tables))
                ≡ false))

  release_nothing :
      (job : PublishJob) (w : World (State s.redis.Keys))
      → IsForeign job w.tables
      → (release s times job w).1.tables ≡ w.tables
  unfolding release outcome on_keys release_lock release_script execute
  release_nothing job w foreign = ground (arith, foreign times.released_at)

  -- A lock that is refused is not taken, and nothing changes.
  lock_refused :
      (job : PublishJob) (w : World (State s.redis.Keys))
      → text_eq [] (job_text s job) ≡ false
      → IsForeign job w.tables
      → IsRefused job w.tables
      → let (r, w') =
          ensure_publish_job_lock s job (job_key s job) times.checked_at times.acquired_at w in
        (is_true r ≡ false) × (w'.tables ≡ w.tables)
  unfolding ensure_publish_job_lock ◌>>=◌ on_keys lock_value query pure
      publication_retriable_for_job
  lock_refused job w named foreign (inl (holder, held, filled)) =
      ground (arith, foreign times.checked_at)
  lock_refused job w named foreign (inr (free, none_left)) =
      ground (arith, named, foreign times.checked_at, none_left job.workspace_id)

  unlocked :
      (job : PublishJob) (m : Coordinated s Bool) (w : World (State s.redis.Keys))
      → is_true (m w).0 ≡ false
      → ((m >>= run_if_locked s times job) w).1.tables ≡ (m w).1.tables
  unfolding ◌>>=◌ run_if_locked pure
  unlocked job m w h = ground arith

  refused_resolved :
      (job : PublishJob) (r : Result PublishJob) (w : World (State s.redis.Keys))
      → AgreesWith s job r
      → text_eq [] (job_text s job) ≡ false
      → IsForeign job w.tables
      → IsRefused job w.tables
      → (process_resolved s times job r w).1.tables ≡ w.tables
  unfolding process_resolved ◌>>=◌ pure raise
  refused_resolved job (err e) w agrees named foreign refused =
      ground (arith, release_nothing job w foreign)
  refused_resolved job (ok resolved) w (ws, e) named foreign refused =
      let job' = record job { workspace_id = ws } in
      let lock =
        ensure_publish_job_lock s job' (job_key s job') times.checked_at times.acquired_at in
      let (not_locked, kept) = lock_refused job' w named foreign refused in
      rw e (elim (Bool-cases (is_invalid_job job')) [
        | inl invalid ↦ rw invalid refl
        | inr valid ↦ rw valid (unlocked job' lock w not_locked ∙ kept)
      ])

  -- A job does not run, and nothing at all is changed, while another job holds the lock of its project
  -- and platform; nor when the lock is free and no publication of them waits to be published, which is
  -- how a job that is delivered again, after its publication succeeded or was cancelled, comes to
  -- nothing. The lock does not name the job, whose name is not empty.
  pub process_publish_job_refused :
      (job : PublishJob) (w : World (State s.redis.Keys))
      → text_eq [] (job_text s job) ≡ false
      → IsForeign job w.tables
      → IsRefused job w.tables
      → (process_publish_job s times job w).1.tables ≡ w.tables
  unfolding process_publish_job ◌>>=◌ outcome
  process_publish_job_refused job w named foreign refused =
      let (r, w') = ensure_publish_job_workspace_id s job w in
      let kept = resolve_keeps s job w in
      refused_resolved job r w' (ensure-AgreesWith s job w) named (rw kept foreign)
        (rw kept refused)
      ∙ kept
