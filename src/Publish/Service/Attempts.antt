-- ===== src/Publish/Service/Attempts.antt =====
-- What a publish call leaves of the attempt that it started.
use multi_plantform_poster.Base.{
  ℕ, ◌≡◌, refl, inl, inr, true, false, Option, none, some, [], arith, is_some, Bool-cases,
  Option-cases,
}
use multi_plantform_poster.Store.{
  Error, Result, ok, err, is_ok, World, Action, Result-cases, pure, raise, query, execute,
  transaction, ◌>>=◌, invalid_platform_account, publication_requires_sync,
}
use multi_plantform_poster.Access.{Uuid, Project}
use multi_plantform_poster.Publish.{Publication, Attempt, Tables, update_publications}
use multi_plantform_poster.Publish.Lifecycle.{
  Completion, AttemptCompletion, schedule_in, mark_as, mark_publishing, complete_publication,
  finish_publish_attempt,
}
use multi_plantform_poster.Publish.Lifecycle.Attempts.{
  is_open_status, IsIdle, open_others, finish-open,
}
use multi_plantform_poster.Publish.Service.{
  Externals, Published, Response, needs_sync, credentials, real_id, fail_attempt, or_fail,
  try_action, conclude, attempt_completion, completion, publish_row, apply_cookies, find_account,
  with_account, publish_started,
}

-- No statement to come fails, and the schedule of the attempt, if there is an attempt, is there in
-- the scope of the workspace, with no other attempt of it under way; without an attempt the schedule
-- is idle.
abbrev pub Ready : Uuid → Uuid → Option Attempt → World Tables → Type 0
Ready workspace_id schedule_id none w = (w.faults ≡ []) × IsIdle schedule_id w.tables
Ready workspace_id schedule_id (some a) w =
    (w.faults ≡ [])
    × (a.schedule_id ≡ schedule_id)
    × (is_some (schedule_in workspace_id schedule_id w.tables) ≡ true)
    × (open_others schedule_id a.id w.tables ≡ 0)

-- The schedule is idle, and no statement to come fails.
abbrev pub Ended : Uuid → World Tables → Type 0
Ended schedule_id w = (w.faults ≡ []) × IsIdle schedule_id w.tables

module _ (ext : Externals) (workspace_id user_id schedule_id : Uuid) where
  finish-Ended :
      (a : Attempt) (c : AttemptCompletion) (now : ℕ) (w : World Tables)
      → is_open_status c.status ≡ false
      → Ready workspace_id schedule_id (some a) w
      → Ended schedule_id (finish_publish_attempt workspace_id a c now w).1
  unfolding finish_publish_attempt transaction ◌>>=◌ execute pure
  finish-Ended a c now w o h =
      ground (arith, finish-open schedule_id a.id c now w.tables.attempts o)

  fail_attempt-Ended :
      (attempt : Option Attempt) (e : Error) (w : World Tables)
      → Ready workspace_id schedule_id attempt w
      → Ended schedule_id (fail_attempt ext workspace_id user_id attempt e w).1
  unfolding fail_attempt
  fail_attempt-Ended none e w h = h
  fail_attempt-Ended (some a) e w h = finish-Ended a _ _ w refl h

  or_fail-Ended :
      {A : Type 0} (attempt : Option Attempt) (r : Result A) (next : A → Action Tables Response)
      (w : World Tables)
      → Ready workspace_id schedule_id attempt w
      → ((a : A) → r ≡ ok a → Ended schedule_id (next a w).1)
      → Ended schedule_id (or_fail ext workspace_id user_id attempt r next w).1
  unfolding or_fail
  or_fail-Ended attempt (ok a) next w h k = k a refl
  or_fail-Ended attempt (err e) next w h k = fail_attempt-Ended attempt e w h

  -- The two statements on publications leave the schedules and the faults alone.
  mark-Ready :
      (attempt : Option Attempt) (row : Publication) (at : ℕ) (w : World Tables)
      → Ready workspace_id schedule_id attempt w
      → Ready workspace_id schedule_id attempt (mark_publishing row at w).1
  unfolding mark_publishing mark_as ◌>>=◌ execute query pure raise update_publications
  mark-Ready none row at w h = ground arith
  mark-Ready (some a) row at w h = ground arith

  complete-Ready :
      (attempt : Option Attempt) (row : Publication) (c : Completion) (now : ℕ) (w : World Tables)
      → Ready workspace_id schedule_id attempt w
      → Ready workspace_id schedule_id attempt (complete_publication row c now w).1
  unfolding complete_publication ◌>>=◌ execute query pure raise update_publications
  complete-Ready none row c now w h = ground arith
  complete-Ready (some a) row c now w h = ground arith

  conclude-Ended :
      (attempt : Option Attempt) (p : Published) (w : World Tables)
      → Ready workspace_id schedule_id attempt w
      → Ended schedule_id (conclude ext workspace_id user_id attempt p w).1
  unfolding conclude
  conclude-Ended none p w h = h
  conclude-Ended (some a) p w h =
      let c = attempt_completion ext workspace_id user_id (some a) p in
      let over : is_open_status c.status ≡ false = elim (Option-cases p.error) [
        | inl e ↦ rw e refl
        | inr (x, e) ↦ rw e refl
      ] in
      ground (arith, finish-Ended a c ext.finished_at w over h)

  try_action-Ended :
      {A : Type 0} (attempt : Option Attempt) (m : Action Tables A)
      (next : A → Action Tables Response) (w : World Tables)
      → Ready workspace_id schedule_id attempt (m w).1
      → ((a : A) → Ended schedule_id (next a (m w).1).1)
      → Ended schedule_id (try_action ext workspace_id user_id attempt m next w).1
  unfolding try_action
  try_action-Ended attempt m next w h k = or_fail-Ended attempt (m w).0 next (m w).1 h (λ a e. k a)

  publish_row-Ended :
      (attempt : Option Attempt) (row : Publication) (account : Option Uuid) (w : World Tables)
      → Ready workspace_id schedule_id attempt w
      → Ended schedule_id (publish_row ext workspace_id user_id attempt row account w).1
  unfolding publish_row
  publish_row-Ended attempt row account w h =
      let w' = (mark_publishing row ext.started_at w).1 in
      let h' = mark-Ready attempt row ext.started_at w h in
      try_action-Ended attempt (mark_publishing row ext.started_at)
        (λ row'.
          let p = ext.publish row' account in
          try_action ext workspace_id user_id attempt
            (complete_publication row' (completion ext workspace_id user_id attempt p)
              ext.finished_at)
            (λ done. conclude ext workspace_id user_id attempt p))
        w h'
        λ row'.
          let p = ext.publish row' account in
          let c = completion ext workspace_id user_id attempt p in
          let h'' = complete-Ready attempt row' c ext.finished_at w' h' in
          try_action-Ended attempt (complete_publication row' c ext.finished_at)
            (λ done. conclude ext workspace_id user_id attempt p) w' h''
            (λ done. conclude-Ended attempt p _ h'')

  apply_cookies-Ended :
      (attempt : Option Attempt) (row : Publication) (account : Option Uuid) (w : World Tables)
      → Ready workspace_id schedule_id attempt w
      → Ended schedule_id (apply_cookies ext workspace_id user_id attempt row account w).1
  unfolding apply_cookies
  apply_cookies-Ended attempt row none w h = ground (
    arith,
    publish_row-Ended attempt row none w h,
    fail_attempt-Ended attempt invalid_platform_account w h,
  )
  apply_cookies-Ended attempt row (some a) w h =
      elim (Result-cases (ext.apply_saved_cookies user_id row.platform a)) [
        | inl (u, e) ↦ ground (arith, publish_row-Ended attempt row (some a) w h, e)
        | inr (x, e) ↦
            ground (
              arith,
              publish_row-Ended attempt row (some a) w h,
              fail_attempt-Ended attempt x w h,
              e,
            )
      ]

  find_account-Ended :
      (attempt : Option Attempt) (row : Publication) (account : Option Uuid) (w : World Tables)
      → ((id : Uuid) → is_ok (ext.find_account id workspace_id) ≡ true)
      → Ready workspace_id schedule_id attempt w
      → Ended schedule_id (find_account ext workspace_id user_id attempt row account w).1
  unfolding find_account
  find_account-Ended attempt row none w found h = apply_cookies-Ended attempt row none w h
  find_account-Ended attempt row (some id) w found h =
      elim (Result-cases (ext.find_account id workspace_id)) [
        | inl (a, f) ↦ rw (f, find_account) (apply_cookies-Ended attempt row (some a) w h)
        | inr (x, f) ↦ ground (arith, f, found id)
      ]

  with_account-Ended :
      (attempt : Option Attempt) (row : Publication) (w : World Tables)
      → ((id : Uuid) → is_ok (ext.find_account id workspace_id) ≡ true)
      → Ready workspace_id schedule_id attempt w
      → Ended schedule_id (with_account ext workspace_id user_id attempt row w).1
  unfolding with_account
  with_account-Ended attempt row w found h =
      find_account-Ended attempt row (real_id row.platform_account_id) w found h

  prepared-Ended :
      (attempt : Option Attempt) (project : Project) (row : Publication) (w : World Tables)
      → ((id : Uuid) → is_ok (ext.find_account id workspace_id) ≡ true)
      → Ready workspace_id schedule_id attempt w
      → Ended schedule_id
          (or_fail ext workspace_id user_id attempt
            (ext.prepare_media_refs project row)
            (with_account ext workspace_id user_id attempt)
            w).1
  prepared-Ended attempt project row w found h =
      or_fail-Ended attempt (ext.prepare_media_refs project row)
        (with_account ext workspace_id user_id attempt) w h
        (λ row' e. with_account-Ended attempt row' w found h)

  pub publish_started-Ended :
      (attempt : Option Attempt) (project : Project) (row : Publication) (w : World Tables)
      → ((id : Uuid) → is_ok (ext.find_account id workspace_id) ≡ true)
      → Ready workspace_id schedule_id attempt w
      → Ended schedule_id (publish_started ext workspace_id user_id attempt project row w).1
  unfolding publish_started
  publish_started-Ended attempt project row w found h =
      elim (Result-cases (ext.get_publisher row.platform)) [
        | inr (x, e) ↦ rw e (fail_attempt-Ended attempt x w h)
        | inl (u, e) ↦ elim (Bool-cases (needs_sync row)) [
          | inl n ↦ rw e (rw n (fail_attempt-Ended attempt publication_requires_sync w h))
          | inr n ↦ elim (Result-cases (credentials (ext.apply_saved_credentials user_id row))) [
            | inr (x, f) ↦ rw e (rw n (rw f (fail_attempt-Ended attempt x w h)))
            | inl (row', f) ↦ rw e (rw n (rw f (prepared-Ended attempt project row' w found h)))
          ]
        ]
      ]
