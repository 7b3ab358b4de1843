-- ===== src/Publish/Queue/Resolving.antt =====
-- The workspace of a job, looked for and found.
use multi_plantform_poster.Base.{◌≡◌, refl, inl, inr, ◌==◌, not, ◌&&◌, arith, Bool-cases}
use multi_plantform_poster.Store.{
  Result, ok, err, World, pure, raise, query, outcome, ◌>>=◌, is_not_found, or_not_found,
}
use multi_plantform_poster.Access.{Uuid, is_nil, Project}
use multi_plantform_poster.Publish.{PublishJob}
use multi_plantform_poster.Publish.Service.{project_workspace_id}
use multi_plantform_poster.Publish.Queue.{
  State, Setting, in_personal_workspace, resolve, ensure_publish_job_workspace_id,
}

module _ (s : Setting) where
  -- Looking for the workspace of a job changes nothing.
  pub resolve_keeps :
      (job : PublishJob) (w : World (State s.redis.Keys))
      → (ensure_publish_job_workspace_id s job w).1.tables ≡ w.tables
  unfolding ensure_publish_job_workspace_id ◌>>=◌ outcome query pure raise
  resolve_keeps job w = ground arith

  abbrev pub AgreesWith : PublishJob → Result PublishJob → Type 0
  AgreesWith job (ok resolved) = (ws : Uuid) × (resolved ≡ record job { workspace_id = ws })
  AgreesWith job (err e) = Unit

  personal-AgreesWith : (job : PublishJob) → AgreesWith job (ok (in_personal_workspace s job))
  personal-AgreesWith job = elim (Bool-cases (is_nil job.user_id)) [
    | inl e ↦ (job.workspace_id, ground arith)
    | inr e ↦ (s.ext.personal_workspace_id job.user_id, ground arith)
  ]

  resolve-AgreesWith :
      (job : PublishJob) (r : Result Project) (w : World (State s.redis.Keys))
      → AgreesWith job (resolve s job r w).0
  unfolding pure raise
  resolve-AgreesWith job (ok p) w =
      let ws = project_workspace_id s.ext.personal_workspace_id p in
      elim (Bool-cases (not (is_nil job.workspace_id) && not (job.workspace_id == ws))) [
        | inl e ↦ rw e tt
        | inr e ↦ rw e (ws, refl)
      ]
  resolve-AgreesWith job (err e) w = elim (Bool-cases (is_not_found e)) [
    | inl b ↦ rw b (personal-AgreesWith job)
    | inr b ↦ rw b tt
  ]

  -- The job that comes back is the one that went in, in some workspace.
  pub ensure-AgreesWith :
      (job : PublishJob) (w : World (State s.redis.Keys))
      → AgreesWith job (ensure_publish_job_workspace_id s job w).0
  unfolding ensure_publish_job_workspace_id ◌>>=◌ outcome pure
  ensure-AgreesWith job w =
      let (r, w') = query (λ t. or_not_found (t.projects job.project_id)) w in
      elim (Bool-cases (is_nil job.project_id)) [
        | inl e ↦ rw e (personal-AgreesWith job)
        | inr e ↦ rw e (resolve-AgreesWith job r w')
      ]
