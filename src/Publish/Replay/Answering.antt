-- ===== src/Publish/Replay/Answering.antt =====
-- The answer of a replay.
use multi_plantform_poster.Base.{◌≡◌, refl, true, false, some, List, [], ◌∷◌, arith, keep_if}
use multi_plantform_poster.Base.Text.{Text, text_eq, trim_space}
use multi_plantform_poster.Store.{ok, World, pure, query, ◌>>=◌}
use multi_plantform_poster.Access.{Uuid}
use multi_plantform_poster.Publish.Queue.{PublishEvent, State, Setting}
use multi_plantform_poster.Publish.Replay.{
  JobResponse, find_idempotent_publish_response, latest, replay, replay_queued, is_queued_with,
  response_of, is_of_job,
}
use multi_plantform_poster.Publish.Replay.Newest.{AreBehind, latest-first}

module _ (s : Setting) where
  -- The look for an earlier request finds the event behind which all others with the key come.
  pub find_first :
      (project_id ws : Uuid) (platform : Text) (user : Uuid) (key : Text) (q : PublishEvent)
      (es : List PublishEvent) (w : World (State s.redis.Keys))
      → text_eq (trim_space key) [] ≡ false
      → w.faults ≡ []
      → w.tables.events ≡ q ∷ es
      → AreBehind s.has_smaller_id q (is_queued_with ws project_id platform user key) es
      → is_queued_with ws project_id platform user key q ≡ true
      → let (r, w') = find_idempotent_publish_response s ws project_id platform user key w in
        (w'.faults ≡ [])
        × (w'.tables ≡ w.tables)
        × ((found : JobResponse) × (r ≡ ok (some found)) × (found.job_id ≡ some q.job_id))
  unfolding find_idempotent_publish_response replay_queued query ◌>>=◌ pure
  find_first project_id ws platform user key q es w named calm events past matches =
      let test = is_queued_with ws project_id platform user key in
      let lookup : latest s.has_smaller_id (keep_if test w.tables.events) ≡ some q =
        rw events (latest-first s.has_smaller_id test q es matches past) in
      let shown =
        replay q (keep_if (is_of_job ws project_id platform user q.job_id) w.tables.events) in
      (
        ground (arith, lookup),
        ground (arith, lookup),
        (response_of key platform q shown, ground (arith, lookup), refl),
      )
