-- ===== src/Publish/Replay/Reading.antt =====
-- A look for an earlier request changes nothing.
use multi_plantform_poster.Base.{◌≡◌, Option, none, some, [], arith}
use multi_plantform_poster.Base.Text.{Text}
use multi_plantform_poster.Store.{World, pure, raise, query, ◌>>=◌}
use multi_plantform_poster.Store.Rules.{Keeps}
use multi_plantform_poster.Access.{Uuid}
use multi_plantform_poster.Publish.Queue.{PublishEvent, State, Setting}
use multi_plantform_poster.Publish.Replay.{
  find_idempotent_publish_response, wait_for_idempotent_publish_response, replay_queued, polled,
}

module _ (s : Setting) (ws pid : Uuid) (platform : Text) (user : Uuid) where
  replay_reads :
      (key : Text) (q : Option PublishEvent) (w : World (State s.redis.Keys))
      → (replay_queued s ws pid platform user key q w).1.tables ≡ w.tables
  unfolding replay_queued query pure ◌>>=◌
  replay_reads key none w = ground arith
  replay_reads key (some q) w = ground arith

  pub find_reads :
      (key : Text) (w : World (State s.redis.Keys))
      → (find_idempotent_publish_response s ws pid platform user key w).1.tables ≡ w.tables
  unfolding find_idempotent_publish_response query pure ◌>>=◌
  find_reads key w = ground (arith, replay_reads key)

  pub wait_reads :
      (key : Text) (w : World (State s.redis.Keys))
      → (wait_for_idempotent_publish_response s ws pid platform user key [] w).1.tables ≡ w.tables
  unfolding wait_for_idempotent_publish_response polled pure raise
  wait_reads key w = ground (arith, find_reads key w)

  pub find-Keeps :
      (P : State s.redis.Keys → Type 0) (key : Text)
      → Keeps P (find_idempotent_publish_response s ws pid platform user key)
  find-Keeps P key = record { at = λ w h. rw (find_reads key w) h }

  pub wait-Keeps :
      (P : State s.redis.Keys → Type 0) (key : Text)
      → Keeps P (wait_for_idempotent_publish_response s ws pid platform user key [])
  wait-Keeps P key = record { at = λ w h. rw (wait_reads key w) h }
