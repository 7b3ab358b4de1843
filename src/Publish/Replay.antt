-- ===== src/Publish/Replay.antt =====
-- The replay of an idempotent request: findIdempotentPublishResponseForWorkspace and
-- waitForIdempotentPublishResponseForWorkspace of backend/internal/services/publish/service.go. Of
-- events with the same time `First` takes the one with the smallest id.
pub mod Newest
pub mod Reading
pub mod Answering
use multi_plantform_poster.Base.{
  ℕ, Bool, true, false, ◌&&◌, ◌||◌, Option, none, some, List, [], ◌∷◌, ◌==◌, leb, ltb,
  if◌then◌else◌, keep_if,
}
use multi_plantform_poster.Base.Text.{Text, text_eq}
use multi_plantform_poster.Store.{Result, ok, err, Error, World, Action, pure, raise, query, ◌>>=◌}
use multi_plantform_poster.Access.{Uuid}
use multi_plantform_poster.Publish.{PublicationStatus, in_scope}
use multi_plantform_poster.Publish.Queue.{
  EventType, requested, queued, started, failed, succeeded, PublishEvent, State, Setting,
  Coordinated, is_blank,
}

-- PublishResponse, without the fields that are never filled here; ids stand for their texts.
pub record JobResponse : Type 0 where
  pub status : PublicationStatus
  pub platform : Text
  pub remote_id : Text
  pub publish_url : Text
  pub error_message : Text
  pub job_id : Option Uuid
  pub idempotency_key : Text
  pub queued_at : Option ℕ
  pub scheduled_publication_id : Option Uuid
  pub scheduled_at : Option ℕ

-- publishEventReplayRank
unfoldable pub publish_event_replay_rank : EventType → ℕ
publish_event_replay_rank succeeded = 4
publish_event_replay_rank failed = 4
publish_event_replay_rank started = 3
publish_event_replay_rank queued = 2
publish_event_replay_rank requested = 1

-- publishEventNewerForReplay
unfoldable pub publish_event_newer_for_replay : PublishEvent → PublishEvent → Bool
unfolding publish_event_replay_rank
publish_event_newer_for_replay candidate current =
    if ltb current.created_at candidate.created_at
    then true
    else if ltb candidate.created_at current.created_at
    then false
    else ltb (publish_event_replay_rank current.event_type)
        (publish_event_replay_rank candidate.event_type)

-- ORDER BY created_at DESC, id
abbrev pub comes_first : (PublishEvent → PublishEvent → Bool) → PublishEvent → PublishEvent → Bool
comes_first has_smaller_id e o =
    ltb o.created_at e.created_at || (e.created_at == o.created_at && has_smaller_id e o)

abbrev later :
    (PublishEvent → PublishEvent → Bool) → PublishEvent → Option PublishEvent → Option PublishEvent
later has_smaller_id e none = some e
later has_smaller_id e (some o) = if comes_first has_smaller_id e o then some e else some o

-- The first of them in that order.
unfoldable pub latest :
    (PublishEvent → PublishEvent → Bool) → List PublishEvent → Option PublishEvent
latest has_smaller_id [] = none
latest has_smaller_id (e ∷ es) = later has_smaller_id e (latest has_smaller_id es)

-- The loop over the events of the job, the oldest of which stands last.
unfoldable pub replay : PublishEvent → List PublishEvent → PublishEvent
unfolding publish_event_newer_for_replay
replay q [] = q
replay q (e ∷ es) =
    let event = replay q es in if publish_event_newer_for_replay e event then e else event

-- The part of the conditions that both queries share.
abbrev of_request : Uuid → Uuid → Text → Uuid → PublishEvent → Bool
of_request workspace_id project_id platform user_id e =
    in_scope workspace_id e.workspace_id
    && ((e.project_id == project_id) && (text_eq e.platform platform && (e.user_id == user_id)))

abbrev is_queued : EventType → Bool
is_queued queued = true
is_queued _ = false

abbrev pub is_queued_with : Uuid → Uuid → Text → Uuid → Text → PublishEvent → Bool
is_queued_with workspace_id project_id platform user_id key e =
    of_request workspace_id project_id platform user_id e
    && (text_eq e.idempotency_key key && is_queued e.event_type)

abbrev pub is_of_job : Uuid → Uuid → Text → Uuid → Uuid → PublishEvent → Bool
is_of_job workspace_id project_id platform user_id job_id e =
    of_request workspace_id project_id platform user_id e && (e.job_id == job_id)

abbrev pub response_of : Text → Text → PublishEvent → PublishEvent → JobResponse
response_of key platform queued_event event = record {
  status = event.status;
  platform = platform;
  remote_id = event.remote_id;
  publish_url = event.publish_url;
  error_message = event.error_message;
  job_id = some queued_event.job_id;
  idempotency_key = key;
  queued_at = some queued_event.created_at;
  scheduled_publication_id = none;
  scheduled_at = none;
}

module _ (s : Setting) (workspace_id project_id : Uuid) (platform : Text) (user_id : Uuid) where
  replay_queued : Text → Option PublishEvent → Coordinated s (Option JobResponse)
  unfolding replay
  replay_queued key none = pure none
  replay_queued key (some q) = do
    events ←
        query
          (λ t. ok (keep_if (is_of_job workspace_id project_id platform user_id q.job_id) t.events))
    pure (some (response_of key platform q (replay q events)))

  -- findIdempotentPublishResponseForWorkspace, on a database with the table.
  unfoldable pub find_idempotent_publish_response : Text → Coordinated s (Option JobResponse)
  unfolding replay_queued latest
  find_idempotent_publish_response key = if is_blank key then pure none else do
    found ← query (λ t. ok (
        latest s.has_smaller_id
          (keep_if (is_queued_with workspace_id project_id platform user_id key) t.events)))
    replay_queued key found

  -- waitForIdempotentPublishResponseForWorkspace: what others do to the state between two polls, as
  -- far as the deadline lets it poll.
  polled :
      Result (Option JobResponse)
      → Coordinated s (Option JobResponse)
      → Coordinated s (Option JobResponse)
  polled (err e) next = raise e
  polled (ok (some r)) next = pure (some r)
  polled (ok none) next = next

  unfoldable pub wait_for_idempotent_publish_response :
      Text → List (State s.redis.Keys → State s.redis.Keys) → Coordinated s (Option JobResponse)
  unfolding polled find_idempotent_publish_response
  wait_for_idempotent_publish_response key [] w =
      let (r, w') = find_idempotent_publish_response key w in polled r (pure none) w'
  wait_for_idempotent_publish_response key (others ∷ rest) w =
      let (r, w') = find_idempotent_publish_response key w in
      polled r
        (λ v. wait_for_idempotent_publish_response key rest (record v { tables = others v.tables }))
        w'
