-- ===== src/Tests/Dispatching.antt =====
-- The outbox, and the streams that the gate lets through.
use multi_plantform_poster.Base.{
  pos, negsuc, ℕ, ◌+◌, ◌≡◌, refl, true, none, some, List, [], ◌∷◌, ◌==◌, ◌≤◌, ◌<◌, arith,
  if◌then◌else◌,
}
use multi_plantform_poster.Base.Text.{Text, codes, text_eq}
use multi_plantform_poster.Store.{World, pure, raise, query, execute, ◌>>=◌}
use multi_plantform_poster.Resilience.Breaker.{second}
use multi_plantform_poster.Publish.Outbox.{
  OutboxEvent, Outbox, pending, dispatched, claimed_event, claim_timeout, max_backoff,
  claim_outbox_event, mark_outbox_event_dispatched, mark_outbox_event_failed, outbox_retry_backoff,
  Call, claims, marks_failed, perform_all,
}
use multi_plantform_poster.Publish.Outbox.Claims.{
  claimed, claim_exclusive, stale_claim, dispatched_final, outbox_retry_backoff_bounds,
}
use multi_plantform_poster.StreamGate.{
  Limits, Config, AcquireRequest, Store, user, acquire, acquire_memory, limits_for, prune, put,
  release, full_scope, run, acquires, releases,
}
use multi_plantform_poster.StreamGate.Bounds.{
  IsBounded, limit_of, count_of, run_from_empty, acquire_refused,
}

abbrev event : OutboxEvent
event = record {
  is_publish_job = true;
  payload = none;
  status = pending;
  attempts = 0;
  next_attempt_at = none;
  processed_at = none;
  error_message = [];
  updated_at = 0;
}

abbrev start : World Outbox
start = record { tables = λ j. if j == 1 then some event else none; faults = [] }

abbrev first_claim : World Outbox
first_claim = (claim_outbox_event 1 5 start).1

claim_exclusive_example :
    (claimed (claim_outbox_event 1 6 first_claim).0 ≡ none)
    × ((claim_outbox_event 1 6 first_claim).1.tables ≡ first_claim.tables)
unfolding claim_outbox_event ◌>>=◌ execute query pure raise
claim_exclusive_example =
    claim_exclusive 1 5 6 start first_claim (claimed_event 5 event) refl refl (omega arith)

abbrev late : ℕ
late = 5 + claim_timeout

abbrev second_claim : World Outbox
second_claim = (claim_outbox_event 1 late (perform_all [] first_claim)).1

stale_claim_example :
    ((mark_outbox_event_dispatched 1 (claimed_event 5 event) late second_claim).1.tables
      ≡ second_claim.tables)
    × ((mark_outbox_event_failed 1 (claimed_event 5 event) [] late second_claim).1.tables
        ≡ second_claim.tables)
unfolding claim_outbox_event ◌>>=◌ execute query pure raise perform_all
stale_claim_example =
    stale_claim 1 5 late late start [] (claimed_event 5 event)
      (claimed_event late (claimed_event 5 event)) [] refl refl

abbrev over : OutboxEvent
over = record event { status = dispatched }

abbrev over_world : World Outbox
over_world = record { tables = λ j. some over; faults = [] }

abbrev marks : List Call
marks = claims 1 9 ∷ marks_failed 1 over [] 9 ∷ []

dispatched_final_example : (perform_all marks over_world).tables 1 ≡ some over
dispatched_final_example = dispatched_final 1 over marks over_world refl refl

outbox_retry_backoff_bounds_example :
    (a : ℕ) × (b : ℕ) × (outbox_retry_backoff 2 ≡ pos a)
    × (outbox_retry_backoff 400 ≡ pos b)
    × (second ≤ a)
    × (a ≤ b)
    × (b ≤ max_backoff)
outbox_retry_backoff_bounds_example = outbox_retry_backoff_bounds 2 400 (omega arith) (omega arith)

backoff_wraps : outbox_retry_backoff 9223372037 ≡ negsuc 9223372036709551615
unfolding outbox_retry_backoff
backoff_wraps = refl

abbrev limits : Limits
limits = record { user = 1; tenant = 0; ip = 2; global = 3; ttl = 100 }

abbrev config : Config
config = record { enabled = true; prefix = codes "mpp:stream"; ai = limits; browser = limits }

abbrev request : AcquireRequest
request = record { kind = codes "ai"; user_id = 1; tenant_id = []; ip = codes "::1" }

abbrev same_ip : Text → Text
same_ip ip = ip

abbrev opened : Store
opened = (acquire same_ip config request (some 7) 10 []).0

run_from_empty_example : IsBounded config (
    run same_ip config []
      (acquires request (some 7) 10 ∷ acquires request (some 8) 11 ∷ releases 7 ∷ []))
run_from_empty_example =
    run_from_empty same_ip config
      (acquires request (some 7) 10 ∷ acquires request (some 8) 11 ∷ releases 7 ∷ [])

acquire_refused_example :
    (0 < limit_of (limits_for config request.kind) user)
    × (limit_of (limits_for config request.kind) user
        ≤ count_of request (same_ip request.ip) (prune 11 opened) user)
    × ((acquire same_ip config request (some 8) 11 opened).0 ≡ prune 11 opened)
unfolding acquire acquire_memory limits_for prune put release full_scope text_eq
acquire_refused_example = acquire_refused same_ip config request (some 8) 11 opened user refl
