-- ===== src/Publish/Replay/Newest.antt =====
-- Which event a replay shows.
use multi_plantform_poster.Base.{
  ◌⊎◌, ◌<◌, not, ◌||◌, refl, ◌≡◌, subst, Option-cases, keep_if, inl, inr, Bool, true, false, some,
  List, [], ◌∷◌, arith, Bool-cases, All, if◌then◌else◌,
}
use multi_plantform_poster.Publish.Queue.{PublishEvent, queued, started, failed, succeeded}
use multi_plantform_poster.Publish.Replay.{
  publish_event_replay_rank, publish_event_newer_for_replay, replay, latest, comes_first,
}

newer_order :
    (a b c : PublishEvent)
    → publish_event_newer_for_replay a b ≡ true
    → publish_event_newer_for_replay c b ≡ false
    → publish_event_newer_for_replay c a ≡ false
unfolding publish_event_newer_for_replay
newer_order a b c h k = ground arith

All-still :
    (cs : List PublishEvent) (a b : PublishEvent)
    → publish_event_newer_for_replay a b ≡ true
    → All (λ c. publish_event_newer_for_replay c b ≡ false) cs
    → All (λ c. publish_event_newer_for_replay c a ≡ false) cs
All-still [] a b h k = tt
All-still (c ∷ cs) a b h k = (newer_order a b c h k.0, All-still cs a b h k.1)

newer_irreflexive : (a : PublishEvent) → publish_event_newer_for_replay a a ≡ false
unfolding publish_event_newer_for_replay
newer_irreflexive a = ground arith

-- Neither the event `q` nor one of the others is newer than the one shown.
abbrev pub IsNewest : PublishEvent → List PublishEvent → PublishEvent → Type 0
IsNewest q es shown =
    (publish_event_newer_for_replay q shown ≡ false)
    × All (λ e. publish_event_newer_for_replay e shown ≡ false) es

IsNewest-step :
    (q e : PublishEvent) (es : List PublishEvent) (shown : PublishEvent)
    → IsNewest q es shown
    → IsNewest q (e ∷ es) (if publish_event_newer_for_replay e shown then e else shown)
IsNewest-step q e es shown (first, others) =
    let chosen = if publish_event_newer_for_replay e shown then e else shown in
    elim (Bool-cases (publish_event_newer_for_replay e shown)) [
      | inl h ↦
          let same : e ≡ chosen = ground arith in
          subst (λ x. IsNewest q (e ∷ es) x) same
            (newer_order e shown q h first, (newer_irreflexive e, All-still es e shown h others))
      | inr h ↦
          let same : shown ≡ chosen = ground arith in
          subst (λ x. IsNewest q (e ∷ es) x) same (first, (h, others))
    ]

replay-IsNewest : (q : PublishEvent) (es : List PublishEvent) → IsNewest q es (replay q es)
unfolding replay
replay-IsNewest q [] = (newer_irreflexive q, tt)
replay-IsNewest q (e ∷ es) = IsNewest-step q e es (replay q es) (replay-IsNewest q es)

-- The event is one of the list.
abbrev pub IsOne : PublishEvent → List PublishEvent → Type 0
IsOne e [] = ⊥
IsOne e (x ∷ xs) = (e ≡ x) ⊎ IsOne e xs

IsOne-chosen :
    (newer : Bool) (q e shown : PublishEvent) (es : List PublishEvent)
    → IsOne shown (q ∷ es)
    → IsOne (if newer then e else shown) (q ∷ (e ∷ es))
IsOne-chosen true q e shown es h = inr (inl refl)
IsOne-chosen false q e shown es (inl same) = inl same
IsOne-chosen false q e shown es (inr other) = inr (inr other)

replay-IsOne : (q : PublishEvent) (es : List PublishEvent) → IsOne (replay q es) (q ∷ es)
unfolding replay
replay-IsOne q [] = inl refl
replay-IsOne q (e ∷ es) =
    IsOne-chosen (publish_event_newer_for_replay e (replay q es)) q e (replay q es) es
      (replay-IsOne q es)

-- The job of the event has ended; it is at work; it waits in the queue.
abbrev pub is_ended : PublishEvent → Bool
is_ended e = elim e.event_type [ succeeded ↦ true | failed ↦ true | _ ↦ false ]

abbrev pub is_at_work : PublishEvent → Bool
is_at_work e = elim e.event_type [ started ↦ true | _ ↦ false ]

abbrev pub is_waiting : PublishEvent → Bool
is_waiting e = elim e.event_type [ queued ↦ true | _ ↦ false ]

-- The event is earlier than the one shown, or of the same time and no further on: if it tells of an
-- end, so does the one shown, and if it tells of the work, that one tells of the work or an end; and
-- if it tells of the queue, that one is no mere request.
abbrev pub IsBehind : PublishEvent → PublishEvent → Type 0
IsBehind shown e =
    (e.created_at < shown.created_at)
    ⊎ ((e.created_at ≡ shown.created_at)
        × (not (is_ended e) || is_ended shown ≡ true)
        × (not (is_at_work e) || (is_at_work shown || is_ended shown) ≡ true)
        × (not (is_waiting e) || (is_waiting shown || (is_at_work shown || is_ended shown)) ≡ true))

-- One of the events, and none of them is ahead of it.
abbrev pub IsFinal : List PublishEvent → PublishEvent → Type 0
IsFinal es shown = IsOne shown es × All (IsBehind shown) es

IsBehind-newer :
    (shown e : PublishEvent) → publish_event_newer_for_replay e shown ≡ false → IsBehind shown e
unfolding publish_event_newer_for_replay publish_event_replay_rank
IsBehind-newer shown e h = ground (arith, h)

All-IsBehind :
    (shown : PublishEvent) (es : List PublishEvent)
    → All (λ e. publish_event_newer_for_replay e shown ≡ false) es
    → All (IsBehind shown) es
All-IsBehind shown [] h = tt
All-IsBehind shown (e ∷ es) h = (IsBehind-newer shown e h.0, All-IsBehind shown es h.1)

-- The event that a replay shows is the queued one or one of the job, and none of them is ahead of it:
-- each is earlier, or of the same time and no further on. So where an event of the last time tells
-- that the job succeeded or failed, the event shown does so too.
pub replay-IsFinal : (q : PublishEvent) (es : List PublishEvent) → IsFinal (q ∷ es) (replay q es)
replay-IsFinal q es =
    let (first, others) = replay-IsNewest q es in
    (
      replay-IsOne q es,
      (IsBehind-newer (replay q es) q first, All-IsBehind (replay q es) es others),
    )

-- The events that pass the test come behind this one in the order of the query.
abbrev pub AreBehind :
    (PublishEvent → PublishEvent → Bool)
    → PublishEvent
    → (PublishEvent → Bool)
    → List PublishEvent
    → Type 0
AreBehind has_smaller_id e p es = All (λ o. not (p o) || comes_first has_smaller_id e o ≡ true) es

module _ (has_smaller_id : PublishEvent → PublishEvent → Bool) where
  latest-behind :
      (p : PublishEvent → Bool) (e : PublishEvent) (es : List PublishEvent) {o : PublishEvent}
      → AreBehind has_smaller_id e p es
      → latest has_smaller_id (keep_if p es) ≡ some o
      → comes_first has_smaller_id e o ≡ true
  unfolding latest
  latest-behind p e [] h found = cc
  latest-behind p e (x ∷ es) {o} h found = elim (Bool-cases (p x)) [
    | inr out ↦ latest-behind p e es {o = o} h.1 (ground (arith, out, found))
    | inl in_it ↦ elim (Option-cases (latest has_smaller_id (keep_if p es))) [
      | inl none_there ↦ ground (arith, h.0, in_it, none_there, found)
      | inr (o', others) ↦
          ground (arith, h.0, in_it, others, found, latest-behind p e es {o = o'} h.1 others)
    ]
  ]

  -- An event behind which all others of those that pass a test come is the first of them.
  pub latest-first :
      (p : PublishEvent → Bool) (e : PublishEvent) (es : List PublishEvent)
      → p e ≡ true
      → AreBehind has_smaller_id e p es
      → latest has_smaller_id (keep_if p (e ∷ es)) ≡ some e
  unfolding latest
  latest-first p e es h past = elim (Option-cases (latest has_smaller_id (keep_if p es))) [
    | inl none_there ↦ rw (h, none_there) refl
    | inr (o, found) ↦ rw (h, found, latest-behind p e es {o = o} past found) refl
  ]
