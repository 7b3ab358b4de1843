-- ===== src/Publish/Lifecycle/Attempts.antt =====
-- Publish attempts: one at a time for a schedule, numbered 1, 2, 3, …, and over once finished.
use multi_plantform_poster.Base.{
  ℕ, ◌+◌, ◌≡◌, refl, ap, ◌∙◌, subst, ◌⊎◌, inl, inr, Bool, true, false, Option, none, some, List, [],
  ◌∷◌, arith, ◌==◌, count_if, update_if, Bool-cases, not, ◌&&◌, ◌||◌, is_some,
}
use multi_plantform_poster.Store.{
  Result, ok, err, is_ok, World, Result-cases, pure, raise, query, execute, transaction, rescue,
  ◌>>=◌,
}
use multi_plantform_poster.Store.Rules.{
  Keeps, Keeps-pure, Keeps-execute, Keeps-transaction, Keeps-bind, transaction-ok,
  transaction_atomic,
}
use multi_plantform_poster.Access.{Uuid, is_nil}
use multi_plantform_poster.Publish.{ScheduleStatus, AttemptStatus, Schedule, Attempt, Tables}
use multi_plantform_poster.Publish.Lifecycle.{
  AttemptCompletion, schedule_in, last_attempt_no, not_started, start_rest, start_body,
  start_publish_attempt, finish_publish_attempt, finish_row, is_succeeded,
}

-- The attempts of each schedule, newest first, are numbered down to 1 without a gap.
abbrev pub Numbered : List Attempt → Type 0
Numbered [] = Unit {0}
Numbered (a ∷ as') = (a.attempt_no ≡ last_attempt_no a.schedule_id as' + 1) × Numbered as'

abbrev pub IsNumbered : Tables → Type 0
IsNumbered t = Numbered t.attempts

-- So the last number of a schedule is how many attempts it has.
pub last_attempt_no-count :
    (schedule_id : Uuid) (as' : List Attempt)
    → Numbered as'
    → last_attempt_no schedule_id as' ≡ count_if (λ a. a.schedule_id == schedule_id) as'
unfolding last_attempt_no
last_attempt_no-count s [] h = refl
last_attempt_no-count s (a ∷ as') h = elim (Bool-cases (a.schedule_id == s)) [
  | inl e ↦
      let e' : a.schedule_id ≡ s = ground arith in
      ground (
        arith,
        subst (λ v. a.attempt_no ≡ last_attempt_no v as' + 1) e' h.0,
        last_attempt_no-count s as' h.1,
      )
  | inr e ↦ rw e (last_attempt_no-count s as' h.1)
]

last_attempt_no-finish :
    (s : Uuid) (test : Attempt → Bool) (c : AttemptCompletion) (now : ℕ) (as' : List Attempt)
    → last_attempt_no s (update_if test (finish_row c now) as') ≡ last_attempt_no s as'
unfolding last_attempt_no
last_attempt_no-finish s test c now [] = refl
last_attempt_no-finish s test c now (a ∷ as') =
    ground (arith, last_attempt_no-finish s test c now as')

finish-Numbered :
    (test : Attempt → Bool) (c : AttemptCompletion) (now : ℕ) (as' : List Attempt)
    → Numbered as'
    → Numbered (update_if test (finish_row c now) as')
finish-Numbered test c now [] h = tt
finish-Numbered test c now (a ∷ as') h =
    ground
      (arith, last_attempt_no-finish a.schedule_id test c now as', finish-Numbered test c now as')

-- What a call starts, if it starts an attempt.
abbrev pub started : Result (Option Attempt) → Option Attempt
started (ok a) = a
started (err e) = none

abbrev pub is_running : Option Schedule → Bool
is_running none = false
is_running (some s) = elim s.status [ ScheduleStatus.running ↦ true | _ ↦ false ]

-- What holds of the tables `t` after the attempt `a` was started from the tables `t₀`.
pub record Started (schedule_id : Uuid) (t₀ t : Tables) (a : Attempt) : Type 0 where
  pub of_schedule : a.schedule_id ≡ schedule_id
  pub numbered : a.attempt_no ≡ last_attempt_no schedule_id t₀.attempts + 1
  pub attempts : t.attempts ≡ a ∷ t₀.attempts
  pub running : is_running (t.schedules schedule_id) ≡ true

module _ (id workspace_id schedule_id : Uuid) (at : ℕ) (w : World Tables) where
  start_body-Started :
      {a : Attempt}
      → (start_body id workspace_id schedule_id at w).0 ≡ ok a
      → Started schedule_id w.tables (start_body id workspace_id schedule_id at w).1.tables a
  unfolding start_body start_rest not_started ◌>>=◌ execute query pure raise
  start_body-Started h = ground arith

  start_transaction-Started :
      {a : Attempt}
      → (transaction (start_body id workspace_id schedule_id at) w).0 ≡ ok a
      → Started schedule_id w.tables
          (transaction (start_body id workspace_id schedule_id at) w).1.tables
          a
  start_transaction-Started {a} h =
      let (e, t) = transaction-ok (start_body id workspace_id schedule_id at) w h in
      rw t (start_body-Started e)

  start-Started :
      {a : Attempt}
      → (start_publish_attempt id workspace_id schedule_id at w).0 ≡ ok (some a)
      → Started schedule_id w.tables
          (start_publish_attempt id workspace_id schedule_id at w).1.tables
          a
  unfolding start_publish_attempt ◌>>=◌ rescue pure raise
  start-Started {a} h = ground (arith, start_transaction-Started {a = a})

  start_body_running :
      is_running (w.tables.schedules schedule_id) ≡ true
      → is_ok (start_body id workspace_id schedule_id at w).0 ≡ false
  unfolding start_body start_rest not_started ◌>>=◌ execute query pure raise
  start_body_running h = ground arith

  transaction_running :
      is_running (w.tables.schedules schedule_id) ≡ true
      → (is_ok (transaction (start_body id workspace_id schedule_id at) w).0 ≡ false)
        × ((transaction (start_body id workspace_id schedule_id at) w).1.tables ≡ w.tables)
  unfolding transaction
  transaction_running h = ground (arith, start_body_running h)

  pub start_running :
      is_running (w.tables.schedules schedule_id) ≡ true
      → (started (start_publish_attempt id workspace_id schedule_id at w).0 ≡ none)
        × ((start_publish_attempt id workspace_id schedule_id at w).1.tables ≡ w.tables)
  unfolding start_publish_attempt ◌>>=◌ rescue pure raise
  start_running h = ground (arith, transaction_running h)

-- An attempt that is started on numbered tables is the next one of its schedule: its number is one
-- more than the number of attempts that the schedule had. A further call on the tables that this
-- leaves, at whatever time and for whatever workspace, starts no attempt for the schedule and
-- changes no table.
pub start_excludes :
    (id id' workspace_id workspace_id' schedule_id : Uuid) (at at' : ℕ) (w w' : World Tables)
    (a : Attempt)
    → IsNumbered w.tables
    → (start_publish_attempt id workspace_id schedule_id at w).0 ≡ ok (some a)
    → w'.tables ≡ (start_publish_attempt id workspace_id schedule_id at w).1.tables
    → (a.attempt_no ≡ count_if (λ b. b.schedule_id == schedule_id) w.tables.attempts + 1)
      × (started (start_publish_attempt id' workspace_id' schedule_id at' w').0 ≡ none)
      × ((start_publish_attempt id' workspace_id' schedule_id at' w').1.tables ≡ w'.tables)
start_excludes id id' workspace_id workspace_id' schedule_id at at' w w' a n h e =
    let s = start-Started id workspace_id schedule_id at w h in
    let again = start_running id' workspace_id' schedule_id at' w' (rw e s.running) in
    (
      s.numbered ∙ ap (λ (k : ℕ). k + 1) (last_attempt_no-count schedule_id w.tables.attempts n),
      again.0,
      again.1,
    )

-- A call that starts or finishes an attempt, for whatever arguments.
pub data Call : Type 0 where
  starts : Uuid → Uuid → Uuid → ℕ → Call
  finishes : Uuid → Attempt → AttemptCompletion → ℕ → Call

unfoldable pub perform : Call → World Tables → World Tables
perform (starts id workspace_id schedule_id at) w =
    (start_publish_attempt id workspace_id schedule_id at w).1
perform (finishes workspace_id a c now) w = (finish_publish_attempt workspace_id a c now w).1

unfoldable pub perform_all : List Call → World Tables → World Tables
unfolding perform
perform_all [] w = w
perform_all (c ∷ cs) w = perform_all cs (perform c w)

module _ (id workspace_id schedule_id : Uuid) (at : ℕ) where
  start_transaction-Keeps :
      Keeps IsNumbered (transaction (start_body id workspace_id schedule_id at))
  start_transaction-Keeps = record {
    at = λ w h. elim (Result-cases (transaction (start_body id workspace_id schedule_id at) w).0) [
      | inl (a, e) ↦
          let s = start_transaction-Started id workspace_id schedule_id at w e in
          rw s.attempts (ground (arith, s.numbered, s.of_schedule), h)
      | inr (e, f) ↦ rw (transaction_atomic (start_body id workspace_id schedule_id at) w f) h
    ];
  }

  start_cases :
      (w : World Tables)
      → let t = (start_publish_attempt id workspace_id schedule_id at w).1.tables in
        (t ≡ w.tables) ⊎ (t ≡ (transaction (start_body id workspace_id schedule_id at) w).1.tables)
  unfolding start_publish_attempt ◌>>=◌ rescue pure raise
  start_cases w = ground arith

  start-Keeps : Keeps IsNumbered (start_publish_attempt id workspace_id schedule_id at)
  start-Keeps = record {
    at = λ w h. elim (start_cases w) [
      | inl e ↦ rw e h
      | inr e ↦ rw e (start_transaction-Keeps.at w h)
    ];
  }

finish-Keeps :
    (workspace_id : Uuid) (a : Attempt) (c : AttemptCompletion) (now : ℕ)
    → Keeps IsNumbered (finish_publish_attempt workspace_id a c now)
unfolding finish_publish_attempt
finish-Keeps workspace_id a c now = Keeps-transaction _ (
    Keeps-bind _ _ (Keeps-execute _ (λ t h. finish-Numbered (λ b. b.id == a.id) c now t.attempts h))
      (λ _. Keeps-bind _ _ (Keeps-execute _ (λ t h. ground arith)) (λ rows. Keeps-pure tt)))

perform-IsNumbered :
    (c : Call) (w : World Tables) → IsNumbered w.tables → IsNumbered (perform c w).tables
unfolding perform
perform-IsNumbered (starts id workspace_id schedule_id at) w h =
    (start-Keeps id workspace_id schedule_id at).at w h
perform-IsNumbered (finishes workspace_id a c now) w h = (finish-Keeps workspace_id a c now).at w h

-- Whatever attempts are started and finished, in any order, by anyone and with any statements
-- failing, the attempts of each schedule stay numbered 1, 2, 3, … in the order of their start.
pub perform_all-IsNumbered :
    (cs : List Call) (w : World Tables) → IsNumbered w.tables → IsNumbered (perform_all cs w).tables
unfolding perform_all
perform_all-IsNumbered [] w h = h
perform_all-IsNumbered (c ∷ cs) w h =
    perform_all-IsNumbered cs (perform c w) (perform-IsNumbered c w h)

abbrev pub is_open_status : AttemptStatus → Bool
is_open_status AttemptStatus.running = true
is_open_status _ = false

-- The attempt is under way: it is running, or has no time at which it was finished.
abbrev pub is_open : Attempt → Bool
is_open a = is_open_status a.status || not (is_some a.finished_at)

-- How many attempts of a schedule are under way.
abbrev pub open_attempts : Uuid → Tables → ℕ
open_attempts schedule_id t = count_if (λ a. (a.schedule_id == schedule_id) && is_open a) t.attempts

-- The schedule is not running, and none of its attempts is under way.
abbrev pub IsIdle : Uuid → Tables → Type 0
IsIdle schedule_id t =
    (is_running (t.schedules schedule_id) ≡ false) × (open_attempts schedule_id t ≡ 0)

-- How many attempts of a schedule other than this one are under way.
abbrev pub open_others : Uuid → Uuid → Tables → ℕ
open_others schedule_id id t =
    count_if (λ a. ((a.schedule_id == schedule_id) && is_open a) && not (a.id == id)) t.attempts

pub open_others_none : (s id : Uuid) (t : Tables) → open_attempts s t ≡ 0 → open_others s id t ≡ 0
open_others_none s id t h = go t.attempts h
  where
    go :
        (as' : List Attempt)
        → count_if (λ a. (a.schedule_id == s) && is_open a) as' ≡ 0
        → count_if (λ a. ((a.schedule_id == s) && is_open a) && not (a.id == id)) as' ≡ 0
    go [] h = refl
    go (a ∷ as') h = ground (arith, go as')

-- A finish of the only attempt that is under way leaves none.
pub finish-open :
    (s id : Uuid) (c : AttemptCompletion) (now : ℕ) (as' : List Attempt)
    → is_open_status c.status ≡ false
    → count_if (λ a. ((a.schedule_id == s) && is_open a) && not (a.id == id)) as' ≡ 0
    → count_if
        (λ a. (a.schedule_id == s) && is_open a)
        (update_if (λ a. a.id == id) (finish_row c now) as')
      ≡ 0
finish-open s id c now [] h k = refl
finish-open s id c now (a ∷ as') h k = ground (arith, finish-open s id c now as', h)

-- A finish that returns no error ends the attempt for its schedule, which is in the scope of the
-- workspace and whose id is not nil: the schedule is not running, and a further call on the tables that this leaves, in
-- which no statement fails, starts a new attempt for it exactly if the attempt did not succeed.
pub finish-schedule :
    (id workspace_id : Uuid) (a : Attempt) (c : AttemptCompletion) (now at : ℕ)
    (w w' : World Tables) (s : Schedule)
    → is_nil a.schedule_id ≡ false
    → schedule_in workspace_id a.schedule_id w.tables ≡ some s
    → is_ok (finish_publish_attempt workspace_id a c now w).0 ≡ true
    → w'.tables ≡ (finish_publish_attempt workspace_id a c now w).1.tables
    → w'.faults ≡ []
    → (is_running (w'.tables.schedules a.schedule_id) ≡ false)
      × (is_some (started (start_publish_attempt id workspace_id a.schedule_id at w').0)
          ≡ not (is_succeeded c.status))
unfolding finish_publish_attempt start_publish_attempt start_body start_rest not_started transaction
    ◌>>=◌ execute query pure raise rescue
finish-schedule id workspace_id a c now at w w' s n e h same calm =
    ground (arith, n, e, h, same, calm)
