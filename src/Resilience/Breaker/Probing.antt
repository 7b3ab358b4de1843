-- ===== src/Resilience/Breaker/Probing.antt =====
-- Who gets through a breaker that is not closed.
use multi_plantform_poster.Base.{
  ℕ, ◌+◌, ◌≤◌, ◌≡◌, refl, ◌≢◌, Bool, true, false, List, [], ◌∷◌, arith, leb, exists_if,
}
use multi_plantform_poster.Resilience.Breaker.{
  CircuitBreaker, circuit_closed, circuit_open, circuit_half_open, allow, record_result, admitted,
}
use multi_plantform_poster.Resilience.Breaker.Invariant.{IsSound}

admitted-probing :
    (b : CircuitBreaker) (times : List ℕ)
    → b.state ≡ circuit_half_open
    → b.half_open_in_flight ≡ true
    → admitted b times ≡ 0
unfolding admitted allow
admitted-probing b [] h f = refl
admitted-probing b (t ∷ ts) h f = ground (arith, admitted-probing b ts)

abbrev pub is_due : CircuitBreaker → ℕ → Bool
is_due b now = leb (b.opened_at + b.open_after) now

abbrev pub one_if : Bool → ℕ
one_if true = 1
one_if false = 0

-- While nothing is recorded, an open breaker lets exactly one caller through if some caller asks
-- when the cool-down is over, and none if every caller asks earlier.
admitted-open :
    (b : CircuitBreaker) (times : List ℕ)
    → b.state ≡ circuit_open
    → admitted b times ≡ one_if (exists_if (is_due b) times)
unfolding admitted allow
admitted-open b [] h = refl
admitted-open b (t ∷ ts) h = ground (arith, admitted-open b ts, admitted-probing (allow t b).0 ts)

-- Between two records, a breaker that is not closed lets at most one caller through.
pub admitted-le-one :
    (b : CircuitBreaker) (times : List ℕ)
    → IsSound b
    → b.state ≢ circuit_closed
    → admitted b times ≤ 1
admitted-le-one b times h n = ground (arith, admitted-open b times, admitted-probing b times)

-- A probe decides: recorded as a success it closes the breaker and forgets the failures, recorded
-- as a failure it opens it again, and the cool-down starts anew.
probe_decides :
    (b : CircuitBreaker) (asked done : ℕ)
    → b.state ≡ circuit_open
    → b.opened_at + b.open_after ≤ asked
    → let p = (allow asked b).0 in
      ((record_result done true p).state ≡ circuit_closed)
      × ((record_result done true p).failures ≡ 0)
      × ((record_result done false p).state ≡ circuit_open)
      × ((record_result done false p).opened_at ≡ done)
unfolding allow record_result
probe_decides b asked done h due = ground arith
