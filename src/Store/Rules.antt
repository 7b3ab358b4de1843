-- ===== src/Store/Rules.antt =====
-- Rules for actions on the database: a transaction is all or nothing, invariants of the tables go
-- through each way to build an action, and a successful sequence is taken apart.
use multi_plantform_poster.Base.{Bool, true, false, ◌≡◌, refl, ◌⊎◌, inl, inr, arith, if◌then◌else◌}
use multi_plantform_poster.Store.{
  Error, Result, ok, err, World, Action, pure, raise, query, execute, transaction, ◌>>=◌,
  next_fault, continue, Result-cases,
}

module _ {T A : Type 0} where
  -- A transaction that returns an error leaves the tables as it found them.
  pub transaction_atomic :
      (m : Action T A) (w : World T) {e : Error}
      → (transaction m w).0 ≡ err e
      → (transaction m w).1.tables ≡ w.tables
  unfolding transaction
  transaction_atomic m w h = ground arith

  -- One that succeeds leaves them as its body did, and returns what that returned.
  pub transaction-ok :
      (m : Action T A) (w : World T) {a : A}
      → (transaction m w).0 ≡ ok a
      → ((m w).0 ≡ ok a) × ((transaction m w).1.tables ≡ (m w).1.tables)
  unfolding transaction
  transaction-ok m w h = ground arith

  query-tables : (read : T → Result A) (w : World T) → (query read w).1.tables ≡ w.tables
  unfolding query
  query-tables read w = ground arith

  execute_cases :
      (write : T → T × A) (w : World T)
      → ((execute write w).1.tables ≡ w.tables) ⊎ ((execute write w).1.tables ≡ (write w.tables).0)
  unfolding execute
  execute_cases write w = ground arith

  transaction_cases :
      (m : Action T A) (w : World T)
      → ((transaction m w).1.tables ≡ w.tables) ⊎ ((transaction m w).1.tables ≡ (m w).1.tables)
  unfolding transaction
  transaction_cases m w = ground arith

-- `m` keeps the predicate `P` of the tables, whether it succeeds or not.
pub record Keeps {T A : Type 0} (P : T → Type 0) (m : Action T A) : Type 0 where
  pub at : (w : World T) → P w.tables → P (m w).1.tables

module _ {T A : Type 0} {P : T → Type 0} where
  pub Keeps-pure : (a : A) → Keeps P (pure a)
  unfolding pure
  Keeps-pure a = record { at = λ w h. h }

  pub Keeps-raise : (e : Error) → Keeps P (raise {A = A} e)
  unfolding raise
  Keeps-raise e = record { at = λ w h. h }

  pub Keeps-query : (read : T → Result A) → Keeps P (query read)
  Keeps-query read = record { at = λ w h. rw (query-tables read w) h }

  pub Keeps-execute :
      (write : T → T × A) → ((t : T) → P t → P (write t).0) → Keeps P (execute write)
  Keeps-execute write k = record {
    at = λ w h. elim (execute_cases write w) [ inl e ↦ rw e h | inr e ↦ rw e (k w.tables h) ];
  }

  pub Keeps-transaction : (m : Action T A) → Keeps P m → Keeps P (transaction m)
  Keeps-transaction m k = record {
    at = λ w h. elim (transaction_cases m w) [ inl e ↦ rw e h | inr e ↦ rw e (k.at w h) ];
  }

  pub Keeps-if :
      (b : Bool) (m n : Action T A) → Keeps P m → Keeps P n → Keeps P (if b then m else n)
  Keeps-if true m n km kn = km
  Keeps-if false m n km kn = kn

module _ {T A B : Type 0} {P : T → Type 0} where
  Keeps-continue :
      (r : Result A) (f : A → Action T B)
      → ((a : A) → Keeps P (f a))
      → (w : World T) → P w.tables
      → P (continue r f w).1.tables
  Keeps-continue (ok a) f kf w h = (kf a).at w h
  Keeps-continue (err e) f kf w h = h

  pub Keeps-bind :
      (m : Action T A) (f : A → Action T B)
      → Keeps P m
      → ((a : A) → Keeps P (f a))
      → Keeps P (m >>= f)
  unfolding ◌>>=◌
  Keeps-bind m f km kf = record {
    at = λ w h. let (r, w') = m w in Keeps-continue r f kf w' (km.at w h);
  }

  -- After a read, what follows may count on what the row read says of the tables.
  pub Keeps-read :
      (read : T → Result A) (f : A → Action T B)
      → ((t : T) → P t → (a : A) → read t ≡ ok a → Keeps P (f a))
      → Keeps P (query read >>= f)
  unfolding ◌>>=◌ query
  Keeps-read read f kf = record {
    at = λ w h. elim (Result-cases (read w.tables)) [
      | inl (a, e) ↦
          ground
            (arith, e, h, (kf w.tables h a e).at (record w { faults = (next_fault w.faults).1 }) h)
      | inr (x, e) ↦ ground (arith, e, h)
    ];
  }

module _ {T A B : Type 0} where
  continue-ok :
      (r : Result A) (f : A → Action T B) (w : World T) {b : B}
      → (continue r f w).0 ≡ ok b
      → (a : A) × (r ≡ ok a) × ((f a w).0 ≡ ok b) × (continue r f w ≡ f a w)
  continue-ok (ok a) f w h = (a, refl, h, refl)
  continue-ok (err e) f w h = cc

  -- A sequence that succeeds has parts that succeed.
  pub bind-ok :
      (m : Action T A) (f : A → Action T B) (w : World T) {b : B}
      → ((m >>= f) w).0 ≡ ok b
      → (a : A) × ((m w).0 ≡ ok a) × ((f a (m w).1).0 ≡ ok b) × ((m >>= f) w ≡ f a (m w).1)
  unfolding ◌>>=◌
  bind-ok m f w h = let (r, w') = m w in continue-ok r f w' h

  -- And one goes on behind a first part that succeeds.
  pub bind-first :
      (m : Action T A) (f : A → Action T B) (w : World T) {a : A}
      → (m w).0 ≡ ok a
      → (m >>= f) w ≡ f a (m w).1
  unfolding ◌>>=◌
  bind-first m f w h = rw h refl

pub ruleset keeps_rules =
    (Keeps-pure, Keeps-raise, Keeps-query, Keeps-transaction, Keeps-if, Keeps-bind)
