-- ===== src/Store/Undo.antt =====
-- Actions that, when they end in an error, leave the tables as a predicate says.
use multi_plantform_poster.Base.{Bool, true, false, ◌≡◌, refl, sym, subst, arith, if◌then◌else◌}
use multi_plantform_poster.Store.{
  Error, Result, ok, err, is_ok, World, Action, transaction, outcome, lift_then, ◌>>=◌, continue,
}
use multi_plantform_poster.Store.Rules.{Keeps, transaction_atomic}

-- Where `m` fails, it has kept `P`.
pub record Undoes {T A : Type 0} (P : T → Type 0) (m : Action T A) : Type 0 where
  pub at : (w : World T) → P w.tables → is_ok (m w).0 ≡ false → P (m w).1.tables

module _ {T A : Type 0} {P : T → Type 0} where
  pub Undoes-Keeps : (m : Action T A) → Keeps P m → Undoes P m
  Undoes-Keeps m k = record { at = λ w h e. k.at w h }

  pub Undoes-if :
      (b : Bool) (m n : Action T A) → Undoes P m → Undoes P n → Undoes P (if b then m else n)
  Undoes-if true m n km kn = km
  Undoes-if false m n km kn = kn

module _ {T A B : Type 0} {P : T → Type 0} where
  Undoes-continue :
      (r : Result A) (f : A → Action T B)
      → ((a : A) → Undoes P (f a))
      → (w : World T) → P w.tables
      → is_ok (continue r f w).0 ≡ false
      → P (continue r f w).1.tables
  Undoes-continue (ok a) f kf w h e = (kf a).at w h e
  Undoes-continue (err x) f kf w h e = h

  pub Undoes-bind :
      (m : Action T A) (f : A → Action T B)
      → Keeps P m
      → ((a : A) → Undoes P (f a))
      → Undoes P (m >>= f)
  unfolding ◌>>=◌
  Undoes-bind m f km kf = record {
    at = λ w h e. let (r, w') = m w in Undoes-continue r f kf w' (km.at w h) e;
  }

  pub Undoes-lift_then :
      (r : Result A) (f : A → Action T B) → ((a : A) → Undoes P (f a)) → Undoes P (lift_then r f)
  unfolding lift_then
  Undoes-lift_then (ok a) f kf = record { at = λ w h e. (kf a).at w h e }
  Undoes-lift_then (err x) f kf = record { at = λ w h e. h }

  undo_after :
      (f : Result A → Action T B) (r : Result A) (w : World T)
      → ((e : Error) → Undoes P (f (err e)))
      → ((a : A) (v : World T) → is_ok (f (ok a) v).0 ≡ true)
      → ((e : Error) → r ≡ err e → P w.tables)
      → is_ok (f r w).0 ≡ false
      → P (f r w).1.tables
  undo_after f (ok a) w kf total k e = ground (arith, total a w)
  undo_after f (err x) w kf total k e = (kf x).at w (k x refl) e

  -- A transaction that fails has changed nothing when its error is handed to what follows, which has
  -- to answer for its success.
  pub Undoes-transaction :
      (m : Action T A) (f : Result A → Action T B)
      → ((e : Error) → Undoes P (f (err e)))
      → ((a : A) (w : World T) → is_ok (f (ok a) w).0 ≡ true)
      → Undoes P (outcome (transaction m) >>= f)
  unfolding ◌>>=◌ outcome
  Undoes-transaction m f kf total = record {
    at = λ w h e.
        let (r, w') = transaction m w in
        undo_after f r w' kf total (λ x y. subst P (sym (transaction_atomic m w y)) h) e;
  }

module _ {T A : Type 0} {P : T → Type 0} where
  pub Keeps-outcome : (m : Action T A) → Keeps P m → Keeps P (outcome m)
  unfolding outcome
  Keeps-outcome m k = record { at = λ w h. k.at w h }

module _ {T A B : Type 0} {P : T → Type 0} where
  pub Keeps-lift_then :
      (r : Result A) (f : A → Action T B) → ((a : A) → Keeps P (f a)) → Keeps P (lift_then r f)
  unfolding lift_then
  Keeps-lift_then (ok a) f kf = record { at = λ w h. (kf a).at w h }
  Keeps-lift_then (err x) f kf = record { at = λ w h. h }
