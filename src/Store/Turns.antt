-- ===== src/Store/Turns.antt =====
-- What holds of the tables behind an action that succeeds, given what held before it.
use multi_plantform_poster.Base.{◌≡◌}
use multi_plantform_poster.Store.{ok, World, Action, ◌>>=◌}
use multi_plantform_poster.Store.Rules.{Keeps, bind-ok}

pub record Turns {T A : Type 0} (P Q : T → Type 0) (m : Action T A) : Type 0 where
  pub at : (w : World T) {a : A} → P w.tables → (m w).0 ≡ ok a → Q (m w).1.tables

module _ {T A : Type 0} {P : T → Type 0} where
  pub Turns-Keeps : (m : Action T A) → Keeps P m → Turns P P m
  Turns-Keeps m k = record { at = λ w h e. k.at w h }

module _ {T A B : Type 0} {P Q R : T → Type 0} where
  pub Turns-bind :
      (m : Action T A) (f : A → Action T B)
      → Turns P Q m
      → ((a : A) → Turns Q R (f a))
      → Turns P R (m >>= f)
  Turns-bind m f km kf = record {
    at = λ w h e.
        let (a, first, second, same) = bind-ok m f w e in
        rw same ((kf a).at (m w).1 (km.at w h first) second);
  }
