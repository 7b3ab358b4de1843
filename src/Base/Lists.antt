-- ===== src/Base/Lists.antt =====
-- Lists over the native numbers: length, counting by a Boolean test, and tests on all members.
use Prim.Native.Nat.{ℕ, suc, ◌+◌}
use mathlib.Core.Path.{subst, ◌≡◌, refl}
use mathlib.Core.Logic.{inl, inr}
use mathlib.Core.Bool.{Bool, true, false}
use mathlib.Core.Option.{Option, none, some}
use mathlib.Core.List.{List, [], ◌∷◌, ◌++◌}
use native.Mathlib.Omega.{arith}
use multi_plantform_poster.Base.Tests.{Bool-cases, if◌then◌else◌}

module _ {ℓ} {A : Type ℓ} where
  abbrev pub length : List A → ℕ
  length [] = 0
  length (x ∷ xs) = suc (length xs)

  pub length-append : (xs ys : List A) → length (xs ++ ys) ≡ length xs + length ys
  length-append [] ys = omega arith
  length-append (x ∷ xs) ys = omega (arith, length-append xs ys)

  -- How many members pass the test.
  abbrev pub count_if : (A → Bool) → List A → ℕ
  count_if p [] = 0
  count_if p (x ∷ xs) = let rest = count_if p xs in if p x then suc rest else rest

  -- The members that pass the test.
  abbrev pub keep_if : (A → Bool) → List A → List A
  keep_if p [] = []
  keep_if p (x ∷ xs) = let rest = keep_if p xs in if p x then x ∷ rest else rest

  -- The first member that passes the test.
  abbrev pub find_if : (A → Bool) → List A → Option A
  find_if p [] = none
  find_if p (x ∷ xs) = let rest = find_if p xs in if p x then some x else rest

  -- Every member that passes the test is changed.
  abbrev pub update_if : (A → Bool) → (A → A) → List A → List A
  update_if p f [] = []
  update_if p f (x ∷ xs) = (if p x then f x else x) ∷ update_if p f xs

  abbrev pub exists_if : (A → Bool) → List A → Bool
  exists_if p [] = false
  exists_if p (x ∷ xs) = let rest = exists_if p xs in if p x then true else rest

  abbrev pub All {κ} : (A → Type κ) → List A → Type κ
  All P [] = Unit
  All P (x ∷ xs) = P x × All P xs

module _ {ℓ} {A : Type ℓ} where
  abbrev pub is_some : Option A → Bool
  is_some none = false
  is_some (some x) = true

  pub exists_if-find_if : (p : A → Bool) (xs : List A) → exists_if p xs ≡ is_some (find_if p xs)
  exists_if-find_if p [] = refl
  exists_if-find_if p (x ∷ xs) = ground (arith, exists_if-find_if p xs)

  pub find_if_sound : (p : A → Bool) (xs : List A) {x : A} → find_if p xs ≡ some x → p x ≡ true
  find_if_sound p [] h = cc
  find_if_sound p (y ∷ xs) {x} h = ground (arith, find_if_sound p xs {x = x})

  pub find_if-All {κ} :
      (P : A → Type κ) (p : A → Bool) (xs : List A) {x : A} → All P xs → find_if p xs ≡ some x → P x
  find_if-All P p [] a h = cc
  find_if-All P p (y ∷ xs) a h = elim (Bool-cases (p y)) [
    | inl e ↦ subst P (ground arith) a.0
    | inr e ↦ find_if-All P p xs a.1 (ground arith)
  ]

  pub find_if-none : (q : A → Bool) (xs : List A) → find_if q xs ≡ none → All (λ x. q x ≡ false) xs
  find_if-none q [] h = tt
  find_if-none q (x ∷ xs) h = (ground arith, find_if-none q xs (ground arith))

  -- Rows that an update met pass its test no more, if the change sees to that.
  pub count_if-update_if :
      (p : A → Bool) (f : A → A) (xs : List A)
      → ((x : A) → p x ≡ true → p (f x) ≡ false)
      → count_if p (update_if p f xs) ≡ 0
  count_if-update_if p f [] h = refl
  count_if-update_if p f (x ∷ xs) h = ground (arith, h x, count_if-update_if p f xs h)

  -- An update that meets no row changes nothing.
  pub update_if-none :
      (p : A → Bool) (f : A → A) (xs : List A) → count_if p xs ≡ 0 → update_if p f xs ≡ xs
  update_if-none p f [] h = refl
  update_if-none p f (x ∷ xs) h = ground (arith, update_if-none p f xs)
