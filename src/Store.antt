-- ===== src/Store.antt =====
-- The database as the services use it through gorm. Each statement may fail, by a script that the
-- environment chooses; a failed statement writes nothing, and a transaction that returns an error,
-- or whose commit fails, leaves the tables as they were. That is what the services rely on.
pub mod Rules
pub mod Undo
pub mod Turns
use multi_plantform_poster.Base.{
  ℕ, ◌⊎◌, inl, inr, Bool, true, false, Option, none, some, List, [], ◌∷◌, ◌≡◌, refl, if◌then◌else◌,
  arith,
}
use multi_plantform_poster.Base.Text.{Text}

-- The errors that the services return or test for.
pub data Error : Type 0 where
  record_not_found : Error  -- gorm.ErrRecordNotFound
  database_error : Error  -- any other error of a statement
  forbidden : Error
  invalid_workspace invalid_workspace_member invalid_workspace_invite : Error
  publication_already_publishing publication_requires_sync publication_disabled : Error
  publish_queue_empty publication_not_found : Error
  scheduled_publication_missing scheduled_publication_not_startable : Error
  platform_account_forbidden invalid_platform_account : Error
  publish_job_workspace_mismatch : Error
  other_error : Text → Error

pub data Result {ℓ} (A : Type ℓ) : Type ℓ where
  ok : A → Result A
  err : Error → Result A

abbrev pub is_ok {ℓ} : {A : Type ℓ} → Result A → Bool
is_ok (ok a) = true
is_ok (err e) = false

-- errors.Is(err, gorm.ErrRecordNotFound)
abbrev pub is_not_found : Error → Bool
is_not_found record_not_found = true
is_not_found _ = false

abbrev pub is_forbidden : Error → Bool
is_forbidden forbidden = true
is_forbidden _ = false

-- The row that a `First` finds.
abbrev pub or_not_found {ℓ} : {A : Type ℓ} → Option A → Result A
or_not_found none = err record_not_found
or_not_found (some a) = ok a

-- `faults` tells of the statements to come which ones fail; those behind its end do not.
pub record World (T : Type 0) : Type 0 where
  pub tables : T
  pub faults : List Bool

abbrev pub Action : Type 0 → Type 0 → Type 0
Action T A = World T → Result A × World T

abbrev pub next_fault : List Bool → Bool × List Bool
next_fault [] = (false, [])
next_fault (f ∷ fs) = (f, fs)

module _ {T : Type 0} {A : Type 0} where
  unfoldable pub pure : A → Action T A
  pure a w = (ok a, w)

  unfoldable pub raise : Error → Action T A
  raise e w = (err e, w)

  -- A statement that reads.
  unfoldable pub query : (T → Result A) → Action T A
  query read w =
      let (failed, rest) = next_fault w.faults in
      let w' = record w { faults = rest } in
      if failed then (err database_error, w') else (read w.tables, w')

  -- A statement that writes, and says what it wrote.
  unfoldable pub execute : (T → T × A) → Action T A
  execute write w =
      let (failed, rest) = next_fault w.faults in
      let (tables', a) = write w.tables in
      if failed
      then (err database_error, record w { faults = rest })
      else (ok a, record w { tables = tables'; faults = rest })

  -- The end of a transaction: `w` is the world at its start.
  abbrev settle : World T → Result A × World T → Result A × World T
  settle w (err e, w') = (err e, record w' { tables = w.tables })
  settle w (ok a, w') =
      let (failed, rest) = next_fault w'.faults in
      if failed
      then (err database_error, record w' { tables = w.tables; faults = rest })
      else (ok a, record w' { faults = rest })

  -- db.Transaction(func(tx) error { … })
  unfoldable pub transaction : Action T A → Action T A
  transaction m w = settle w (m w)

  -- An error of `m` is handed to `handler`.
  unfoldable pub rescue : Action T A → (Error → Action T A) → Action T A
  rescue m handler w = let (r, w') = m w in elim r [ ok a ↦ (ok a, w') | err e ↦ handler e w' ]

module _ {T A : Type 0} where
  -- What `m` returns as a value, for the code that goes on behind an error.
  unfoldable pub outcome : Action T A → Action T (Result A)
  outcome m w = let (r, w') = m w in (ok r, w')

module _ {T A B : Type 0} where
  abbrev continue : Result A → (A → Action T B) → Action T B
  continue (ok a) f w = f a w
  continue (err e) f w = (err e, w)

  infixl 5 ◌>>=◌ ◌>>◌
  unfoldable pub ◌>>=◌ : Action T A → (A → Action T B) → Action T B
  ◌>>=◌ m f w = let (r, w') = m w in continue r f w'

  abbrev pub ◌>>◌ : Action T A → Action T B → Action T B
  m >> n = m >>= λ _. n

  -- What a lookup returns is the start of what follows.
  unfoldable pub lift_then : Result A → (A → Action T B) → Action T B
  lift_then (ok a) f w = f a w
  lift_then (err e) f w = (err e, w)

pub Result-cases {ℓ} :
    {A : Type ℓ} (r : Result A) → ((a : A) × (r ≡ ok a)) ⊎ ((e : Error) × (r ≡ err e))
Result-cases (ok a) = inl (a, refl)
Result-cases (err e) = inr (e, refl)
