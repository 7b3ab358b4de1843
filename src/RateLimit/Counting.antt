-- ===== src/RateLimit/Counting.antt =====
-- What one check does to one counter.
use multi_plantform_poster.Base.{
  ℕ, ◌+◌, ◌<◌, ◌≤◌, ◌≡◌, refl, sym, ap, subst, ◌∙◌, inl, inr, Bool, true, false, Option, none, some,
  ◌==◌, arith, Bool-cases, ltb,
}
use multi_plantform_poster.Base.Text.{Text, text_eq, text_eq→eq}
use multi_plantform_poster.Fault.{Fault}
use multi_plantform_poster.RedisDegrade.{Guard, call}
use multi_plantform_poster.RateLimit.{
  Counters, CountersLaws, Lasts, held, count_of, LimitResult, Eval, Checked, passes, has_effect,
  script, keys_behind, increment, zero_or, within, judge,
}

count_of-held : (n : ℕ) → count_of (held n) ≡ n
count_of-held n = ground arith

module _ (r : Counters) (laws : CountersLaws r) (key : Text) where
  -- The script counts up its own counter.
  script_counts :
      (window now n deadline : ℕ) (s : r.Keys)
      → now < deadline
      → deadline ≤ now + window
      → Lasts r s key now n deadline
      → let (s', counted) = script r key window now s in
        (counted.0 ≡ n + 1) × Lasts r s' key now (n + 1) deadline
  unfolding script
  script_counts window now n deadline s h w l =
      let counted = r.incr key now s in
      let up = laws.incr_lasts s key now n deadline h l in
      let same : r.value s key now ≡ held n = l now (omega arith) h in
      let fresh : r.value counted.0 key now ≡ held (n + 1) = up now (omega arith) h in
      let first = laws.pexpire_lasts counted.0 key window now (n + 1) fresh in
      let value = laws.incr_value s key now in
      (
        value ∙ ap (λ v. count_of v + 1) same ∙ ap (λ m. m + 1) (count_of-held n),
        λ t a b. elim (Bool-cases (counted.1 == 1)) [
          | inl e ↦ rw e (first t a (omega arith))
          | inr e ↦ rw e (up t a b)
        ],
      )

  -- The script of another key leaves it alone.
  script_other :
      (other : Text) (window now n deadline : ℕ) (s : r.Keys)
      → text_eq key other ≡ false
      → Lasts r s key now n deadline
      → Lasts r (script r other window now s).0 key now n deadline
  unfolding script
  script_other other window now n deadline s apart l = λ t a b.
      let counted = r.incr other now s in
      let kept = laws.incr_other s other key now t apart a in
      let kept' = laws.pexpire_other counted.0 other key window now t apart a in
      ground (arith, l t a b)

  -- The counter of the key lasts, at this value or a higher one.
  abbrev pub Counts : r.Keys → ℕ → ℕ → ℕ → Type 0
  Counts s now n deadline = (m : ℕ) × (n ≤ m) × Lasts r s key now m deadline

  script-Counts :
      (other : Text) (window now n deadline : ℕ) (s : r.Keys)
      → now < deadline
      → (text_eq key other ≡ true → deadline ≤ now + window)
      → Lasts r s key now n deadline
      → Counts (script r other window now s).0 now n deadline
  script-Counts other window now n deadline s h w l = elim (Bool-cases (text_eq key other)) [
    | inl e ↦
        let lasts =
          subst (λ k. Lasts r (script r k window now s).0 key now (n + 1) deadline)
            (text_eq→eq key other e) (script_counts window now n deadline s h (w e) l).1 in
        (n + 1, omega arith, lasts)
    | inr e ↦ (n, omega arith, script_other other window now n deadline s e l)
  ]

  keys_behind-Counts :
      (e : Eval) (v : Option (ℕ × ℕ)) (s s' : r.Keys) (now n deadline : ℕ)
      → Lasts r s key now n deadline
      → Counts s' now n deadline
      → Counts (keys_behind r e v s s') now n deadline
  keys_behind-Counts e none s s' now n deadline l c = (n, omega arith, l)
  keys_behind-Counts e (some v) s s' now n deadline l c = elim (Bool-cases (has_effect e)) [
    | inl b ↦ rw b c
    | inr b ↦ rw b (n, omega arith, l)
  ]

  pub increment-Counts :
      (g : Option Guard) (e : Eval) (other : Text) (window now n deadline : ℕ) (s : r.Keys)
      → now < deadline
      → (text_eq key other ≡ true → deadline ≤ now + window)
      → Lasts r s key now n deadline
      → Counts (increment r g e other window now s).0.1 now n deadline
  unfolding increment
  increment-Counts g e other window now n deadline s h w l =
      let (s', counted) = script r other window now s in
      keys_behind-Counts e (call now e.done counted e.error g).1.value s s' now n deadline l
        (script-Counts other window now n deadline s h w l)

  -- A call without an error has run its operation, and that had none.
  call_ran :
      (now done : ℕ) (v : ℕ × ℕ) (e : Option Fault) (g : Option Guard)
      → (call now done v e g).1.error ≡ none
      → (e ≡ none) × ((call now done v e g).1.value ≡ some v)
  unfolding call
  call_ran now done v e none h = (h, refl)
  call_ran now done v e (some g) h = ground arith

  increment_ran :
      (g : Option Guard) (e : Eval) (window now n deadline : ℕ) (s : r.Keys)
      → now < deadline
      → deadline ≤ now + window
      → Lasts r s key now n deadline
      → (increment r g e key window now s).1.error ≡ none
      → ((zero_or r (increment r g e key window now s).1.value).0 ≡ n + 1)
        × Lasts r (increment r g e key window now s).0.1 key now (n + 1) deadline
  unfolding increment
  increment_ran g e window now n deadline s h w l ok =
      let (s', counted) = script r key window now s in
      let (fine, value) = call_ran now e.done counted e.error g ok in
      let (count, lasts) = script_counts window now n deadline s h w l in
      rw value (rw fine (count, lasts))

  -- The same for the key under another name.
  pub increment_ran_as :
      (g : Option Guard) (k : Text) (window now n deadline : ℕ) (evals : Text → Eval) (s : r.Keys)
      → key ≡ k
      → now < deadline
      → deadline ≤ now + window
      → Lasts r s key now n deadline
      → (increment r g (evals k) k window now s).1.error ≡ none
      → ((zero_or r (increment r g (evals k) k window now s).1.value).0 ≡ n + 1)
        × Lasts r (increment r g (evals k) k window now s).0.1 key now (n + 1) deadline
  increment_ran_as g k window now n deadline evals s same h w l =
      subst
        (λ k.
          (increment r g (evals k) k window now s).1.error ≡ none
          → ((zero_or r (increment r g (evals k) k window now s).1.value).0 ≡ n + 1)
            × Lasts r (increment r g (evals k) k window now s).0.1 key now (n + 1) deadline)
        same (increment_ran g (evals key) window now n deadline s h w l)

  pub below : (limit n current : ℕ) → ltb limit current ≡ false → current ≡ n + 1 → n < limit
  below limit n current h e = ground arith

  pub judge-Counts :
      (e : Option Fault) (x : Bool) (res : LimitResult) (st : Option Guard × r.Keys)
      (next : LimitResult → (Option Guard × r.Keys) × Checked) (now n deadline : ℕ)
      → res.exceeded ≡ x
      → Counts st.1 now n deadline
      → Counts (next res).0.1 now n deadline
      → Counts (judge r e res st next).0.1 now n deadline
  judge-Counts (some f) x res st next now n deadline h c k = c
  judge-Counts none true res st next now n deadline h c k =
      subst (λ y. Counts (within r y res st next).0.1 now n deadline) (sym h) c
  judge-Counts none false res st next now n deadline h c k =
      subst (λ y. Counts (within r y res st next).0.1 now n deadline) (sym h) k

  -- A request that passes the judgement has been counted, and goes on.
  pub judge_passes :
      (e : Option Fault) (x : Bool) (res : LimitResult) (st : Option Guard × r.Keys)
      (next : LimitResult → (Option Guard × r.Keys) × Checked) {last : Option LimitResult}
      → res.exceeded ≡ x
      → (judge r e res st next).1 ≡ passes last
      → (e ≡ none) × (res.exceeded ≡ false) × (judge r e res st next ≡ next res)
  judge_passes (some f) x res st next h p = cc
  judge_passes none true res st next h p = ground (arith, h, p)
  judge_passes none false res st next h p = (refl, h, rw h refl)
