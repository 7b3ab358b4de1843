-- ===== src/RedisKey/Tags.antt =====
-- The tags that the keys are built with, read back.
use multi_plantform_poster.Base.{
  ℕ, ◌≡◌, refl, ap, Bool, true, false, none, some, List, [], ◌∷◌, ◌++◌, arith, All, map, Bool-cases,
  inl, inr,
}
use multi_plantform_poster.Base.Text.{Text, text_eq, text_eq_refl, to_lower, trim_space}
use multi_plantform_poster.RedisKey.{
  unknown, is_plain, write_rune, write_runes, drop_dashes, trim_dashes, or_unknown, part, tag_of,
  tag, behind, before, extract_tag, all_have_tag, share_tag,
}
use mathlib.Core.List.{reverse, reverse_aux}

-- No rune of a text is a brace, whatever else it is.
abbrev IsKept : ℕ → Type 0
IsKept r = is_plain r ≡ true

append-All : (xs ys : Text) → All IsKept xs → All IsKept ys → All IsKept (xs ++ ys)
append-All [] ys h k = k
append-All (x ∷ xs) ys h k = (h.0, append-All xs ys h.1 k)

reverse_aux-All : (xs ys : Text) → All IsKept xs → All IsKept ys → All IsKept (reverse_aux xs ys)
reverse_aux-All [] ys h k = k
reverse_aux-All (x ∷ xs) ys h k = reverse_aux-All xs (x ∷ ys) h.1 (h.0, k)

reverse-All : (xs : Text) → All IsKept xs → All IsKept (reverse xs)
reverse-All xs h = reverse_aux-All xs [] h tt

drop_dashes-All : (xs : Text) → All IsKept xs → All IsKept (drop_dashes xs)
unfolding drop_dashes
drop_dashes-All [] h = tt
drop_dashes-All (x ∷ xs) h = ground (arith, drop_dashes-All xs h.1)

trim_dashes-All : (xs : Text) → All IsKept xs → All IsKept (trim_dashes xs)
unfolding trim_dashes
trim_dashes-All xs h =
    reverse-All _ (drop_dashes-All _ (reverse-All (drop_dashes xs) (drop_dashes-All xs h)))

write_rune-All : (dash : Bool) (r : ℕ) → All IsKept (write_rune dash r).0
unfolding write_rune is_plain
write_rune-All dash r = ground arith

write_runes-All : (dash : Bool) (s : Text) → All IsKept (write_runes dash s)
unfolding write_runes
write_runes-All dash [] = tt
write_runes-All dash (r ∷ rs) =
    append-All (write_rune dash r).0 _ (write_rune-All dash r)
      (write_runes-All (write_rune dash r).1 rs)

unknown-All : All IsKept unknown
unfolding is_plain
unknown-All = ground arith

or_unknown-All : (s : Text) → All IsKept s → All IsKept (or_unknown s)
or_unknown-All s h = ground (arith, unknown-All)

part-All : (value : Text) → All IsKept (part value)
unfolding part
part-All value =
    let s = trim_dashes (write_runes false (to_lower (trim_space value))) in
    ground (
      arith,
      unknown-All,
      or_unknown-All s (trim_dashes-All _ (write_runes-All false (to_lower (trim_space value)))),
    )

tag_of-All : (scope value : Text) → All IsKept (tag_of scope value)
unfolding is_plain
tag_of-All scope value = append-All (part scope) _ (part-All scope) (refl, part-All value)

-- Nothing that is kept ends the tag.
before-kept : (s rest : Text) → All IsKept s → before b'}' (s ++ (b'}' ∷ rest)) ≡ some s
unfolding before is_plain
before-kept [] rest h = refl
before-kept (x ∷ xs) rest h = ground (arith, before-kept xs rest h.1)

behind-free :
    (pre rest : Text) → behind b'{' pre ≡ none → behind b'{' (pre ++ (b'{' ∷ rest)) ≡ some rest
unfolding behind
behind-free [] rest h = refl
behind-free (x ∷ xs) rest h = ground (arith, behind-free xs rest)

append_assoc : (xs ys zs : Text) → (xs ++ ys) ++ zs ≡ xs ++ (ys ++ zs)
append_assoc [] ys zs = refl
append_assoc (x ∷ xs) ys zs = ap (λ s. x ∷ s) (append_assoc xs ys zs)

tag_then :
    (scope value rest : Text)
    → tag scope value ++ rest ≡ b'{' ∷ (tag_of scope value ++ (b'}' ∷ rest))
unfolding tag
tag_then scope value rest = ap (λ s. b'{' ∷ s) (append_assoc (tag_of scope value) (b'}' ∷ []) rest)

append-filled : (xs ys : Text) (y : ℕ) → (z : ℕ) × (zs : Text) × (xs ++ (y ∷ ys) ≡ z ∷ zs)
append-filled [] ys y = (y, ys, refl)
append-filled (x ∷ xs) ys y = (x, xs ++ (y ∷ ys), refl)

abbrev pub IsFilled : Text → Type 0
IsFilled s = text_eq s [] ≡ false

or_unknown-IsFilled : (s : Text) → IsFilled (or_unknown s)
unfolding text_eq
or_unknown-IsFilled s = elim (Bool-cases (text_eq s [])) [ inl e ↦ rw e refl | inr e ↦ rw e e ]

part-IsFilled : (value : Text) → IsFilled (part value)
unfolding part text_eq
part-IsFilled value =
    let lowered = to_lower (trim_space value) in
    elim (Bool-cases (text_eq lowered [])) [
      | inl e ↦ rw e (or_unknown-IsFilled [])
      | inr e ↦ rw e (or_unknown-IsFilled (trim_dashes (write_runes false lowered)))
    ]

-- A key that is built as a start without an opening brace, the tag of a scope and a value, and any
-- rest, gives back exactly that tag, whatever the scope and the value hold; and neither of them,
-- cleaned, is empty.
pub extract_tag-tag :
    (pre scope value rest : Text)
    → behind b'{' pre ≡ none
    → (extract_tag (pre ++ (tag scope value ++ rest)) ≡ some (tag_of scope value))
      × IsFilled (part scope)
      × IsFilled (part value)
unfolding extract_tag
extract_tag-tag pre scope value rest h =
    let (z, zs, filled) = append-filled (part scope) (part value) b':' in
    (
      rw (tag_then scope value rest) (
          rw (behind-free pre (tag_of scope value ++ (b'}' ∷ rest)) h)
            (rw (before-kept (tag_of scope value) rest (tag_of-All scope value)) (rw filled refl))),
      part-IsFilled scope,
      part-IsFilled value,
    )

-- The keys of one thing: each start and each rest with the same tag between.
abbrev pub tagged : Text → Text → Text × Text → Text
tagged scope value (pre, rest) = pre ++ (tag scope value ++ rest)

abbrev pub IsFree : Text × Text → Type 0
IsFree (pre, rest) = behind b'{' pre ≡ none

all_have_tag-tagged :
    (scope value : Text) (ends : List (Text × Text))
    → All IsFree ends
    → all_have_tag (tag_of scope value) (map (tagged scope value) ends) ≡ true
unfolding all_have_tag
all_have_tag-tagged scope value [] h = refl
all_have_tag-tagged scope value ((pre, rest) ∷ ends) h =
    rw (extract_tag-tag pre scope value rest h.0).0
      (rw (text_eq_refl (tag_of scope value)) (all_have_tag-tagged scope value ends h.1))

pub share_tag-tagged :
    (scope value : Text) (ends : List (Text × Text))
    → All IsFree ends
    → share_tag (map (tagged scope value) ends) ≡ true
unfolding share_tag
share_tag-tagged scope value [] h = refl
share_tag-tagged scope value ((pre, rest) ∷ ends) h =
    rw (extract_tag-tag pre scope value rest h.0).0 (all_have_tag-tagged scope value ends h.1)
