-- ===== src/RedisKey.antt =====
-- backend/internal/pkg/rediskey/rediskey.go: the keys of Redis, whose hash tag `{scope:value}` puts
-- the keys of one thing on one node. Bytes stand for runes: a rune that is not ASCII is a run of
-- bytes that are not plain, and a run is one dash.
pub mod Tags
use multi_plantform_poster.Base.{
  ℕ, Bool, true, false, ◌&&◌, ◌||◌, Option, none, some, List, [], ◌∷◌, ◌++◌, leb, ◌==◌,
  if◌then◌else◌,
}
use multi_plantform_poster.Base.Text.{Text, codes, text_eq, to_lower, trim_space}
use mathlib.Core.List.{reverse}

abbrev pub unknown : Text
unknown = codes "unknown"

abbrev pub is_dash : ℕ → Bool
is_dash r = r == b'-'

-- The runes that Part keeps.
unfoldable pub is_plain : ℕ → Bool
is_plain r =
    (leb b'a' r && leb r b'z')
    || ((leb b'0' r && leb r b'9') || (is_dash r || ((r == b'_') || ((r == b':') || (r == b'.')))))

-- What the loop writes for a rune, and `lastDash` behind it.
unfoldable pub write_rune : Bool → ℕ → Text × Bool
unfolding is_plain
write_rune last_dash r =
    if is_plain r then (r ∷ [], false) else if last_dash then ([], true) else (b'-' ∷ [], true)

-- The loop of Part.
unfoldable pub write_runes : Bool → Text → Text
unfolding write_rune
write_runes last_dash [] = []
write_runes last_dash (r ∷ rs) =
    let (out, dash) = write_rune last_dash r in out ++ write_runes dash rs

unfoldable pub drop_dashes : Text → Text
drop_dashes [] = []
drop_dashes (r ∷ rs) = let rest = drop_dashes rs in if is_dash r then rest else r ∷ rs

-- strings.Trim(s, "-")
unfoldable pub trim_dashes : Text → Text
unfolding drop_dashes
trim_dashes s = reverse (drop_dashes (reverse (drop_dashes s)))

abbrev pub or_unknown : Text → Text
or_unknown result = if text_eq result [] then unknown else result

unfoldable pub part : Text → Text
unfolding trim_dashes write_runes
part value =
    let lowered = to_lower (trim_space value) in
    if text_eq lowered [] then unknown else or_unknown (trim_dashes (write_runes false lowered))

-- What Tag puts between its braces.
abbrev pub tag_of : Text → Text → Text
tag_of scope value = part scope ++ (b':' ∷ part value)

unfoldable pub tag : Text → Text → Text
tag scope value = b'{' ∷ (tag_of scope value ++ (b'}' ∷ []))

-- What stands behind the first `c`, as far as strings.IndexByte finds one.
unfoldable pub behind : ℕ → Text → Option Text
behind c [] = none
behind c (x ∷ xs) = let rest = behind c xs in if x == c then some xs else rest

-- What stands before the first `c`.
unfoldable pub before : ℕ → Text → Option Text
before c [] = none
before c (x ∷ xs) =
    let rest = before c xs in
    if x == c then some [] else elim rest [ none ↦ none | some s ↦ some (x ∷ s) ]

-- An empty tag is none.
abbrev some_tag : Option Text → Option Text
some_tag none = none
some_tag (some []) = none
some_tag (some (x ∷ xs)) = some (x ∷ xs)

abbrev tag_behind : Option Text → Option Text
tag_behind none = none
tag_behind (some rest) = some_tag (before b'}' rest)

unfoldable pub extract_tag : Text → Option Text
unfolding behind before
extract_tag key = tag_behind (behind b'{' key)

abbrev pub has_tag : Text → Option Text → Bool
has_tag expected none = false
has_tag expected (some t) = text_eq t expected

unfoldable pub all_have_tag : Text → List Text → Bool
unfolding extract_tag
all_have_tag expected [] = true
all_have_tag expected (key ∷ keys) =
    has_tag expected (extract_tag key) && all_have_tag expected keys

abbrev share_rest : Option Text → List Text → Bool
share_rest none keys = false
share_rest (some expected) keys = all_have_tag expected keys

unfoldable pub share_tag : List Text → Bool
unfolding all_have_tag extract_tag
share_tag [] = true
share_tag (key ∷ keys) = share_rest (extract_tag key) keys
