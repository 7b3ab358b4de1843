-- ===== src/StickyWriter.antt =====
-- The sticky writer of backend/internal/middleware/sticky_writer.go: after a request that writes, a
-- signed cookie sends the reads of the same client to the writer of the database for a while. Times
-- are nanoseconds; HMAC and base64 are given.
pub mod Accepting
use multi_plantform_poster.Base.{
  ℕ, ◌+◌, ◌-◌, ◌*◌, ◌<◌, ◌≤◌, ◌≡◌, Bool, true, false, not, ◌&&◌, ◌||◌, Option, none, some, List, [],
  ◌∷◌, ◌++◌, ◌==◌, ltb, leb, if◌then◌else◌, All, zero, suc,
}
use multi_plantform_poster.Base.Text.{Text, codes, text_eq, trim_space, starts_with, is_space}
use multi_plantform_poster.Resilience.Breaker.{second}
use Prim.Native.Nat.{◌/◌, ◌%◌}
use mathlib.Core.List.{reverse}

-- HMAC with SHA-256 and base64.RawURLEncoding.
pub record Crypto : Type 0 where
  pub hmac : Text → Text → Text
  pub encode : Text → Text

abbrev pub IsNoSpace : ℕ → Type 0
IsNoSpace c = is_space c ≡ false

-- A MAC has bytes, and so has the code of bytes, none of them a space.
pub record CryptoLaws (c : Crypto) : Type 0 where
  pub hmac_some : (secret t : Text) → (x : ℕ) × (xs : Text) × (c.hmac secret t ≡ x ∷ xs)
  pub encode_some : (x : ℕ) (xs : Text) → (y : ℕ) × (ys : Text) × (c.encode (x ∷ xs) ≡ y ∷ ys)
  pub encode_no_space : (xs : Text) → All IsNoSpace (c.encode xs)

-- The digits of a number that has at most so many of them.
unfoldable pub digits : ℕ → ℕ → Text
digits zero n = []
digits (suc k) n =
    let before = digits k (n / 10) in
    if ltb n 10 then (b'0' + n) ∷ [] else before ++ ((b'0' + n % 10) ∷ [])

-- strconv.FormatInt(n, 10): an int64 has at most 19 digits.
abbrev pub format_int : ℕ → Text
format_int n = digits 19 n

abbrev pub is_digit : ℕ → Bool
is_digit c = leb b'0' c && leb c b'9'

unfoldable pub read_digits : ℕ → Text → Option ℕ
read_digits n [] = some n
read_digits n (c ∷ cs) =
    let rest = read_digits (n * 10 + (c - b'0')) cs in if is_digit c then rest else none

abbrev pub max_int64 : ℕ
max_int64 = 9223372036854775807

abbrev in_range : Option ℕ → Option ℕ
in_range none = none
in_range (some n) = if leb n max_int64 then some n else none

abbrev read_unsigned : Text → Option ℕ
read_unsigned [] = none
read_unsigned (c ∷ cs) = in_range (read_digits 0 (c ∷ cs))

abbrev pub if_positive : Option ℕ → Option ℕ
if_positive none = none
if_positive (some n) = if n == 0 then none else some n

abbrev pub read_signed : Bool → ℕ → Text → Option ℕ
read_signed true c cs = read_unsigned cs
read_signed false c cs = read_unsigned (c ∷ cs)

-- strconv.ParseInt(s, 10, 64), where a number that is not positive is none.
unfoldable pub parse_positive : Text → Option ℕ
unfolding read_digits
parse_positive [] = none
parse_positive (c ∷ cs) = if_positive (read_signed (c == b'+') c cs)

-- strings.Cut
unfoldable pub cut : ℕ → Text → Option (Text × Text)
cut c [] = none
cut c (x ∷ xs) =
    let rest = cut c xs in
    if x == c then some ([], xs) else elim rest [ none ↦ none | some p ↦ some (x ∷ p.0, p.1) ]

abbrev pub millisecond : ℕ
millisecond = 1000000

-- maxStickyWriterTTL
abbrev pub max_ttl : ℕ
max_ttl = 30 * second

-- The `ttl` of StickyWriterWithConfig.
abbrev pub ttl_of : ℕ → ℕ
ttl_of ttl =
    let given = if ttl == 0 then 10 * second else ttl in
    if ltb max_ttl given then max_ttl else given

abbrev trim_slash : Text → Text
trim_slash [] = []
trim_slash (x ∷ xs) = if x == b'/' then xs else x ∷ xs

unfoldable pub drop_slashes : Text → Text
drop_slashes [] = []
drop_slashes (x ∷ xs) = let rest = drop_slashes xs in if x == b'/' then rest else x ∷ xs

-- requestPathMatchesStickyPath
unfoldable pub request_path_matches_sticky_path : Text → Text → Bool
unfolding drop_slashes starts_with trim_space text_eq
request_path_matches_sticky_path request_path sticky_path =
    if text_eq sticky_path [] || text_eq sticky_path (codes "/")
    then true
    else let request = b'/' ∷ trim_slash request_path in
      let sticky =
        b'/' ∷ reverse (drop_slashes (reverse (drop_slashes (trim_space sticky_path)))) in
      text_eq request sticky || starts_with request (sticky ++ codes "/")

abbrev writes : Text → Bool
writes method =
    text_eq method (codes "POST")
    || (text_eq method (codes "PUT")
        || (text_eq method (codes "PATCH") || text_eq method (codes "DELETE")))

-- shouldRefreshStickyWriter
unfoldable pub should_refresh_sticky_writer : ℕ → Text → Text → Text → Bool
unfolding request_path_matches_sticky_path
should_refresh_sticky_writer status method request_path sticky_path =
    if ltb status 200 || leb 300 status
    then false
    else if not (request_path_matches_sticky_path request_path sticky_path)
    then false
    else writes method

-- The `path` of StickyWriterWithConfig.
abbrev pub path_of : Text → Text
path_of path = let trimmed = trim_space path in if text_eq trimmed [] then codes "/api" else trimmed

module _ (c : Crypto) (secret : Text) where
  -- stickyWriterSignature
  abbrev pub sticky_writer_signature : Text → Text
  sticky_writer_signature timestamp = c.encode (c.hmac secret timestamp)

  -- signedStickyWriterValue
  unfoldable pub signed_sticky_writer_value : ℕ → Text
  signed_sticky_writer_value until =
      let timestamp = format_int (until / millisecond) in
      timestamp ++ (b'.' ∷ sticky_writer_signature timestamp)

  abbrev to_time : Option ℕ → Option ℕ
  to_time none = none
  to_time (some n) = some (n * millisecond)

  abbrev parse_parts : Option (Text × Text) → Option ℕ
  parse_parts none = none
  parse_parts (some (timestamp, signature)) =
      if text_eq timestamp [] || text_eq signature []
      then none
      else if text_eq signature (sticky_writer_signature timestamp)
      then to_time (parse_positive timestamp)
      else none

  -- parseStickyWriterUntil
  unfoldable pub parse_sticky_writer_until : Text → Option ℕ
  unfolding parse_positive cut trim_space text_eq
  parse_sticky_writer_until raw = parse_parts (cut b'.' (trim_space raw))

  abbrev within_ttl : ℕ → Option ℕ → Option ℕ
  within_ttl now none = none
  within_ttl now (some until) =
      if not (ltb now until) then none else if ltb (now + max_ttl) until then none else some until

  -- stickyWriterCookieUntil
  abbrev pub sticky_writer_cookie_until : Option Text → ℕ → Option ℕ
  sticky_writer_cookie_until none now = none
  sticky_writer_cookie_until (some raw) now = within_ttl now (parse_sticky_writer_until raw)

  -- What StickyWriterWithConfig sets before a response at the time `now`: the value of the cookie.
  unfoldable pub response_cookie : ℕ → Text → ℕ → Text → Text → ℕ → Option Text
  unfolding signed_sticky_writer_value should_refresh_sticky_writer
  response_cookie ttl path status method request_path now =
      if should_refresh_sticky_writer status method request_path (path_of path)
      then some (signed_sticky_writer_value (now + ttl_of ttl))
      else none
