-- ===== src/StickyWriter/Accepting.antt =====
-- A cookie of the sticky writer read back.
use multi_plantform_poster.Base.{
  ℕ, ◌+◌, ◌-◌, ◌*◌, ◌<◌, ◌≤◌, ◌≡◌, refl, sym, ap, subst, ◌∙◌, inl, inr, true, false, none, some, [],
  ◌∷◌, ◌++◌, ◌==◌, ltb, leb, if◌then◌else◌, All, Bool-cases, arith, zero, suc,
}
use multi_plantform_poster.Base.Text.{Text, text_eq, text_eq_refl, trim_space, trim_left}
use multi_plantform_poster.StickyWriter.{
  Crypto, CryptoLaws, IsNoSpace, digits, format_int, is_digit, read_digits, max_int64, in_range,
  read_signed, if_positive, parse_positive, cut, millisecond, max_ttl, ttl_of,
  sticky_writer_signature, signed_sticky_writer_value, parse_sticky_writer_until,
  sticky_writer_cookie_until, should_refresh_sticky_writer, path_of, response_cookie,
}
use mathlib.Core.List.{reverse, reverse_aux, reverse-reverse}
use Prim.Native.Nat.{◌/◌, ◌%◌}

-- One more than the largest number of so many digits.
abbrev numbers : ℕ → ℕ
numbers zero = 1
numbers (suc k) = 10 * numbers k

-- What the digits are, put back to front of what follows.
read_digits-append :
    (xs : Text) (d n m : ℕ)
    → read_digits m xs ≡ some n
    → is_digit d ≡ true
    → read_digits m (xs ++ (d ∷ [])) ≡ some (n * 10 + (d - b'0'))
unfolding read_digits
read_digits-append [] d n m h e = ground (arith, h, e)
read_digits-append (x ∷ xs) d n m h e = elim (Bool-cases (is_digit x)) [
  | inl y ↦ ground (arith, read_digits-append xs d n (m * 10 + (x - b'0')), h, e, y)
  | inr y ↦ ground (arith, h, y)
]

read_digits-digits : (k n : ℕ) → n < numbers k → read_digits 0 (digits k n) ≡ some n
unfolding digits read_digits
read_digits-digits zero n h = ground (arith, h)
read_digits-digits (suc k) n h = elim (Bool-cases (ltb n 10)) [
  | inl e ↦ rw e (ground (arith, e))
  | inr e ↦
      let before = read_digits-digits k (n / 10) (omega arith) in
      let digit : is_digit (b'0' + n % 10) ≡ true = ground arith in
      let value : n / 10 * 10 + (b'0' + n % 10 - b'0') ≡ n = omega arith in
      rw e (
        read_digits-append (digits k (n / 10)) (b'0' + n % 10) (n / 10) 0 before digit
        ∙ ap (λ m. some m) value)
]

abbrev IsDigit : ℕ → Type 0
IsDigit c = is_digit c ≡ true

append-All : (P : ℕ → Type 0) (xs ys : Text) → All P xs → All P ys → All P (xs ++ ys)
append-All P [] ys h k = k
append-All P (x ∷ xs) ys h k = (h.0, append-All P xs ys h.1 k)

digits-All : (k n : ℕ) → All IsDigit (digits k n)
unfolding digits
digits-All zero n = tt
digits-All (suc k) n = elim (Bool-cases (ltb n 10)) [
  | inl e ↦ rw e (ground (arith, e), tt)
  | inr e ↦
      rw e (append-All IsDigit (digits k (n / 10)) _ (digits-All k (n / 10)) (ground arith, tt))
]

-- The digits of a number that is not zero begin with one.
digits-some : (k n : ℕ) → 0 < n → n < numbers k → (c : ℕ) × (cs : Text) × (digits k n ≡ c ∷ cs)
unfolding digits
digits-some zero n p h = let no : ⊥ = omega arith in elim no [ ]
digits-some (suc k) n p h = elim (Bool-cases (ltb n 10)) [
  | inl e ↦ rw e (b'0' + n, [], refl)
  | inr e ↦
      let more : 0 < n / 10 = ground (arith, e) in
      let (c, cs, same) = digits-some k (n / 10) more (omega arith) in
      rw (e, same) (c, cs ++ ((b'0' + n % 10) ∷ []), refl)
]

cut-append : (xs ys : Text) → All IsDigit xs → cut b'.' (xs ++ (b'.' ∷ ys)) ≡ some (xs, ys)
unfolding cut
cut-append [] ys h = refl
cut-append (x ∷ xs) ys h =
    let rest = cut-append xs ys h.1 in
    let other : (x == b'.') ≡ false = ground (arith, h.0) in rw (other, rest) refl

reverse_aux-All :
    (xs ys : Text) → All IsNoSpace xs → All IsNoSpace ys → All IsNoSpace (reverse_aux xs ys)
reverse_aux-All [] ys h k = k
reverse_aux-All (x ∷ xs) ys h k = reverse_aux-All xs (x ∷ ys) h.1 (h.0, k)

trim_left-same : (xs : Text) → All IsNoSpace xs → trim_left xs ≡ xs
unfolding trim_left
trim_left-same [] h = refl
trim_left-same (x ∷ xs) h = rw (h.0) refl

trim_space-same : (xs : Text) → All IsNoSpace xs → trim_space xs ≡ xs
unfolding trim_space
trim_space-same xs h =
    let back = trim_left-same (reverse xs) (reverse_aux-All xs [] h tt) in
    rw (trim_left-same xs h, back) (reverse-reverse xs)

digits-IsNoSpace : (xs : Text) → All IsDigit xs → All IsNoSpace xs
digits-IsNoSpace [] h = tt
digits-IsNoSpace (x ∷ xs) h = (ground (arith, h.0), digits-IsNoSpace xs h.1)

parse_positive-read :
    (c : ℕ) (cs : Text) (n : ℕ)
    → IsDigit c
    → read_digits 0 (c ∷ cs) ≡ some n
    → 0 < n
    → n ≤ max_int64
    → parse_positive (c ∷ cs) ≡ some n
unfolding parse_positive
parse_positive-read c cs n d read p h =
    let plain : (c == b'+') ≡ false = ground (arith, d) in
    let positive : (n == 0) ≡ false = ground (arith, p) in
    let small : leb n max_int64 ≡ true = ground (arith, h) in
    let signed : read_signed (c == b'+') c cs ≡ in_range (some n) =
      ap (λ x. read_signed x c cs) plain ∙ ap in_range read in
    ap if_positive signed ∙ rw (small, positive) refl

parse_positive-format_int : (n : ℕ) → 0 < n → n ≤ max_int64 → parse_positive (format_int n) ≡ some n
parse_positive-format_int n p h =
    let (c, cs, same) = digits-some 19 n p (omega arith) in
    let read = ap (read_digits 0) (sym same) ∙ read_digits-digits 19 n (omega arith) in
    let digit = (subst (All IsDigit) same (digits-All 19 n)).0 in
    ap parse_positive same ∙ parse_positive-read c cs n digit read p h

not_empty : (s : Text) (x : ℕ) (xs : Text) → s ≡ x ∷ xs → text_eq s [] ≡ false
unfolding text_eq
not_empty s x xs h = ap (λ t. text_eq t []) h

module _ (c : Crypto) (laws : CryptoLaws c) (secret : Text) where
  sticky_writer_signature-some :
      (t : Text) → text_eq (sticky_writer_signature c secret t) [] ≡ false
  sticky_writer_signature-some t =
      let (x, xs, made) = laws.hmac_some secret t in
      let (y, ys, encoded) = laws.encode_some x xs in
      not_empty (sticky_writer_signature c secret t) y ys (ap c.encode made ∙ encoded)

  -- A cookie says when it was to end, in milliseconds.
  parse_sticky_writer_until-signed :
      (until : ℕ)
      → 0 < until / millisecond
      → until / millisecond ≤ max_int64
      → parse_sticky_writer_until c secret (signed_sticky_writer_value c secret until)
        ≡ some (until / millisecond * millisecond)
  unfolding parse_sticky_writer_until signed_sticky_writer_value
  parse_sticky_writer_until-signed until p h =
      let n = until / millisecond in
      let timestamp = format_int n in
      let signature = sticky_writer_signature c secret timestamp in
      let written = digits-All 19 n in
      let trimmed = trim_space-same (timestamp ++ (b'.' ∷ signature)) (
        append-All IsNoSpace timestamp (b'.' ∷ signature) (digits-IsNoSpace timestamp written)
          (refl, laws.encode_no_space (c.hmac secret timestamp))) in
      let (d, ds, same) = digits-some 19 n p (omega arith) in
      let given : text_eq timestamp [] ≡ false = not_empty timestamp d ds same in
      rw (trimmed, cut-append timestamp signature written)
        (rw
          (
            given,
            sticky_writer_signature-some timestamp,
            text_eq_refl signature,
            parse_positive-format_int n p h,
          )
          refl)

-- The cookie that a successful write sets at a time is accepted from then on until it ends, and tells
-- when that is: the time of the response and the time to live of the configuration later, cut to
-- milliseconds. From then on it is not accepted. The end is a 64-bit number of milliseconds after
-- 1970, and HMAC and base64 make texts without spaces that are not empty.
pub sticky_writer_cookie_until-response_cookie :
    (c : Crypto)
    → CryptoLaws c
    → (secret : Text) (ttl : ℕ) (path : Text) (status : ℕ) (method request_path : Text)
      (written now : ℕ)
    → should_refresh_sticky_writer status method request_path (path_of path) ≡ true
    → 0 < (written + ttl_of ttl) / millisecond
    → (written + ttl_of ttl) / millisecond ≤ max_int64
    → written ≤ now
    → let until = (written + ttl_of ttl) / millisecond * millisecond in
      sticky_writer_cookie_until c secret
        (response_cookie c secret ttl path status method request_path written)
        now
      ≡ (if ltb now until then some until else none)
unfolding response_cookie
sticky_writer_cookie_until-response_cookie c laws secret ttl path status method request_path written
      now refresh p h later =
    let n = (written + ttl_of ttl) / millisecond in
    let parsed = parse_sticky_writer_until-signed c laws secret (written + ttl_of ttl) p h in
    let short : ttl_of ttl ≤ max_ttl = ground arith in
    let end : ltb (now + max_ttl) (n * millisecond) ≡ false = ground (arith, short, later) in
    rw (refresh, parsed, end)
      (elim (Bool-cases (ltb now (n * millisecond))) [ inl e ↦ rw e refl | inr e ↦ rw e refl ])
