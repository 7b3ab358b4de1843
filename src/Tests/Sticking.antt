-- ===== src/Tests/Sticking.antt =====
-- A cookie of the sticky writer, with a code in place of HMAC and base64.
use multi_plantform_poster.Base.{◌≡◌, refl, true, some, [], ◌∷◌, arith, All}
use multi_plantform_poster.Base.Text.{Text, codes, text_eq, starts_with, trim_space}
use multi_plantform_poster.StickyWriter.{
  Crypto, CryptoLaws, IsNoSpace, should_refresh_sticky_writer, response_cookie,
  sticky_writer_cookie_until, request_path_matches_sticky_path, drop_slashes,
}
use multi_plantform_poster.StickyWriter.Accepting.{sticky_writer_cookie_until-response_cookie}

abbrev letters : Text → Text
letters [] = []
letters (x ∷ xs) = b'A' ∷ letters xs

letters-IsNoSpace : (xs : Text) → All IsNoSpace (letters xs)
letters-IsNoSpace [] = tt
letters-IsNoSpace (x ∷ xs) = (refl, letters-IsNoSpace xs)

abbrev crypto : Crypto
crypto = record { hmac = λ secret t. b'1' ∷ t; encode = letters }

crypto-laws : CryptoLaws crypto
crypto-laws = record {
  hmac_some = λ secret t. (b'1', t, refl);
  encode_some = λ x xs. (b'A', letters xs, refl);
  encode_no_space = letters-IsNoSpace;
}

posted_refreshes :
    should_refresh_sticky_writer 201 (codes "POST") (codes "/api/projects") (codes "/api") ≡ true
unfolding should_refresh_sticky_writer request_path_matches_sticky_path drop_slashes text_eq
    starts_with trim_space
posted_refreshes = refl

sticky_writer_cookie_until-response_cookie_example :
    sticky_writer_cookie_until crypto
      (codes "s")
      (response_cookie crypto
        (codes "s")
        0
        (codes "/api")
        201
        (codes "POST")
        (codes "/api/projects")
        5000000)
      7000000
    ≡ some 10005000000
unfolding trim_space text_eq
sticky_writer_cookie_until-response_cookie_example =
    sticky_writer_cookie_until-response_cookie crypto crypto-laws (codes "s") 0 (codes "/api") 201
      (codes "POST") (codes "/api/projects") 5000000 7000000 posted_refreshes (omega arith)
      (omega arith) (omega arith)
