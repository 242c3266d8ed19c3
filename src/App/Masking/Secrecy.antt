-- ===== src/App/Masking/Secrecy.antt =====
-- What a masked URL keeps secret, and what it does not.
use media_stream.Base.{
  ℕ, ◌+◌, ◌≤◌, ◌≡◌, refl, sym, ◌∙◌, ap, Bool, true, false, some, List, [], ◌∷◌, ◌++◌, ◌==◌, ◌&&◌,
  not, arith, ltb, length, length-append,
}
use media_stream.Webrtc.Codec.{has_prefix}
use media_stream.App.Masking.{
  index_of, take, drop, stars, scheme_end, at_sign, colon, mask_rest, mask_rtsp_url,
}

-- The byte does not occur.
abbrev pub free : ℕ → List ℕ → Bool
free b [] = true
free b (a ∷ s) = not (a == b) && free b s

append_assoc : (xs ys zs : List ℕ) → (xs ++ ys) ++ zs ≡ xs ++ (ys ++ zs)
append_assoc [] ys zs = refl
append_assoc (x ∷ xs) ys zs = ap (λ l. x ∷ l) (append_assoc xs ys zs)

take-length : (xs ys : List ℕ) → take (length xs) (xs ++ ys) ≡ xs
take-length [] [] = refl
take-length [] (y ∷ ys) = refl
take-length (x ∷ xs) ys = ground (arith, take-length xs ys)

drop-length : (xs ys : List ℕ) → drop (length xs) (xs ++ ys) ≡ ys
drop-length [] [] = refl
drop-length [] (y ∷ ys) = refl
drop-length (x ∷ xs) ys = ground (arith, drop-length xs ys)

has_prefix-append : (s t : List ℕ) → has_prefix (s ++ t) s ≡ true
unfolding has_prefix
has_prefix-append [] t = ground arith
has_prefix-append (a ∷ s) t = ground (arith, has_prefix-append s t)

index_of-first :
    (xs part ys : List ℕ) (b : ℕ)
    → free b xs ≡ true
    → index_of (xs ++ (b ∷ (part ++ ys))) (b ∷ part) ≡ some (length xs)
unfolding index_of has_prefix
index_of-first [] part ys b h = ground (arith, has_prefix-append part ys)
index_of-first (x ∷ xs) part ys b h = ground (arith, h, index_of-first xs part ys b)

index_of-byte :
    (xs ys : List ℕ) (b : ℕ)
    → free b xs ≡ true
    → index_of (xs ++ (b ∷ ys)) (b ∷ []) ≡ some (length xs)
unfolding index_of has_prefix
index_of-byte [] ys b h = ground (arith, has_prefix-append (b ∷ []) ys)
index_of-byte (x ∷ xs) ys b h = ground (arith, h, index_of-byte xs ys b)

mask_rest-found :
    (scheme rest : List ℕ) (at c : ℕ)
    → index_of rest at_sign ≡ some at
    → index_of (take at rest) colon ≡ some c
    → mask_rest scheme rest ≡ scheme ++ take c (take at rest) ++ colon ++ stars ++ drop at rest
unfolding mask_rest
mask_rest-found scheme rest at c h g = rw (h, g, mask_rest) refl

mask_rest-secret :
    (scheme user secret rest : List ℕ)
    → free 58 user ≡ true
    → free 64 (user ++ 58 ∷ secret) ≡ true
    → mask_rest scheme ((user ++ 58 ∷ secret) ++ (64 ∷ rest))
      ≡ scheme ++ user ++ colon ++ stars ++ (64 ∷ rest)
mask_rest-secret scheme user secret rest h f =
    let credentials = user ++ 58 ∷ secret in
    let taken = take-length credentials (64 ∷ rest) in
    let c : index_of (take (length credentials) (credentials ++ (64 ∷ rest))) colon
        ≡ some (length user) =
      rw taken (index_of-byte user secret 58 h) in
    mask_rest-found scheme (credentials ++ (64 ∷ rest)) (length credentials) (length user)
      (index_of-byte credentials rest 64 f) c
    ∙ rw (taken, drop-length credentials (64 ∷ rest), take-length user (58 ∷ secret)) refl

mask_rtsp_url-rest :
    (scheme rest : List ℕ)
    → free 58 scheme ≡ true
    → 8 ≤ length (scheme ++ scheme_end) + length rest
    → mask_rtsp_url ((scheme ++ scheme_end) ++ rest) ≡ mask_rest (scheme ++ scheme_end) rest
unfolding mask_rtsp_url
mask_rtsp_url-rest scheme rest h l =
    let found : index_of ((scheme ++ scheme_end) ++ rest) scheme_end ≡ some (length scheme) =
      rw (append_assoc scheme scheme_end rest) (index_of-first scheme (47 ∷ 47 ∷ []) rest 58 h) in
    let short : ltb (length ((scheme ++ scheme_end) ++ rest)) 8 ≡ false =
      ground (arith, l, length-append (scheme ++ scheme_end) rest) in
    rw
      (
        short,
        found,
        sym (length-append scheme scheme_end),
        take-length (scheme ++ scheme_end) rest,
        drop-length (scheme ++ scheme_end) rest,
        mask_rtsp_url,
      )
      refl

-- A URL of eight bytes or more with a user and a password: the scheme and the user have no ":", the
-- user and the password no "@". What is shown has three stars for the password, and everything else
-- as it is. So it does not depend on the password; but of a password with an "@" in it, what stands
-- behind that is shown.
pub password_is_masked :
    (scheme user secret host : List ℕ)
    → free 58 scheme ≡ true
    → free 58 user ≡ true
    → free 64 (user ++ 58 ∷ secret) ≡ true
    → 8 ≤ length (scheme ++ scheme_end) + length ((user ++ 58 ∷ secret) ++ (64 ∷ host))
    → (mask_rtsp_url ((scheme ++ scheme_end) ++ ((user ++ 58 ∷ secret) ++ (64 ∷ host)))
        ≡ (scheme ++ scheme_end) ++ user ++ colon ++ stars ++ (64 ∷ host))
      × ((shown : List ℕ)
          → mask_rtsp_url
              ((scheme ++ scheme_end) ++ ((user ++ 58 ∷ secret) ++ (64 ∷ (shown ++ (64 ∷ host)))))
            ≡ (scheme ++ scheme_end) ++ user ++ colon ++ stars ++ (64 ∷ (shown ++ (64 ∷ host))))
password_is_masked scheme user secret host h u f l = (
  mask_rtsp_url-rest scheme ((user ++ 58 ∷ secret) ++ (64 ∷ host)) h l
      ∙ mask_rest-secret (scheme ++ scheme_end) user secret host u f,
  λ shown.
      mask_rtsp_url-rest scheme ((user ++ 58 ∷ secret) ++ (64 ∷ (shown ++ (64 ∷ host)))) h (
        ground (
          arith,
          l,
          length-append (user ++ 58 ∷ secret) (64 ∷ host),
          length-append (user ++ 58 ∷ secret) (64 ∷ (shown ++ (64 ∷ host))),
          length-append shown (64 ∷ host),
        ))
      ∙ mask_rest-secret (scheme ++ scheme_end) user secret (shown ++ (64 ∷ host)) u f,
)
