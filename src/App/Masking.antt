-- ===== src/App/Masking.antt =====
-- maskRTSPURL of go-legacy/cmd/server/main.go, and maskURL of internal/cctv/manager.go, which is the
-- same code: the URL that a log line shows. A text is its bytes.
pub mod Secrecy
pub mod Tests
use media_stream.Base.{
  ℕ, suc, ◌+◌, ◌-◌, Bool, true, false, Option, none, some, List, [], ◌∷◌, ◌++◌, ltb, map_some,
  if◌then◌else◌, length,
}
use media_stream.Webrtc.Codec.{has_prefix}

-- strings.Index
unfoldable pub index_of : List ℕ → List ℕ → Option ℕ
unfolding has_prefix
index_of [] part = if has_prefix [] part then some 0 else none
index_of (a ∷ s) part =
    if has_prefix (a ∷ s) part then some 0 else map_some (λ n. n + 1) (index_of s part)

-- s[:n] and s[n:]
abbrev pub take : ℕ → List ℕ → List ℕ
take n [] = []
take n (a ∷ s) = if ltb 0 n then a ∷ take (n - 1) s else []

abbrev pub drop : ℕ → List ℕ → List ℕ
drop n [] = []
drop n (a ∷ s) = if ltb 0 n then drop (n - 1) s else a ∷ s

-- The bytes of "***", "://", "@", ":" and ":***".
abbrev pub stars : List ℕ
stars = 42 ∷ 42 ∷ 42 ∷ []

abbrev pub scheme_end : List ℕ
scheme_end = 58 ∷ 47 ∷ 47 ∷ []

abbrev pub at_sign : List ℕ
at_sign = 64 ∷ []

abbrev pub colon : List ℕ
colon = 58 ∷ []

-- From the credentials on: what stands before the first "@" of the rest, if there is one.
unfoldable pub mask_rest : List ℕ → List ℕ → List ℕ
unfolding index_of
mask_rest scheme rest = elim (index_of rest at_sign) [
  | none ↦ scheme ++ rest
  | some at ↦ elim (index_of (take at rest) colon) [
    | none ↦ scheme ++ rest
    | some c ↦ scheme ++ take c (take at rest) ++ colon ++ stars ++ drop at rest
  ]
]

unfoldable pub mask_rtsp_url : List ℕ → List ℕ
unfolding mask_rest
mask_rtsp_url url = if ltb (length url) 8 then stars else elim (index_of url scheme_end) [
  | none ↦ stars
  | some i ↦ mask_rest (take (i + 3) url) (drop (i + 3) url)
]
