-- ===== src/Logger/Path.antt =====
-- getDailyFilePath of go-legacy/pkg/logger/logger.go, on bytes.
use media_stream.Base.{
  ℕ, ◌-◌, ◌≡◌, refl, sym, ap, subst, ◌∙◌, Bool, true, false, List, [], ◌∷◌, ◌++◌, ◌==◌, ◌&&◌, not,
  arith, if◌then◌else◌, length, length-append, Bool-cases, inl, inr,
}
use media_stream.App.Masking.{take, drop}

abbrev pub bytes_eq : List ℕ → List ℕ → Bool
bytes_eq [] [] = true
bytes_eq [] (b ∷ t) = false
bytes_eq (a ∷ s) [] = false
bytes_eq (a ∷ s) (b ∷ t) = (a == b) && bytes_eq s t

-- Neither "." nor "/" occurs.
abbrev plain : List ℕ → Bool
plain [] = true
plain (b ∷ s) = not (b == 46) && not (b == 47) && plain s

-- filepath.Ext: from the last "." of the last element on.
unfoldable pub ext : List ℕ → List ℕ
ext [] = []
ext (b ∷ s) = let rest = ext s in if (b == 46) && plain s then b ∷ s else rest

-- strings.TrimSuffix
unfoldable pub trim_suffix : List ℕ → List ℕ → List ℕ
trim_suffix s suffix =
    if bytes_eq (drop (length s - length suffix) s) suffix
    then take (length s - length suffix) s
    else s

-- `day` is the date as the layout "2006-01-02" writes it.
unfoldable pub get_daily_file_path : List ℕ → List ℕ → List ℕ
unfolding ext trim_suffix
get_daily_file_path base day = trim_suffix base (ext base) ++ (45 ∷ day ++ ext base)

bytes_eq_refl : (s : List ℕ) → bytes_eq s s ≡ true
bytes_eq_refl [] = refl
bytes_eq_refl (b ∷ s) = ground (arith, bytes_eq_refl s)

drop-all : (n : ℕ) (s : List ℕ) → n ≡ 0 → drop n s ≡ s
drop-all n [] h = refl
drop-all n (b ∷ s) h = ground (arith, h)

take-none : (n : ℕ) (s : List ℕ) → n ≡ 0 → take n s ≡ []
take-none n [] h = refl
take-none n (b ∷ s) h = ground (arith, h)

-- The base is something and its extension.
stem : List ℕ → List ℕ
stem [] = []
stem (b ∷ s) = let rest = stem s in if (b == 46) && plain s then [] else b ∷ rest

stem-ext : (s : List ℕ) → stem s ++ ext s ≡ s
unfolding stem ext
stem-ext [] = refl
stem-ext (b ∷ s) = elim (Bool-cases ((b == 46) && plain s)) [
  | inl h ↦ rw h refl
  | inr h ↦ rw h (ap (λ t. b ∷ t) (stem-ext s))
]

drop-append : (s t : List ℕ) → drop (length s) (s ++ t) ≡ t
drop-append [] t = drop-all 0 t refl
drop-append (b ∷ s) t = ground (arith, drop-append s t)

take-append : (s t : List ℕ) → take (length s) (s ++ t) ≡ s
take-append [] t = take-none 0 t refl
take-append (b ∷ s) t = ground (arith, take-append s t)

trim_suffix-append : (s t : List ℕ) → trim_suffix (s ++ t) t ≡ s
unfolding trim_suffix
trim_suffix-append s t =
    let n : length (s ++ t) - length t ≡ length s = ground (arith, length-append s t) in
    rw (n, drop-append s t, bytes_eq_refl t) (take-append s t)

daily_path-stem :
    (base day : List ℕ) → get_daily_file_path base day ≡ stem base ++ (45 ∷ day ++ ext base)
unfolding get_daily_file_path
daily_path-stem base day =
    let trimmed : trim_suffix base (ext base) ≡ stem base =
      subst (λ s. trim_suffix s (ext base) ≡ stem base) (stem-ext base)
        (trim_suffix-append (stem base) (ext base)) in
    ap (λ s. s ++ (45 ∷ day ++ ext base)) trimmed

append_cancel_left : (s t u : List ℕ) → s ++ t ≡ s ++ u → t ≡ u
append_cancel_left [] t u h = h
append_cancel_left (b ∷ s) t u h = append_cancel_left s t u (ground (arith, h))

append_cancel_right : (s t u : List ℕ) → s ++ u ≡ t ++ u → s ≡ t
append_cancel_right [] [] u h = refl
append_cancel_right [] (b ∷ t) u h = absurd (ground (arith, ap length h, length-append (b ∷ t) u))
append_cancel_right (a ∷ s) [] u h = absurd (ground (arith, ap length h, length-append (a ∷ s) u))
append_cancel_right (a ∷ s) (b ∷ t) u h =
    let same : a ≡ b = ground (arith, h) in
    let rest : s ≡ t = append_cancel_right s t u (ground (arith, h)) in ground (arith, same, rest)

-- The file of a day is the base with the date before the extension of its last element, if it has
-- one, so that no two days have the same file.
pub get_daily_file_path-injective :
    (base day day' : List ℕ)
    → get_daily_file_path base day ≡ get_daily_file_path base day'
    → day ≡ day'
get_daily_file_path-injective base day day' h =
    let same : stem base ++ (45 ∷ day ++ ext base) ≡ stem base ++ (45 ∷ day' ++ ext base) =
      sym (daily_path-stem base day) ∙ h ∙ daily_path-stem base day' in
    let rest : 45 ∷ day ++ ext base ≡ 45 ∷ day' ++ ext base =
      append_cancel_left (stem base) (45 ∷ day ++ ext base) (45 ∷ day' ++ ext base) same in
    append_cancel_right day day' (ext base) (ground (arith, rest))
