-- ===== src/GoMap.antt =====
-- Go's `map[string]V`. A map is a list of entries with the newest first; `range` visits them in
-- the order of the list. Go's order is not specified: what is shown for every list of entries holds
-- in whatever order the entries are visited.
use media_stream.Base.{
  ℕ, ◌+◌, ◌≤◌, String, ◌≡◌, refl, Bool, Option, none, some, List, [], ◌∷◌, arith, str_eq, eq_iff,
  ◌∙◌, subst, inl, inr, Bool-cases, if◌then◌else◌, is_some, length,
}

pub record GoMap {ℓ} (V : Type ℓ) : Type ℓ where
  pub entries : List (String × V)

module _ {ℓ} {V : Type ℓ} where
  unfoldable pub lookup : String → List (String × V) → Option V
  lookup key [] = none
  lookup key (entry ∷ others) = if str_eq entry.0 key then some entry.1 else lookup key others

  unfoldable pub without : String → List (String × V) → List (String × V)
  without key [] = []
  without key (entry ∷ others) =
      let kept = without key others in if str_eq entry.0 key then kept else entry ∷ kept

  -- make(map[string]V)
  unfoldable pub empty : GoMap V
  empty = record { entries = [] }

  -- v, exists := m[k]
  unfoldable pub get : GoMap V → String → Option V
  unfolding lookup
  get m k = lookup k m.entries

  -- m[k] = v
  unfoldable pub put : GoMap V → String → V → GoMap V
  unfolding without
  put m k v = record { entries = (k, v) ∷ without k m.entries }

  -- delete(m, k)
  unfoldable pub remove : GoMap V → String → GoMap V
  unfolding without
  remove m k = record { entries = without k m.entries }

  -- len(m)
  abbrev pub size : GoMap V → ℕ
  size m = length m.entries

  abbrev pub contains : GoMap V → String → Bool
  contains m k = is_some (get m k)

  pub get-lookup : (m : GoMap V) (k : String) → get m k ≡ lookup k m.entries
  unfolding get
  get-lookup m k = refl

  lookup-without :
      (gone key : String) (entries : List (String × V))
      → lookup key (without gone entries) ≡ (if str_eq gone key then none else lookup key entries)
  unfolding without lookup
  lookup-without gone key [] = ground arith
  lookup-without gone key ((name, x) ∷ others) =
      ground
        (arith, eq_iff gone key, eq_iff name key, eq_iff name gone, lookup-without gone key others)

  pub get-remove :
      (m : GoMap V) (k j : String) → get (remove m k) j ≡ (if str_eq k j then none else get m j)
  unfolding get remove
  get-remove m k j = lookup-without k j m.entries

  pub get-put :
      (m : GoMap V) (k j : String) (v : V)
      → get (put m k v) j ≡ (if str_eq k j then some v else get m j)
  unfolding get put
  get-put m k j v = ground (arith, lookup-without k j m.entries)

  length-without-le : (k : String) (l : List (String × V)) → length (without k l) ≤ length l
  unfolding without
  length-without-le k [] = omega arith
  length-without-le k ((j, v) ∷ l) = ground (arith, length-without-le k l)

  length-without_absent :
      (k : String) (l : List (String × V)) → lookup k l ≡ none → length (without k l) ≡ length l
  unfolding without lookup
  length-without_absent k [] h = refl
  length-without_absent k ((j, v) ∷ l) h = ground (arith, length-without_absent k l)

  length-without_present :
      (k : String) (v : V) (l : List (String × V))
      → lookup k l ≡ some v
      → length (without k l) + 1 ≤ length l
  unfolding without lookup
  length-without_present k v [] h = cc
  length-without_present k v ((j, w) ∷ l) h =
      ground (arith, length-without_present k v l, length-without-le k l)

  -- A write of a new key adds one entry.
  pub size-put_absent :
      (m : GoMap V) (k : String) (v : V) → get m k ≡ none → size (put m k v) ≡ size m + 1
  unfolding get put
  size-put_absent m k v h = omega (arith, length-without_absent k m.entries h)

  -- A write of a key that is there adds none.
  pub size-put_present :
      (m : GoMap V) (k : String) (v : V) {w : V} → get m k ≡ some w → size (put m k v) ≤ size m
  unfolding get put
  size-put_present m k v {w} h = omega (arith, length-without_present k w m.entries h)

  pub size-put-le : (m : GoMap V) (k : String) (v : V) → size (put m k v) ≤ size m + 1
  unfolding put
  size-put-le m k v = omega (arith, length-without-le k m.entries)

  pub size-remove-le : (m : GoMap V) (k : String) → size (remove m k) ≤ size m
  unfolding remove
  size-remove-le m k = length-without-le k m.entries

  pub size-remove_present :
      (m : GoMap V) (k : String) {v : V} → get m k ≡ some v → size (remove m k) + 1 ≤ size m
  unfolding get remove
  size-remove_present m k {v} h = length-without_present k v m.entries h

-- In a Go map every key occurs once.
abbrev pub KeysDistinct {ℓ} : {V : Type ℓ} → List (String × V) → Type ℓ
KeysDistinct [] = Unit
KeysDistinct ((k, v) ∷ l) = (lookup k l ≡ none) × KeysDistinct l

abbrev pub AllEntries {ℓ κ} : {V : Type ℓ} → (String → V → Type κ) → List (String × V) → Type κ
AllEntries P [] = Unit
AllEntries P ((k, v) ∷ l) = P k v × AllEntries P l

module _ {ℓ} {V : Type ℓ} where
  KeysDistinct-without :
      (k : String) (l : List (String × V)) → KeysDistinct l → KeysDistinct (without k l)
  unfolding without
  KeysDistinct-without k [] h = tt
  KeysDistinct-without k ((j, v) ∷ l) h =
      ground (arith, KeysDistinct-without k l, lookup-without k j l)

  pub put-KeysDistinct :
      (m : GoMap V) (k : String) (v : V) → KeysDistinct m.entries → KeysDistinct (put m k v).entries
  unfolding put
  put-KeysDistinct m k v h = (
    lookup-without k k m.entries ∙ ground (arith, eq_iff k k),
    KeysDistinct-without k m.entries h,
  )

  pub remove-KeysDistinct :
      (m : GoMap V) (k : String) → KeysDistinct m.entries → KeysDistinct (remove m k).entries
  unfolding remove
  remove-KeysDistinct m k h = KeysDistinct-without k m.entries h

  -- What holds of every key that reads holds of every entry.
  pub AllEntries-of_lookup {κ} :
      (P : String → V → Type κ) (l : List (String × V))
      → KeysDistinct l
      → ((k : String) (v : V) → lookup k l ≡ some v → P k v)
      → AllEntries P l
  AllEntries-of_lookup P [] d f = tt
  AllEntries-of_lookup P ((k, v) ∷ l) d f = (
    f k v (unfold lookup in ground (arith, eq_iff k k)),
    AllEntries-of_lookup P l d.1 (λ j w e. f j w (unfold lookup in ground (arith, eq_iff k j))),
  )

  pub AllEntries-lookup {κ} :
      (P : String → V → Type κ) (k : String) (v : V) (l : List (String × V))
      → AllEntries P l
      → lookup k l ≡ some v
      → P k v
  unfolding lookup
  AllEntries-lookup P k v [] a e = cc
  AllEntries-lookup P k v ((j, w) ∷ l) a e = elim (Bool-cases (str_eq j k)) [
    | inl q ↦ subst (P k) (ground arith) (subst (λ i. P i w) ((eq_iff j k).0 q) a.0)
    | inr q ↦ AllEntries-lookup P k v l a.1 (rw q at e)
  ]

  pub AllEntries-mono {κ μ} :
      (P : String → V → Type κ) (Q : String → V → Type μ) (l : List (String × V))
      → ((k : String) (v : V) → lookup k l ≡ some v → P k v → Q k v)
      → KeysDistinct l
      → AllEntries P l
      → AllEntries Q l
  AllEntries-mono P Q l f d a =
      AllEntries-of_lookup Q l d (λ k v e. f k v e (AllEntries-lookup P k v l a e))

pub get-empty {ℓ} : {V : Type ℓ} (k : String) → get (empty {V = V}) k ≡ none
unfolding get empty
get-empty k = refl

pub ruleset map_laws = (get-empty, get-put, get-remove)
