-- ===== src/Prelude/Maps.antt =====
-- Go maps with string keys, as association lists that hold a key at most once after a write.
-- The model never depends on the order of the entries.
use mathlib.Core.Path.{◌≡◌}
use mathlib.Core.Bool.{Bool, true, false}
use mathlib.Core.Option.{Option, none, some}
use mathlib.Core.List.{List, [], ◌∷◌}
use native.Mathlib.Omega.{arith}
use mathlib.Core.Logic.{inl, inr}
use pagelode.Prelude.Tests.{if◌then◌else◌, Bool-cases}
use pagelode.Prelude.Strings.{Str, str_eq, str_eq_iff, str_eq_refl}

abbrev pub Dict {ℓ} : Type ℓ → Type ℓ
Dict V = List (Str × V)

module _ {ℓ} {V : Type ℓ} where
  -- m[k]
  unfoldable pub get : Dict V → Str → Option V
  get [] k = none
  get ((j, v) ∷ m) k = if str_eq j k then some v else get m k

  -- delete(m, k)
  unfoldable pub remove : Dict V → Str → Dict V
  remove [] k = []
  remove ((j, v) ∷ m) k = let rest = remove m k in if str_eq j k then rest else (j, v) ∷ rest

  -- m[k] = v
  unfoldable pub put : Dict V → Str → V → Dict V
  unfolding remove
  put m k v = (k, v) ∷ remove m k

  pub get-remove :
      (m : Dict V) (k j : Str) → get (remove m k) j ≡ (if str_eq k j then none else get m j)
  unfolding get remove
  get-remove [] k j = ground arith
  get-remove ((i, v) ∷ m) k j =
      ground (arith, get-remove m k j, str_eq_iff i k, str_eq_iff i j, str_eq_iff k j)

module _ {ℓ} {V : Type ℓ} where
  pub get-put :
      (m : Dict V) (k : Str) (v : V) (j : Str)
      → get (put m k v) j ≡ (if str_eq k j then some v else get m j)
  unfolding get put
  get-put m k v j = ground (arith, get-remove m k j)

  -- The value of a missing key is the zero value.
  abbrev pub get_or : Dict V → Str → V → V
  get_or m k d = elim (get m k) [ none ↦ d | some v ↦ v ]

  abbrev pub has : Dict V → Str → Bool
  has m k = elim (get m k) [ none ↦ false | some v ↦ true ]

-- Two maps that answer every key alike.
abbrev pub SameMap {ℓ} : {V : Type ℓ} → Dict V → Dict V → Type ℓ
SameMap m n = (k : Str) → get m k ≡ get n k

-- No key twice.
abbrev pub IsMap {ℓ} : {V : Type ℓ} → Dict V → Type ℓ
IsMap [] = Unit
IsMap ((k, v) ∷ m) = (get m k ≡ none) × IsMap m

module _ {ℓ} {V : Type ℓ} where
  pub remove-IsMap : (m : Dict V) (k : Str) → IsMap m → IsMap (remove m k)
  unfolding remove
  remove-IsMap [] k h = tt
  remove-IsMap ((i, v) ∷ m) k (absent, h) = elim (Bool-cases (str_eq i k)) [
    | inl same ↦ rw same (remove-IsMap m k h)
    | inr other ↦ rw other (ground (arith, get-remove m k i, absent), remove-IsMap m k h)
  ]

  pub put-IsMap : (m : Dict V) (k : Str) (v : V) → IsMap m → IsMap (put m k v)
  unfolding put
  put-IsMap m k v h = (rw (get-remove, str_eq_refl), remove-IsMap m k h)

  pub get_or-put :
      (m : Dict V) (k : Str) (v : V) (j : Str) (d : V)
      → get_or (put m k v) j d ≡ (if str_eq k j then v else get_or m j d)
  get_or-put m k v j d = ground (arith, get-put m k v j)

  pub get_or-remove :
      (m : Dict V) (k j : Str) (d : V)
      → get_or (remove m k) j d ≡ (if str_eq k j then d else get_or m j d)
  get_or-remove m k j d = ground (arith, get-remove m k j)
