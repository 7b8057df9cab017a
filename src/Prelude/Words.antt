-- ===== src/Prelude/Words.antt =====
-- Go's strings.Fields, strconv.Itoa and byte slices of strings.
use Prim.Native.Nat.{ℕ, zero, suc, ◌+◌, ◌/◌, ◌%◌}
use mathlib.Core.Path.{◌≡◌, refl}
use mathlib.Core.List.{List, [], ◌∷◌, ◌++◌}
use pagelode.Prelude.Tests.{ltb, if◌then◌else◌}
use pagelode.Prelude.Strings.{Str, codes}
use pagelode.Prelude.Runes.{runes, is_space}

-- The word being read and the words behind it.
close_word : Str × List Str → List Str
close_word ([], words) = words
close_word (c ∷ w, words) = (c ∷ w) ∷ words

words_from : List Str → Str × List Str
unfolding close_word
words_from [] = ([], [])
words_from (r ∷ rs) =
    let rest = words_from rs in if is_space r then ([], close_word rest) else (r ++ rest.0, rest.1)

-- strings.Fields
unfoldable pub fields : Str → List Str
unfolding words_from
fields s = close_word (words_from (runes s))

-- The decimal digits; a number has fewer digits than fuel.
digits_from : ℕ → ℕ → Str → Str
digits_from zero n acc = acc
digits_from (suc fuel) n acc =
    let rest = digits_from fuel (n / 10) ((48 + n % 10) ∷ acc) in
    if ltb n 10 then (48 + n) ∷ acc else rest

-- strconv.Itoa, %d
unfoldable pub itoa : ℕ → Str
unfolding digits_from
itoa n = digits_from (suc n) n []

itoa_test : itoa 1205 ≡ codes "1205"
unfolding itoa
itoa_test = refl

fields_test : fields (codes "  a bc\n") ≡ codes "a" ∷ codes "bc" ∷ []
unfolding fields runes is_space
fields_test = refl
