-- ===== src/Prelude/Runes.antt =====
-- The runes of a Go string: UTF-8 decoding as utf8.DecodeRune does it, and strings.TrimSpace.
-- A rune is kept as the bytes that encode it; a byte that encodes none is a piece of its own.
use Prim.Native.Nat.{ℕ, zero, suc, ◌≤◌}
use mathlib.Core.Path.{◌≡◌, refl}
use mathlib.Core.Bool.{Bool, true, false, ◌&&◌, ◌||◌}
use mathlib.Core.List.{List, [], ◌∷◌, map, reverse}
use native.Mathlib.Omega.{arith}
use pagelode.Prelude.Tests.{ltb, leb, ◌==◌, if◌then◌else◌}
use pagelode.Prelude.Lists.{length, take, drop_while, concat, all}
use pagelode.Prelude.Strings.{Str}

abbrev pub in_range : ℕ → ℕ → ℕ → Bool
in_range lo hi c = leb lo c && leb c hi

-- n continuation bytes, the first of them from lo to hi.
continues : ℕ → ℕ → ℕ → Str → Bool
continues lo hi zero s = true
continues lo hi (suc n) [] = false
continues lo hi (suc n) (c ∷ s) = in_range lo hi c && continues 0x80 0xbf n s

low_second : ℕ → ℕ
low_second b = if b == 0xe0 then 0xa0 else if b == 0xf0 then 0x90 else 0x80

high_second : ℕ → ℕ
high_second b = if b == 0xed then 0x9f else if b == 0xf4 then 0x8f else 0xbf

-- How many continuation bytes a first byte of two or more asks for; 0 for none.
trailing : ℕ → ℕ
trailing b =
    if in_range 0xc2 0xdf b
    then 1
    else if in_range 0xe0 0xef b
    then 2
    else if in_range 0xf0 0xf4 b
    then 3
    else 0

-- The bytes behind the first one that belong to the rune at the head; 0 if it is invalid.
rest_width : ℕ → Str → ℕ
unfolding continues low_second high_second trailing
rest_width b s =
    if ltb b 0x80
    then 0
    else if continues (low_second b) (high_second b) (trailing b) s
    then trailing b
    else 0

runes_from : ℕ → Str → List Str
unfolding rest_width
runes_from k [] = []
runes_from (suc k) (c ∷ s) = runes_from k s
runes_from zero (c ∷ s) = let w = rest_width c s in (c ∷ take w s) ∷ runes_from w s

unfoldable pub runes : Str → List Str
unfolding runes_from
runes s = runes_from 0 s

abbrev is_encoded : Str → Bool
is_encoded (b ∷ []) = ltb b 0x80
is_encoded _ = true

-- utf8.ValidString
unfoldable pub valid_utf8 : Str → Bool
unfolding runes
valid_utf8 s = all is_encoded (runes s)

-- string(r) for the rune of such a piece: an invalid byte becomes U+FFFD.
abbrev encode : Str → Str
encode [] = []
encode (b ∷ []) = if ltb b 0x80 then b ∷ [] else 0xef ∷ 0xbf ∷ 0xbd ∷ []
encode (b ∷ c ∷ s) = b ∷ c ∷ s

-- string([]rune)
unfoldable pub of_runes : List Str → Str
of_runes rs = concat (map encode rs)

-- unicode.IsSpace
unfoldable pub is_space : Str → Bool
is_space (b ∷ []) = b == 0x20 || in_range 9 13 b
is_space (b ∷ c ∷ []) = b == 0xc2 && (c == 0x85 || c == 0xa0)
is_space (b ∷ c ∷ d ∷ []) =
    b == 0xe1 && c == 0x9a && d == 0x80
    || b == 0xe2 && c == 0x80 && (in_range 0x80 0x8a d || d == 0xa8 || d == 0xa9 || d == 0xaf)
    || b == 0xe2 && c == 0x81 && d == 0x9f
    || b == 0xe3 && c == 0x80 && d == 0x80
is_space _ = false

-- strings.TrimSpace
unfoldable pub trim_space : Str → Str
unfolding runes is_space
trim_space s = concat (reverse (drop_while is_space (reverse (drop_while is_space (runes s)))))

runes_from-le : (k : ℕ) (s : Str) → length (runes_from k s) ≤ length s
unfolding runes_from
runes_from-le k [] = omega arith
runes_from-le (suc k) (c ∷ s) = omega (arith, runes_from-le k s)
runes_from-le zero (c ∷ s) = omega (arith, runes_from-le (rest_width c s) s)

-- A string has at most as many runes as bytes.
pub length-runes-le : (s : Str) → length (runes s) ≤ length s
unfolding runes
length-runes-le s = runes_from-le 0 s

trim_test :
    trim_space (0x20 ∷ 0xc2 ∷ 0xa0 ∷ 0x61 ∷ 0x20 ∷ 0xff ∷ 0xe2 ∷ 0x80 ∷ 0x82 ∷ 9 ∷ [])
    ≡ 0x61 ∷ 0x20 ∷ 0xff ∷ []
unfolding trim_space
trim_test = refl
