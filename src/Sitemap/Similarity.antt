-- ===== src/Sitemap/Similarity.antt =====
-- Near-duplicate pages: pkg/sitemap/similarity.go. A uint64 is a number below 2^64, with its
-- wrap-around written out. Which runes are letters or numbers is a parameter.
pub mod Spread
use pagelode.Prelude.{
  ℕ, zero, suc, ◌+◌, ◌*◌, ◌/◌, ◌%◌, ◌^◌, Str, codes, List, [], ◌∷◌, ◌++◌, Bool, true, false, ltb,
  leb, ◌==◌, if◌then◌else◌, any, length, join, runes, to_lower, bit_xor,
}

abbrev word64 : ℕ
word64 = 2 ^ 64

-- hash/fnv, New64a
unfoldable pub hash_from : ℕ → Str → ℕ
hash_from h [] = h
hash_from h (c ∷ s) = hash_from (bit_xor h c * 1099511628211 % word64) s

unfoldable pub hash_string : Str → ℕ
unfolding hash_from
hash_string s = hash_from 14695981039346656037 s

unfoldable pub mix : ℕ → ℕ
mix x =
    let a = bit_xor x (x / 2 ^ 30) * 0xbf58476d1ce4e5b9 % word64 in
    let b = bit_xor a (a / 2 ^ 27) * 0x94d049bb133111eb % word64 in bit_xor b (b / 2 ^ 31)

-- strings.FieldsFunc: the word being read and the words behind it.
abbrev close_word : Str × List Str → List Str
close_word ([], words) = words
close_word (c ∷ w, words) = (c ∷ w) ∷ words

unfoldable pub words_from : (Str → Bool) → List Str → Str × List Str
words_from is_word [] = ([], [])
words_from is_word (r ∷ rs) =
    let rest = words_from is_word rs in
    if is_word r then (r ++ rest.0, rest.1) else ([], close_word rest)

unfoldable pub words_of : (Str → Bool) → Str → List Str
unfolding words_from
words_of is_word text = close_word (words_from is_word (runes (to_lower text)))

-- The shingles of three words.
unfoldable pub shingles : List Str → List Str
shingles (a ∷ b ∷ c ∷ rest) = join (a ∷ b ∷ c ∷ []) (codes " ") ∷ shingles (b ∷ c ∷ rest)
shingles words = []

unfoldable pub features : List Str → List Str
unfolding shingles
features words = if ltb (length words) 3 then words else shingles words

-- How often a bit is set in the hashes; its weight is the difference to the number of the others.
abbrev bit_of : ℕ → ℕ → ℕ
bit_of bit h = h / 2 ^ bit % 2

unfoldable pub ups : ℕ → List ℕ → ℕ
ups bit [] = 0
ups bit (h ∷ hs) = bit_of bit h + ups bit hs

unfoldable pub downs : ℕ → List ℕ → ℕ
downs bit [] = 0
downs bit (h ∷ hs) = (if bit_of bit h == 0 then 1 else 0) + downs bit hs

-- The bits of positive weight, from a bit on.
unfoldable pub fingerprint_from : ℕ → ℕ → List ℕ → ℕ
unfolding ups downs
fingerprint_from zero bit hs = 0
fingerprint_from (suc n) bit hs =
    (if ltb (downs bit hs) (ups bit hs) then 2 ^ bit else 0) + fingerprint_from n (bit + 1) hs

abbrev hashes : List Str → List ℕ
hashes [] = []
hashes (f ∷ fs) = mix (hash_string f) ∷ hashes fs

-- Fingerprint
unfoldable pub fingerprint : (Str → Bool) → Str → ℕ
unfolding words_of features fingerprint_from mix hash_string
fingerprint is_word text = fingerprint_from 64 0 (hashes (features (words_of is_word text)))

-- bits.OnesCount64
unfoldable pub ones : ℕ → ℕ → ℕ
ones zero x = 0
ones (suc n) x = x % 2 + ones n (x / 2)

unfoldable pub simhash_distance : ℕ → ℕ → ℕ
unfolding ones
simhash_distance a b = ones 64 (bit_xor a b)

pub record DuplicateIndex : Type 0 where
  pub max_distance : ℕ
  pub fingerprints : List ℕ

abbrev pub new_duplicate_index : ℕ → DuplicateIndex
new_duplicate_index max_distance = record { max_distance = max_distance; fingerprints = [] }

abbrev pub is_near : ℕ → ℕ → ℕ → Bool
is_near distance fingerprint known = leb (simhash_distance known fingerprint) distance

-- Seen
unfoldable pub seen : DuplicateIndex → ℕ → Bool × DuplicateIndex
unfolding simhash_distance
seen i fingerprint =
    if any (is_near i.max_distance fingerprint) i.fingerprints
    then (true, i)
    else (false, record i { fingerprints = i.fingerprints ++ fingerprint ∷ [] })
