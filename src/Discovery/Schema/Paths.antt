-- ===== src/Discovery/Schema/Paths.antt =====
-- The fields of a body name no more than the code lets through: schema of pkg/discovery/schema.go.
use pagelode.Prelude.{
  ℕ, suc, ◌+◌, ◌≤◌, ◌<◌, ◌≡◌, refl, arith, Str, codes, List, [], ◌∷◌, ◌++◌, true, false, ◌||◌, not,
  ltb, leb, if◌then◌else◌, str_eq, all, length, length-sort, Bool-cases, Option-cases, inl, inr, ap,
  All, put, remove, insert, sort,
}
use pagelode.Discovery.Types.{
  Field, Json, null, boolean, number, string, array, object, Items, end, item, Members, closed,
  member_of, Tools,
}
use pagelode.Discovery.Schema.{
  maximum_fields, by_path, is_safe_byte, safe_name, Found, stops, noted, noted_unless, walk,
  walk_items, walk_members, fields_of, schema,
}

-- A path of bytes that may stand in a report.
abbrev pub IsSafe : Str → Type 0
IsSafe path = all is_safe_byte path ≡ true

all-append : (s t : Str) → IsSafe s → IsSafe t → IsSafe (s ++ t)
all-append [] t h g = g
all-append (c ∷ s) t h g = elim (Bool-cases (is_safe_byte c)) [
  | inl safe ↦ simp safe (all-append s t (simp safe at h) g)
  | inr unsafe ↦ absurd (ground arith)
]

safe_name-IsSafe : (value : Str) → IsSafe (safe_name value)
unfolding safe_name
safe_name-IsSafe value =
    elim (Bool-cases (ltb 100 (length value) || not (all is_safe_byte value))) [
      | inl bad ↦ rw bad refl
      | inr good ↦ rw good (ground arith)
    ]

abbrev AreSafe : Found → Type 0
AreSafe fields = All (λ (entry : Str × List Str). IsSafe entry.0) fields

-- The fields that are found are bounded and safe.
abbrev IsOpen : Found → Type 0
IsOpen fields = (length fields ≤ maximum_fields) × AreSafe fields

remove-AreSafe :
    (fields : Found) (key : Str)
    → AreSafe fields
    → AreSafe (remove fields key) × (length (remove fields key) ≤ length fields)
unfolding remove
remove-AreSafe [] key h = (tt, omega arith)
remove-AreSafe ((path, types) ∷ fields) key h =
    let (safe, shorter) = remove-AreSafe fields key h.1 in
    elim (Bool-cases (str_eq path key)) [
      | inl same ↦ rw same (safe, omega (arith, shorter))
      | inr other ↦ rw other ((h.0, safe), omega (arith, shorter))
    ]

noted-IsOpen :
    (depth : ℕ) (fields : Found) (path kind : Str)
    → stops depth fields ≡ false
    → IsSafe path
    → IsOpen fields
    → IsOpen (noted fields path kind)
unfolding noted put
noted-IsOpen depth fields path kind goes_on safe (few, all_safe) =
    let (rest, shorter) = remove-AreSafe fields path all_safe in
    let room : length fields < maximum_fields = ground (arith, goes_on) in
    (omega (arith, shorter, room), (safe, rest))

noted_unless-IsOpen :
    (depth : ℕ) (fields : Found) (path kind : Str)
    → IsSafe path
    → IsOpen fields
    → IsOpen (noted_unless depth fields path kind)
noted_unless-IsOpen depth fields path kind safe h = elim (Bool-cases (stops depth fields)) [
  | inl full ↦ rw full h
  | inr room ↦ rw room (noted-IsOpen depth fields path kind room safe h)
]

unless_lem :
    (depth : ℕ) (fields inside : Found)
    → IsOpen fields
    → (stops depth fields ≡ false → IsOpen inside)
    → IsOpen (if stops depth fields then fields else inside)
unless_lem depth fields inside h g = elim (Bool-cases (stops depth fields)) [
  | inl full ↦ rw full h
  | inr room ↦ rw room (g room)
]

mutual
  unfolding walk

  walk-IsOpen :
      (value : Json) (path : Str) (depth : ℕ) (fields : Found)
      → IsSafe path
      → IsOpen fields
      → IsOpen (walk value path depth fields)
  walk-IsOpen null path depth fields safe h = noted_unless-IsOpen depth fields path _ safe h
  walk-IsOpen boolean path depth fields safe h = noted_unless-IsOpen depth fields path _ safe h
  walk-IsOpen number path depth fields safe h = noted_unless-IsOpen depth fields path _ safe h
  walk-IsOpen (string s) path depth fields safe h = noted_unless-IsOpen depth fields path _ safe h
  walk-IsOpen (array items) path depth fields safe h = unless_lem depth fields _ h (λ room.
      walk_items-IsOpen items 0 path depth _ safe
        (noted-IsOpen depth fields path (codes "array") room safe h))
  walk-IsOpen (object members) path depth fields safe h = unless_lem depth fields _ h (λ room.
      walk_members-IsOpen members path depth _ safe
        (noted-IsOpen depth fields path (codes "object") room safe h))

  walk_items-IsOpen :
      (items : Items) (i : ℕ) (path : Str) (depth : ℕ) (fields : Found)
      → IsSafe path
      → IsOpen fields
      → IsOpen (walk_items items i path depth fields)
  walk_items-IsOpen end i path depth fields safe h = h
  walk_items-IsOpen (item value rest) i path depth fields safe h =
      let inner = all-append path (codes "[]") safe refl in
      let next =
        walk_items-IsOpen rest (i + 1) path depth _ safe
          (walk-IsOpen value (path ++ codes "[]") (depth + 1) fields inner h) in
      elim (Bool-cases (leb 20 i)) [ inl many ↦ rw many h | inr few ↦ rw few next ]

  walk_members-IsOpen :
      (members : Members) (path : Str) (depth : ℕ) (fields : Found)
      → IsSafe path
      → IsOpen fields
      → IsOpen (walk_members members path depth fields)
  walk_members-IsOpen closed path depth fields safe h = h
  walk_members-IsOpen (member_of name value rest) path depth fields safe h =
      let inner =
        all-append path (codes "." ++ safe_name name) safe
          (all-append (codes ".") (safe_name name) refl (safe_name-IsSafe name)) in
      walk_members-IsOpen rest path depth _ safe
        (walk-IsOpen value (path ++ (codes "." ++ safe_name name)) (depth + 1) fields inner h)

abbrev pub HasSafePath : Field → Type 0
HasSafePath field = IsSafe field.path

fields_of-safe :
    (found : Found)
    → AreSafe found
    → All HasSafePath (fields_of found) × (length (fields_of found) ≡ length found)
unfolding fields_of
fields_of-safe [] h = (tt, refl)
fields_of-safe ((path, types) ∷ rest) h =
    let (safe, same) = fields_of-safe rest h.1 in ((h.0, safe), ap suc same)

insert-safe :
    (field : Field) (fields : List Field)
    → HasSafePath field
    → All HasSafePath fields
    → All HasSafePath (insert by_path field fields)
unfolding insert
insert-safe field [] h g = (h, tt)
insert-safe field (other ∷ fields) h g = elim (Bool-cases (by_path other field)) [
  | inl behind ↦ rw behind (g.0, insert-safe field fields h g.1)
  | inr before ↦ rw before (h, g)
]

sort-safe : (fields : List Field) → All HasSafePath fields → All HasSafePath (sort by_path fields)
unfolding sort
sort-safe [] h = tt
sort-safe (field ∷ fields) h = insert-safe field (sort by_path fields) h.0 (sort-safe fields h.1)

-- Whatever the body is, there are at most 512 fields in its schema, and the path of each consists of
-- ASCII letters, digits and the marks that safeName lets through, so that no other byte of the
-- body's names gets into the report.
pub schema-IsSafe :
    {U : Type 0} (tools : Tools U) (body : Str)
    → (length (schema tools body) ≤ maximum_fields) × All HasSafePath (schema tools body)
unfolding schema
schema-IsSafe tools body = elim (Option-cases (tools.parse_json body)) [
  | inl bad ↦ rw (bad, schema) (omega arith, tt)
  | inr (value, good) ↦
      let (few, safe) = walk-IsOpen value (codes "$") 0 [] refl (omega arith, tt) in
      let (named, same) = fields_of-safe (walk value (codes "$") 0 []) safe in
      rw (good, schema)
        (
          omega (arith, few, same, length-sort by_path (fields_of (walk value (codes "$") 0 []))),
          sort-safe (fields_of (walk value (codes "$") 0 [])) named,
        )
]
