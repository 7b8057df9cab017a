-- ===== src/Discovery/Schema/Safety.antt =====
-- What the fields of a report may hold: no more than 512 of them, and no names but safe ones.
use pagelode.Prelude.{
  ℕ, suc, ◌≤◌, ◌≡◌, refl, arith, Str, List, [], ◌∷◌, ◌++◌, Option, none, some, ltb, if◌then◌else◌,
  str_eq, length, length-append, length-sort, Bool-cases, inl, inr, ap,
}
use pagelode.Discovery.Types.{Field}
use pagelode.Discovery.Schema.{
  merge_into, merge_field, merge_loop, merge_fields, maximum_fields, by_path,
}

-- The length of a list that is there, or a number.
abbrev SameLength : ℕ → Option (List Field) → Type 0
SameLength n none = Unit {0}
SameLength n (some fields) = length fields ≡ n

pushed :
    (n : ℕ) (old : Field) (x : Option (List Field))
    → SameLength n x
    → SameLength (suc n) (elim x [ none ↦ none | some fs ↦ some (old ∷ fs) ])
pushed n old none h = tt
pushed n old (some fields) h = ap suc h

merge_into-SameLength :
    (fields : List Field) (field : Field) (evidence : Str)
    → SameLength (length fields) (merge_into fields field evidence)
unfolding merge_into
merge_into-SameLength [] field evidence = tt
merge_into-SameLength (old ∷ fields) field evidence =
    elim (Bool-cases (str_eq old.path field.path)) [
      | inl same ↦ rw same refl
      | inr other ↦ rw other (
          pushed (length fields) old (merge_into fields field evidence)
            (merge_into-SameLength fields field evidence))
    ]

unmerged_lem :
    (existing : List Field) (field : Field)
    → length existing ≤ maximum_fields
    → length (if ltb (length existing) maximum_fields then existing ++ field ∷ [] else existing)
      ≤ maximum_fields
unmerged_lem existing field few = ground (arith, length-append existing (field ∷ []))

merged_lem :
    (n : ℕ) (other : List Field) (x : Option (List Field))
    → SameLength n x
    → n ≤ maximum_fields
    → length other ≤ maximum_fields
    → length (elim x [ some merged ↦ merged | none ↦ other ]) ≤ maximum_fields
merged_lem n other none h few room = room
merged_lem n other (some fields) h few room = omega (arith, h)

merge_field-few :
    (existing : List Field) (field : Field) (evidence : Str)
    → length existing ≤ maximum_fields
    → length (merge_field existing field evidence) ≤ maximum_fields
unfolding merge_field
merge_field-few existing field evidence few =
    merged_lem (length existing) _ (merge_into existing field evidence)
      (merge_into-SameLength existing field evidence) few
      (unmerged_lem existing (record field { evidence = evidence ∷ [] }) few)

merge_loop-few :
    (fields existing : List Field) (evidence : Str)
    → length existing ≤ maximum_fields
    → length (merge_loop existing fields evidence) ≤ maximum_fields
unfolding merge_loop
merge_loop-few [] existing evidence few = few
merge_loop-few (field ∷ fields) existing evidence few =
    merge_loop-few fields (merge_field existing field evidence) evidence
      (merge_field-few existing field evidence few)

-- Fields that are merged stay within the limit.
pub merge_fields-few :
    (existing incoming : List Field) (evidence : Str)
    → length existing ≤ maximum_fields
    → length (merge_fields existing incoming evidence) ≤ maximum_fields
unfolding merge_fields
merge_fields-few existing incoming evidence few = omega (
  arith,
  length-sort by_path (merge_loop existing incoming evidence),
  merge_loop-few incoming existing evidence few,
)
