-- ===== src/Discovery/Schema.antt =====
-- The fields of bodies and queries: pkg/discovery/schema.go. A map of Go is an association list.
pub mod Safety
pub mod Paths
use pagelode.Prelude.{
  ℕ, zero, suc, ◌+◌, Str, codes, List, [], ◌∷◌, ◌++◌, Option, none, some, Bool, true, false, ◌||◌,
  ◌&&◌, not, ltb, leb, ◌==◌, if◌then◌else◌, str_eq, contains, all, any, length, member, in_range,
  sort, str_less, Dict, get_or, put,
}
use pagelode.Discovery.Types.{
  Field, Json, null, boolean, number, string, array, object, Items, end, item, Members, closed,
  member_of, Tools,
}

abbrev pub maximum_fields : ℕ
maximum_fields = 512

-- appendUnique
unfoldable pub append_unique : List Str → Str → List Str
append_unique values value = if member value values then values else values ++ value ∷ []

-- The runes that safeName leaves, all of one byte.
abbrev pub is_safe_byte : ℕ → Bool
is_safe_byte c =
    in_range 97 122 c || in_range 65 90 c || in_range 48 57 c || any (λ b. b == c) (codes "_-$.:[]")

-- safeName
unfoldable pub safe_name : Str → Str
safe_name value =
    if ltb 100 (length value) || not (all is_safe_byte value) then codes "[redacted]" else value

-- The types found at each path.
abbrev pub Found : Type 0
Found = Dict (List Str)

abbrev pub stops : ℕ → Found → Bool
stops depth fields = ltb 8 depth || leb maximum_fields (length fields)

-- A type at a path.
unfoldable pub noted : Found → Str → Str → Found
unfolding append_unique
noted fields path kind = put fields path (append_unique (get_or fields path []) kind)

abbrev pub noted_unless : ℕ → Found → Str → Str → Found
noted_unless depth fields path kind = if stops depth fields then fields else noted fields path kind

-- walkSchema, with its two loops; of an array it walks 20 items.
unfoldable mutual
  unfolding noted safe_name

  pub walk : Json → Str → ℕ → Found → Found
  walk null path depth fields = noted_unless depth fields path (codes "null")
  walk boolean path depth fields = noted_unless depth fields path (codes "boolean")
  walk number path depth fields = noted_unless depth fields path (codes "number")
  walk (string s) path depth fields = noted_unless depth fields path (codes "string")
  walk (array items) path depth fields =
      let inside = walk_items items 0 path depth (noted fields path (codes "array")) in
      if stops depth fields then fields else inside
  walk (object members) path depth fields =
      let inside = walk_members members path depth (noted fields path (codes "object")) in
      if stops depth fields then fields else inside

  pub walk_items : Items → ℕ → Str → ℕ → Found → Found
  walk_items end i path depth fields = fields
  walk_items (item value rest) i path depth fields =
      let next =
        walk_items rest (i + 1) path depth (walk value (path ++ codes "[]") (depth + 1) fields) in
      if leb 20 i then fields else next

  pub walk_members : Members → Str → ℕ → Found → Found
  walk_members closed path depth fields = fields
  walk_members (member_of name value rest) path depth fields =
      walk_members rest path depth
        (walk value (path ++ (codes "." ++ safe_name name)) (depth + 1) fields)

abbrev pub by_path : Field → Field → Bool
by_path a b = str_less a.path b.path

unfoldable pub fields_of : Found → List Field
fields_of [] = []
fields_of ((path, types) ∷ rest) =
    record { path = path; types = sort str_less types; evidence = [] } ∷ fields_of rest

unfoldable pub append_all : List Str → List Str → List Str
append_all values [] = values
append_all values (kind ∷ kinds) = append_all (append_unique values kind) kinds

-- What a field takes of another one at the same path.
abbrev pub joined : Field → Field → Str → Field
joined old field evidence = record old {
  types = append_all old.types field.types;
  evidence = append_unique old.evidence evidence;
}

-- The inner loop of mergeFields; `none` says that no field has the path.
unfoldable pub merge_into : List Field → Field → Str → Option (List Field)
merge_into [] field evidence = none
merge_into (old ∷ rest) field evidence =
    let later = merge_into rest field evidence in
    if str_eq old.path field.path
    then some (joined old field evidence ∷ rest)
    else elim later [ none ↦ none | some merged ↦ some (old ∷ merged) ]

unfoldable pub merge_field : List Field → Field → Str → List Field
merge_field existing field evidence = elim (merge_into existing field evidence) [
  | some merged ↦ merged
  | none ↦
      if ltb (length existing) maximum_fields
      then existing ++ record field { evidence = evidence ∷ [] } ∷ []
      else existing
]

unfoldable pub merge_loop : List Field → List Field → Str → List Field
unfolding merge_field
merge_loop existing [] evidence = existing
merge_loop existing (field ∷ fields) evidence =
    merge_loop (merge_field existing field evidence) fields evidence

-- mergeFields
unfoldable pub merge_fields : List Field → List Field → Str → List Field
unfolding merge_loop
merge_fields existing incoming evidence = sort by_path (merge_loop existing incoming evidence)

module _ {U : Type 0} (tools : Tools U) where
  unfoldable pub schema : Str → List Field
  unfolding walk fields_of
  schema body = elim (tools.parse_json body) [
    | none ↦ []
    | some value ↦ sort by_path (fields_of (walk value (codes "$") 0 []))
  ]

  abbrev kind_of : Str → Str
  kind_of value =
      if tools.parses_float value
      then codes "number"
      else if str_eq value (codes "true") || str_eq value (codes "false")
      then codes "boolean"
      else codes "string"

  abbrev kinds_of : List Str → List Str → List Str
  kinds_of types [] = types
  kinds_of types (value ∷ values) = kinds_of (append_unique types (kind_of value)) values

  unfoldable pub query_loop : List (Str × List Str) → Str → List Field
  unfolding safe_name
  query_loop [] prefix = []
  query_loop ((name, values) ∷ rest) prefix =
      record { path = prefix ++ safe_name name; types = kinds_of [] values; evidence = [] }
      ∷ query_loop rest prefix

  -- queryFields
  unfoldable pub query_fields : List (Str × List Str) → Str → List Field
  unfolding query_loop
  query_fields values prefix = sort by_path (query_loop values prefix)

  -- requestFields where the body is not JSON.
  unfoldable pub form_fields : Str → Str → List Field
  unfolding query_fields
  form_fields body content_type =
      if contains content_type (codes "application/x-www-form-urlencoded")
      then elim (tools.parse_query body) [
        | none ↦ []
        | some values ↦ query_fields values (codes "body.")
      ]
      else []

  -- requestFields
  unfoldable pub request_fields : Str → Str → List Field
  unfolding schema form_fields
  request_fields body content_type =
      let fields = schema body in
      if length fields == 0 then form_fields body content_type else fields
