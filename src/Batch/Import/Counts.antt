-- ===== src/Batch/Import/Counts.antt =====
-- The counts of an import: pkg/batch/import.go.
use pagelode.Prelude.{
  ℕ, ◌+◌, ◌≤◌, if◌then◌else◌, ◌≡◌, refl, arith, Str, codes, List, [], ◌∷◌, ◌++◌, Option, none, some,
  Bool, true, false, length, length-append, Bool-cases, inl, inr, str_eq, has_prefix, ◌||◌, ◌==◌,
  trim_space, ==_iff, ltb,
}
use pagelode.Batch.Import.{
  Entry, ImportStats, UrlParts, Client, Import, with_line, no_import, in_batch, normalize,
  count_results, flushed, flush, take_entry, take_normalized, take_line, take_lines, import_urls,
}

-- Every counted line is accounted for, or waits in the batch; the batch is not full.
abbrev pub IsBalanced : Import → Type 0
IsBalanced i =
    i.stats.lines ≡ i.stats.invalid + i.stats.inserted + i.stats.duplicates + length i.entries

count_results-sum :
    (results : List Bool) (s : ImportStats)
    → ((count_results results s).lines ≡ s.lines)
      × ((count_results results s).invalid ≡ s.invalid)
      × ((count_results results s).inserted + (count_results results s).duplicates
          ≡ s.inserted + s.duplicates + length results)
unfolding count_results
count_results-sum [] s = (refl, refl, omega arith)
count_results-sum (true ∷ results) s =
    let (l, i, sum) = count_results-sum results (record s { duplicates = s.duplicates + 1 }) in
    (l, i, omega (arith, sum))
count_results-sum (false ∷ results) s =
    let (l, i, sum) = count_results-sum results (record s { inserted = s.inserted + 1 }) in
    (l, i, omega (arith, sum))

-- A blank line or a comment.
abbrev pub is_skipped : Str → Bool
is_skipped raw = str_eq (trim_space raw) [] || has_prefix (trim_space raw) (codes "#")

-- The lines that are to be counted.
abbrev pub counted_in : List Str → ℕ
counted_in [] = 0
counted_in (raw ∷ lines) = (if is_skipped raw then 0 else 1) + counted_in lines

-- Those of them that Normalize refuses.
abbrev pub invalid_in : {U : Type 0} → UrlParts U → List Str → ℕ
invalid_in net [] = 0
invalid_in net (raw ∷ lines) =
    (if is_skipped raw then 0 else elim (normalize net (trim_space raw)) [ none ↦ 1 | some e ↦ 0 ])
    + invalid_in net lines

-- What an import has when it ends: its counts and its batch are balanced, and it has counted no more
-- lines than there are to count; without an error it has counted all of these, the refused ones as
-- invalid, and the batch is empty.
abbrev pub IsImported : {U W : Type 0} → UrlParts U → List Str → Bool × Import × W → Type 0
IsImported net lines (done, i, w) =
    IsBalanced i
    × (i.stats.lines ≤ counted_in lines)
    × (done ≡ true
        → (i.stats.lines ≡ counted_in lines)
          × (i.stats.invalid ≡ invalid_in net lines)
          × (length i.entries ≡ 0))

-- River answers each entry of a batch.
abbrev pub AnswersAll : {W : Type 0} → Client W → Type 0
AnswersAll {W} client =
    (w : W) (entries : List Entry) (results : List Bool)
    → (client.insert_many w entries).0 ≡ some results
    → length results ≡ length entries

module _ {U W : Type 0} (net : UrlParts U) (client : Client W) (answers : AnswersAll client) where
  flushed-IsBalanced :
      (i : Import) (x : Option (List Bool) × W)
      → ((results : List Bool) → x.0 ≡ some results → length results ≡ length i.entries)
      → IsBalanced i
      → IsBalanced (flushed net client i x).1
  unfolding flushed
  flushed-IsBalanced i (none, w) all h = h
  flushed-IsBalanced i (some results, w) all h =
      omega (arith, count_results-sum results i.stats, all results refl, h)

  flush-IsBalanced : (i : Import) (w : W) → IsBalanced i → IsBalanced (flush net client i w).1
  unfolding flush
  flush-IsBalanced i w h = elim (Bool-cases (length i.entries == 0)) [
    | inl none_left ↦ rw none_left h
    | inr some_left ↦
        rw some_left (flushed-IsBalanced i (client.insert_many w i.entries) (answers w i.entries) h)
  ]

  flushed-empty :
      (i : Import) (x : Option (List Bool) × W)
      → (flushed net client i x).0 ≡ true
      → length (flushed net client i x).1.entries ≡ 0
  unfolding flushed
  flushed-empty i (none, w) e = absurd (ground arith)
  flushed-empty i (some results, w) e = refl

  -- What a flush without an error leaves.
  flush-empty :
      (i : Import) (w : W)
      → (flush net client i w).0 ≡ true
      → length (flush net client i w).1.entries ≡ 0
  unfolding flush
  flush-empty i w e = elim (Bool-cases (length i.entries == 0)) [
    | inl none_left ↦ rw none_left ((==_iff _ _).0 none_left)
    | inr some_left ↦
        rw some_left (flushed-empty i (client.insert_many w i.entries) (rw some_left at e))
  ]

  take_entry-IsBalanced :
      (batch_size : ℕ) (i : Import) (e : Entry) (w : W)
      → i.stats.lines
        ≡ i.stats.invalid + i.stats.inserted + i.stats.duplicates + length i.entries + 1
      → IsBalanced (take_entry net client batch_size i e w).1
  unfolding take_entry
  take_entry-IsBalanced batch_size i e w h =
      let j : Import = record i { entries = i.entries ++ e ∷ [] } in
      let balanced : IsBalanced j = omega (arith, h, length-append i.entries (e ∷ [])) in
      elim (Bool-cases (in_batch i.entries e.url)) [
        | inl old ↦ simp old (omega (arith, h))
        | inr new ↦ simp new (elim (Bool-cases (length j.entries == batch_size)) [
          | inl full ↦ simp full (flush-IsBalanced j w balanced)
          | inr room ↦ simp room balanced
        ])
      ]

  take_normalized-IsBalanced :
      (batch_size : ℕ) (i : Import) (e : Option Entry) (w : W)
      → i.stats.lines
        ≡ i.stats.invalid + i.stats.inserted + i.stats.duplicates + length i.entries + 1
      → IsBalanced (take_normalized net client batch_size i e w).1
  unfolding take_normalized
  take_normalized-IsBalanced batch_size i none w h = omega (arith, h)
  take_normalized-IsBalanced batch_size i (some e) w h = take_entry-IsBalanced batch_size i e w h

  take_line-IsBalanced :
      (batch_size : ℕ) (i : Import) (raw : Str) (w : W)
      → IsBalanced i
      → IsBalanced (take_line net client batch_size i raw w).1
  unfolding take_line
  take_line-IsBalanced batch_size i raw w h =
      elim (Bool-cases (str_eq (trim_space raw) [] || has_prefix (trim_space raw) (codes "#"))) [
        | inl blank ↦ simp blank h
        | inr line ↦ simp line (
            take_normalized-IsBalanced batch_size (with_line i) (normalize net (trim_space raw)) w
              (omega (arith, h)))
      ]

  -- The counts of lines and of invalid lines are so much higher.
  abbrev Adds : ℕ → ℕ → Import → Import → Type 0
  Adds n k i j = (j.stats.lines ≡ i.stats.lines + n) × (j.stats.invalid ≡ i.stats.invalid + k)

  flushed-Adds : (i : Import) (x : Option (List Bool) × W) → Adds 0 0 i (flushed net client i x).1
  unfolding flushed
  flushed-Adds i (none, w) = (omega arith, omega arith)
  flushed-Adds i (some results, w) =
      let (lines, invalid, sum) = count_results-sum results i.stats in
      (omega (arith, lines), omega (arith, invalid))

  flush-Adds : (i : Import) (w : W) → Adds 0 0 i (flush net client i w).1
  unfolding flush
  flush-Adds i w = elim (Bool-cases (length i.entries == 0)) [
    | inl none_left ↦ rw none_left (omega arith, omega arith)
    | inr some_left ↦ rw some_left (flushed-Adds i (client.insert_many w i.entries))
  ]

  take_entry-Adds :
      (batch_size : ℕ) (i : Import) (e : Entry) (w : W)
      → Adds 0 0 i (take_entry net client batch_size i e w).1
  unfolding take_entry
  take_entry-Adds batch_size i e w =
      let j : Import = record i { entries = i.entries ++ e ∷ [] } in
      elim (Bool-cases (in_batch i.entries e.url)) [
        | inl old ↦ simp old (omega arith, omega arith)
        | inr new ↦ simp new (elim (Bool-cases (length j.entries == batch_size)) [
          | inl full ↦ simp full (flush-Adds j w)
          | inr room ↦ simp room (omega arith, omega arith)
        ])
      ]

  take_normalized-Adds :
      (batch_size : ℕ) (i : Import) (e : Option Entry) (w : W)
      → Adds 0
          (elim e [ none ↦ 1 | some entry ↦ 0 ])
          i
          (take_normalized net client batch_size i e w).1
  unfolding take_normalized
  take_normalized-Adds batch_size i none w = (omega arith, refl)
  take_normalized-Adds batch_size i (some e) w = take_entry-Adds batch_size i e w

  take_line-Adds :
      (batch_size : ℕ) (i : Import) (raw : Str) (w : W)
      → Adds
          (if is_skipped raw then 0 else 1)
          (if is_skipped raw
            then 0
            else elim (normalize net (trim_space raw)) [ none ↦ 1 | some e ↦ 0 ])
          i
          (take_line net client batch_size i raw w).1
  unfolding take_line
  take_line-Adds batch_size i raw w = elim (Bool-cases (is_skipped raw)) [
    | inl blank ↦ simp blank (omega arith, omega arith)
    | inr line ↦
        let (lines, invalid) =
          take_normalized-Adds batch_size (with_line i) (normalize net (trim_space raw)) w in
        simp line (omega (arith, lines), omega (arith, invalid))
  ]

  -- The loop from counts n and k on.
  abbrev IsRead : ℕ → ℕ → List Str → Bool × Import × W → Type 0
  IsRead n k lines (done, i, w) =
      IsBalanced i
      × (i.stats.lines ≤ n + counted_in lines)
      × (done ≡ true
          → (i.stats.lines ≡ n + counted_in lines)
            × (i.stats.invalid ≡ k + invalid_in net lines)
            × (length i.entries ≡ 0))

  take_lines-IsRead :
      (batch_size : ℕ) (broken : Bool) (lines : List Str) (x : Bool × Import × W)
      → IsBalanced x.1
      → IsRead x.1.stats.lines x.1.stats.invalid lines
          (take_lines net client batch_size broken lines x)
  unfolding take_lines
  take_lines-IsRead batch_size broken lines (false, i, w) h =
      (h, omega arith, λ e. absurd (ground arith))
  take_lines-IsRead batch_size true [] (true, i, w) h = (h, omega arith, λ e. absurd (ground arith))
  take_lines-IsRead batch_size false [] (true, i, w) h =
      let (lines, invalid) = flush-Adds i w in
      (
        flush-IsBalanced i w h,
        omega (arith, lines),
        λ e. (omega (arith, lines), omega (arith, invalid), flush-empty i w e),
      )
  take_lines-IsRead batch_size broken (line ∷ lines) (true, i, w) h =
      let (more, refused) = take_line-Adds batch_size i line w in
      let (balanced, few, all) =
        take_lines-IsRead batch_size broken lines (take_line net client batch_size i line w)
          (take_line-IsBalanced batch_size i line w h) in
      (
        balanced,
        omega (arith, few, more),
        λ e.
            let (counted, invalid, empty) = all e in
            (omega (arith, counted, more), omega (arith, invalid, refused), empty),
      )

  -- If River answers every entry of the batches that it inserts, the counts of an import are balanced
  -- at its end: each counted line is invalid, inserted or a duplicate, or waits in the batch, and no
  -- more lines are counted than those that are not blank and no comment. An import without an error
  -- has counted all of these, as invalid those that Normalize refuses, and its batch is empty.
  pub import_urls-IsImported :
      (batch_size : ℕ) (broken : Bool) (lines : List Str) (w : W)
      → IsImported net lines (import_urls net client batch_size broken lines w)
  unfolding import_urls
  import_urls-IsImported batch_size broken lines w = elim (Bool-cases (ltb batch_size 1)) [
    | inl bad ↦ rw bad (refl, omega arith, λ e. absurd (ground arith))
    | inr good ↦ rw good (
        let (balanced, few, all) =
          take_lines-IsRead batch_size broken lines (true, no_import, w) refl in
        (
          balanced,
          omega (arith, few),
          λ e.
              let (counted, invalid, empty) = all e in
              (omega (arith, counted), omega (arith, invalid), empty),
        ))
  ]
