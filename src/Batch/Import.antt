-- ===== src/Batch/Import.antt =====
-- The import of URLs into the queue: pkg/batch/import.go. The scanner's lines are given, with
-- whether it ends in an error; the parser of net/url and River's InsertMany are parameters.
pub mod Counts
use pagelode.Prelude.{
  ℕ, ◌+◌, ◌<◌, Str, codes, List, [], ◌∷◌, ◌++◌, Option, none, some, Bool, true, false, ◌||◌, ◌&&◌,
  not, ltb, ◌==◌, if◌then◌else◌, str_eq, contains, has_prefix, to_lower, trim_space, any, length,
}

pub record Entry : Type 0 where
  pub url : Str
  pub host : Str

pub record ImportStats : Type 0 where
  pub lines : ℕ
  pub invalid : ℕ
  pub inserted : ℕ
  pub duplicates : ℕ

-- What Normalize uses of net/url; `clear_fragment` empties Fragment and RawFragment.
pub record UrlParts (U : Type 0) : Type 0 where
  pub parse : Str → Option U
  pub scheme : U → Str
  pub hostname : U → Str
  pub host : U → Str
  pub path : U → Str
  pub opaque : U → Str
  pub set_host : Str → U → U
  pub set_path : Str → U → U
  pub clear_fragment : U → U
  pub string : U → Str

-- River's InsertMany: for each entry whether it was skipped as a duplicate; `none` is an error.
pub record Client (W : Type 0) : Type 0 where
  pub insert_many : W → List Entry → Option (List Bool) × W

-- `entries` are the params of the batch; the URLs in it, inBatch, are theirs.
pub record Import : Type 0 where
  pub stats : ImportStats
  pub entries : List Entry

abbrev in_batch : List Entry → Str → Bool
in_batch entries url = any (λ (e : Entry). str_eq e.url url) entries

module _ {U : Type 0} (net : UrlParts U) where
  abbrev tidied : U → U
  tidied u =
      let v = net.clear_fragment (net.set_host (to_lower (net.host u)) u) in
      if str_eq (net.path v) [] && str_eq (net.opaque v) [] then net.set_path (codes "/") v else v

  normalize_parsed : Option U → Option Entry
  normalize_parsed none = none
  normalize_parsed (some u) =
      if not (str_eq (net.scheme u) (codes "http") || str_eq (net.scheme u) (codes "https"))
        || str_eq (net.hostname u) []
      then none
      else some (record { url = net.string (tidied u); host = net.hostname (tidied u) })

  -- Normalize; `none` is an error.
  unfoldable pub normalize : Str → Option Entry
  unfolding normalize_parsed
  normalize raw =
      let trimmed = trim_space raw in
      normalize_parsed (
        net.parse (if contains trimmed (codes "://") then trimmed else codes "https://" ++ trimmed))

abbrev pub with_line : Import → Import
with_line i = let s = i.stats in record i { stats = record s { lines = s.lines + 1 } }

abbrev pub no_import : Import
no_import = record {
  stats = record { lines = 0; invalid = 0; inserted = 0; duplicates = 0 };
  entries = [];
}

-- The loop of flush over the results.
unfoldable pub count_results : List Bool → ImportStats → ImportStats
count_results [] s = s
count_results (true ∷ results) s =
    count_results results (record s { duplicates = s.duplicates + 1 })
count_results (false ∷ results) s = count_results results (record s { inserted = s.inserted + 1 })

module _ {U W : Type 0} (net : UrlParts U) (client : Client W) where
  flushed : Import → Option (List Bool) × W → Bool × Import × W
  unfolding count_results
  flushed i (none, w) = (false, i, w)
  flushed i (some results, w) =
      (true, record { stats = count_results results i.stats; entries = [] }, w)

  -- flush; the flag says that there is no error.
  unfoldable pub flush : Import → W → Bool × Import × W
  unfolding flushed
  flush i w =
      if length i.entries == 0 then (true, i, w) else flushed i (client.insert_many w i.entries)

  -- An accepted line.
  unfoldable pub take_entry : ℕ → Import → Entry → W → Bool × Import × W
  unfolding flush
  take_entry batch_size i e w =
      let s = i.stats in
      if in_batch i.entries e.url
      then (true, record i { stats = record s { duplicates = s.duplicates + 1 } }, w)
      else let j : Import = record i { entries = i.entries ++ e ∷ [] } in
        if length j.entries == batch_size then flush j w else (true, j, w)

  unfoldable pub take_normalized : ℕ → Import → Option Entry → W → Bool × Import × W
  unfolding take_entry
  take_normalized batch_size i none w =
      let s = i.stats in (true, record i { stats = record s { invalid = s.invalid + 1 } }, w)
  take_normalized batch_size i (some e) w = take_entry batch_size i e w

  -- The body of the loop over the lines.
  unfoldable pub take_line : ℕ → Import → Str → W → Bool × Import × W
  unfolding take_normalized
  take_line batch_size i raw w =
      let line = trim_space raw in
      if str_eq line [] || has_prefix line (codes "#")
      then (true, i, w)
      else take_normalized batch_size (with_line i) (normalize net line) w

  -- The loop, and behind it the scanner's error and the last flush.
  unfoldable pub take_lines : ℕ → Bool → List Str → Bool × Import × W → Bool × Import × W
  unfolding take_line
  take_lines batch_size broken lines (false, i, w) = (false, i, w)
  take_lines batch_size broken [] (true, i, w) = if broken then (false, i, w) else flush i w
  take_lines batch_size broken (line ∷ lines) (true, i, w) =
      take_lines batch_size broken lines (take_line batch_size i line w)

  -- Import
  unfoldable pub import_urls : ℕ → Bool → List Str → W → Bool × Import × W
  unfolding take_lines
  import_urls batch_size broken lines w =
      if ltb batch_size 1
      then (false, no_import, w)
      else take_lines batch_size broken lines (true, no_import, w)
