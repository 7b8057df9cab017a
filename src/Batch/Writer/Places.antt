-- ===== src/Batch/Writer/Places.antt =====
-- The place that a sender is told holds its record: pkg/batch/writer.go.
use mathlib.Core.List.{append_assoc}
use mathlib.Core.List.{Memᴰ}
use mathlib.Core.List.Memᴰ
use mathlib.Core.Path.{subst}
use pagelode.Prelude.{
  ap, ℕ, ◌+◌, ◌-◌, Str, List, [], ◌∷◌, ◌++◌, Option, none, some, Bool, true, false, ◌≡◌, refl,
  arith, All, All-append, get_elem?, length, length-append, leb, Bool-cases, inl, inr,
}
use pagelode.Batch.Writer.{
  Written, stored, refused, OutputFile, Writer, Disk, Event, add, close, tick, file_records, places,
  rejections, finish_file, after_write, encode_record, write_record, open_and_write, on_record,
  on_close, on_tick, step, run, new_writer,
}

abbrev pub Files : Type 0
Files = List (Str × List ℕ)

-- A reply with a place names a finished file and the line of its record in it.
abbrev pub IsPlaced : Files → ℕ × Written → Type 0
IsPlaced files (id, refused message) = Unit
IsPlaced files (id, stored name line) =
    (ids : List ℕ) × Memᴰ (name, ids) files × (get_elem? ids (line - 1) ≡ some id)

abbrev AllPlaced : Files → List (ℕ × Written) → Type 0
AllPlaced files = All (IsPlaced files)

grow_one : (files more : Files) (r : ℕ × Written) → IsPlaced files r → IsPlaced (files ++ more) r
grow_one files more (id, refused message) h = tt
grow_one files more (id, stored name line) (ids, m, at) = (ids, Memᴰ.append_left more m, at)

grow :
    (files more : Files) (rs : List (ℕ × Written))
    → AllPlaced files rs
    → AllPlaced (files ++ more) rs
grow files more [] h = tt
grow files more (r ∷ rs) (p, h) = (grow_one files more r p, grow files more rs h)

get_elem?-length :
    (xs : List ℕ) (y : ℕ) (ys : List ℕ) → get_elem? (xs ++ y ∷ ys) (length xs) ≡ some y
get_elem?-length [] y ys = refl
get_elem?-length (x ∷ xs) y ys = get_elem?-length xs y ys

module _ (files : Files) (name : Str) where
  places-AllPlaced :
      (rest before : List ℕ) (line : ℕ)
      → line ≡ length before + 1
      → Memᴰ (name, before ++ rest) files
      → AllPlaced files (places name line rest)
  unfolding places
  places-AllPlaced [] before line e m = tt
  places-AllPlaced (id ∷ rest) before line e m =
      let index : line - 1 ≡ length before = omega arith in
      (
        (before ++ id ∷ rest, m, rw index (get_elem?-length before id rest)),
        places-AllPlaced rest (before ++ id ∷ []) (line + 1)
            (omega (arith, length-append before (id ∷ []))) (rw append_assoc m),
      )

rejections-AllPlaced :
    (files : Files) (message : Str) (ids : List ℕ) → AllPlaced files (rejections message ids)
unfolding rejections
rejections-AllPlaced files message [] = tt
rejections-AllPlaced files message (id ∷ ids) = (tt, rejections-AllPlaced files message ids)

-- The lines of the open file are those of its waiting senders.
abbrev IsInStep : Option OutputFile → Type 0
IsInStep none = Unit
IsInStep (some f) = f.lines ≡ f.waiting

-- What the loop keeps.
abbrev IsHonest : Writer → Type 0
IsHonest w = AllPlaced w.files w.replies × IsInStep w.current

finish_file-IsHonest :
    (w : Writer) (f : OutputFile) (e : Option Str)
    → AllPlaced w.files w.replies
    → f.lines ≡ f.waiting
    → IsHonest (finish_file w f e)
unfolding finish_file
finish_file-IsHonest w f (some message) h e = (
  All-append (IsPlaced w.files) w.replies _ h (rejections-AllPlaced w.files message f.waiting),
  tt,
)
finish_file-IsHonest w f none h e =
    let files = w.files ++ (f.name, f.lines) ∷ [] in
    let there : Memᴰ (f.name, f.lines) files = Memᴰ.append_right w.files (Memᴰ.head refl) in
    (
      All-append (IsPlaced files) w.replies _ (grow w.files _ w.replies h) (
          places-AllPlaced files f.name f.waiting [] 1 refl
            (subst (λ ids. Memᴰ (f.name, ids) files) e there)),
      tt,
    )

after_write-IsHonest :
    (w : Writer) (f : OutputFile) (d : Disk)
    → AllPlaced w.files w.replies
    → f.lines ≡ f.waiting
    → IsHonest (after_write w f d)
unfolding after_write
after_write-IsHonest w f d h e = elim (Bool-cases (leb file_records (length f.waiting))) [
  | inl full ↦ rw full (finish_file-IsHonest w f d.closed h e)
  | inr room ↦ rw room (h, e)
]

write_record-IsHonest :
    (w : Writer) (f : OutputFile) (id : ℕ) (d : Disk) (e : Option Str)
    → AllPlaced w.files w.replies
    → f.lines ≡ f.waiting
    → IsHonest (write_record w f id d e)
unfolding write_record encode_record
write_record-IsHonest w f id d none h e =
    after_write-IsHonest w _ d h (ap (λ ids. ids ++ id ∷ []) e)
write_record-IsHonest w f id d (some message) h e =
    (All-append (IsPlaced w.files) w.replies _ h (rejections-AllPlaced w.files message _), tt)

open_and_write-IsHonest :
    (w : Writer) (id : ℕ) (d : Disk) (e : Option Str)
    → AllPlaced w.files w.replies
    → IsHonest (open_and_write w id d e)
unfolding open_and_write
open_and_write-IsHonest w id d none h = write_record-IsHonest _ _ id d d.encoded h refl
open_and_write-IsHonest w id d (some message) h =
    (All-append (IsPlaced w.files) w.replies _ h (tt, tt), tt)

on_record-IsHonest :
    (w : Writer) (c : Option OutputFile) (id : ℕ) (d : Disk)
    → AllPlaced w.files w.replies
    → IsInStep c
    → IsHonest (on_record w c id d)
unfolding on_record
on_record-IsHonest w (some f) id d h e = write_record-IsHonest w f id d d.encoded h e
on_record-IsHonest w none id d h e = open_and_write-IsHonest w id d d.opened h

on_close-IsHonest :
    (w : Writer) (c : Option OutputFile) (d : Disk)
    → w.current ≡ c
    → AllPlaced w.files w.replies
    → IsInStep c
    → IsHonest (on_close w c d)
unfolding on_close
on_close-IsHonest w none d same h e = (h, simp same tt)
on_close-IsHonest w (some f) d same h e = finish_file-IsHonest w f d.closed h e

on_tick-IsHonest :
    (w : Writer) (c : Option OutputFile) (due : Bool) (d : Disk)
    → w.current ≡ c
    → AllPlaced w.files w.replies
    → IsInStep c
    → IsHonest (on_tick w c due d)
unfolding on_tick
on_tick-IsHonest w none due d same h e = (h, simp same tt)
on_tick-IsHonest w (some f) false d same h e = (h, simp same e)
on_tick-IsHonest w (some f) true d same h e = finish_file-IsHonest w f d.closed h e

step-IsHonest : (w : Writer) (e : Event) → IsHonest w → IsHonest (step w e)
unfolding step
step-IsHonest w (add id d) (h, e) = on_record-IsHonest w w.current id d h e
step-IsHonest w (close d) (h, e) = on_close-IsHonest w w.current d refl h e
step-IsHonest w (tick due d) (h, e) = on_tick-IsHonest w w.current due d refl h e

run-IsHonest : (es : List Event) (w : Writer) → IsHonest w → IsHonest (run w es)
unfolding run
run-IsHonest [] w h = h
run-IsHonest (e ∷ es) w h = elim (Bool-cases w.stopped) [
  | inl over ↦ simp over h
  | inr live ↦ simp live (run-IsHonest es (step w e) (step-IsHonest w e h))
]

-- Whatever the file system answers, each place that the writer hands out is a line of a file that
-- was closed and renamed without an error, and what the encoder has written on that line is the
-- record that the place was handed out for.
pub places_hold :
    (prefix : Str) (es : List Event)
    → let w = run (new_writer prefix) es in All (IsPlaced w.files) w.replies
unfolding new_writer
places_hold prefix es = (run-IsHonest es (new_writer prefix) (tt, tt)).0
