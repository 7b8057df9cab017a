-- ===== src/Batch/Writer/Laws.antt =====
-- Every record that the writer of pkg/batch/writer.go receives is answered once, and the place that
-- it is told is where the page is.
use pagelode.Prelude.{
  ℕ, ◌+◌, Str, List, [], ◌∷◌, ◌++◌, map, Option, none, some, Bool, true, false, ◌≡◌, refl, sym, ap,
  ◌∙◌, arith, length, leb, Bool-cases, inl, inr,
}
use mathlib.Core.List.{append_assoc, append-nil, map-append}
use pagelode.Batch.Writer.{
  Written, OutputFile, Writer, Disk, Event, add, close, tick, file_records, places, rejections,
  finish_file, after_write, encode_record, write_record, open_and_write, on_record, on_close,
  on_tick, step, run, received, new_writer,
}

abbrev pub answered : List (ℕ × Written) → List ℕ
answered = map (λ r. r.0)

abbrev pub waiting_of : Option OutputFile → List ℕ
waiting_of none = []
waiting_of (some f) = f.waiting

-- The records that were answered, then those that wait.
abbrev pub handled : Writer → List ℕ
handled w = answered w.replies ++ waiting_of w.current

answered-places : (name : Str) (line : ℕ) (ids : List ℕ) → answered (places name line ids) ≡ ids
unfolding places
answered-places name line [] = refl
answered-places name line (id ∷ ids) = ap (λ xs. id ∷ xs) (answered-places name (line + 1) ids)

answered-rejections : (message : Str) (ids : List ℕ) → answered (rejections message ids) ≡ ids
unfolding rejections
answered-rejections message [] = refl
answered-rejections message (id ∷ ids) = ap (λ xs. id ∷ xs) (answered-rejections message ids)

ruleset answers = (answered-places, answered-rejections, map-append, append-nil, append_assoc)

handled-finish_file :
    (w : Writer) (f : OutputFile) (e : Option Str)
    → handled (finish_file w f e) ≡ answered w.replies ++ f.waiting
unfolding finish_file
handled-finish_file w f none = simp answers
handled-finish_file w f (some message) = simp answers

handled-after_write :
    (w : Writer) (f : OutputFile) (d : Disk)
    → handled (after_write w f d) ≡ answered w.replies ++ f.waiting
unfolding after_write
handled-after_write w f d = elim (Bool-cases (leb file_records (length f.waiting))) [
  | inl full ↦ rw full (handled-finish_file w f d.closed)
  | inr room ↦ rw room
]

handled-write_record :
    (w : Writer) (f : OutputFile) (id : ℕ) (d : Disk) (e : Option Str)
    → handled (write_record w f id d e) ≡ (answered w.replies ++ f.waiting) ++ id ∷ []
unfolding write_record
handled-write_record w f id d none = simp (handled-after_write, append_assoc)
handled-write_record w f id d (some message) = simp answers

handled-open_and_write :
    (w : Writer) (id : ℕ) (d : Disk) (e : Option Str)
    → handled (open_and_write w id d e) ≡ answered w.replies ++ id ∷ []
unfolding open_and_write
handled-open_and_write w id d none = simp (handled-write_record, append-nil)
handled-open_and_write w id d (some message) = simp answers

handled-on_record :
    (w : Writer) (c : Option OutputFile) (id : ℕ) (d : Disk)
    → handled (on_record w c id d) ≡ (answered w.replies ++ waiting_of c) ++ id ∷ []
unfolding on_record
handled-on_record w (some f) id d = handled-write_record w f id d d.encoded
handled-on_record w none id d = simp (handled-open_and_write, append-nil)

-- What one event brings.
abbrev brought : Event → List ℕ
brought (add id d) = id ∷ []
brought (close d) = []
brought (tick due d) = []

handled-on_close :
    (w : Writer) (c : Option OutputFile) (d : Disk)
    → w.current ≡ c
    → handled (on_close w c d) ≡ handled w
unfolding on_close
handled-on_close w none d e = refl
handled-on_close w (some f) d e = simp (handled-finish_file, e)

handled-on_tick :
    (w : Writer) (c : Option OutputFile) (due : Bool) (d : Disk)
    → w.current ≡ c
    → handled (on_tick w c due d) ≡ handled w
unfolding on_tick
handled-on_tick w none due d e = refl
handled-on_tick w (some f) false d e = refl
handled-on_tick w (some f) true d e = simp (handled-finish_file, e)

handled-step : (w : Writer) (e : Event) → handled (step w e) ≡ handled w ++ brought e
unfolding step
handled-step w (add id d) = handled-on_record w w.current id d
handled-step w (close d) = handled-on_close w w.current d refl ∙ sym (append-nil (handled w))
handled-step w (tick due d) = handled-on_tick w w.current due d refl ∙ sym (append-nil (handled w))

handled-run : (es : List Event) (w : Writer) → handled (run w es) ≡ handled w ++ received w es
unfolding run received
handled-run [] w = sym (append-nil (handled w))
handled-run (add id d ∷ es) w = elim (Bool-cases w.stopped) [
  | inl over ↦ simp (over, append-nil)
  | inr live ↦ simp (live, handled-run es (step w (add id d)), handled-step, append_assoc)
]
handled-run (close d ∷ es) w = elim (Bool-cases w.stopped) [
  | inl over ↦ simp (over, append-nil)
  | inr live ↦ simp (live, handled-run es (step w (close d)), handled-step, append_assoc)
]
handled-run (tick due d ∷ es) w = elim (Bool-cases w.stopped) [
  | inl over ↦ simp (over, append-nil)
  | inr live ↦ simp (live, handled-run es (step w (tick due d)), handled-step, append_assoc)
]

-- When loop has returned no file is left open.
NoFile-step :
    (w : Writer) (e : Event)
    → (step w e).stopped ≡ true
    → w.stopped ≡ false
    → (step w e).current ≡ none
unfolding step on_record on_close on_tick open_and_write write_record encode_record after_write
    finish_file
NoFile-step w e s live = ground arith

NoFile-run :
    (es : List Event) (w : Writer)
    → (w.stopped ≡ true → w.current ≡ none)
    → (run w es).stopped ≡ true
    → (run w es).current ≡ none
unfolding run
NoFile-run [] w keep s = keep s
NoFile-run (e ∷ es) w keep s = elim (Bool-cases w.stopped) [
  | inl over ↦ simp over (keep over)
  | inr live ↦
      let s' : (run (step w e) es).stopped ≡ true = simp live at s in
      simp live (NoFile-run es (step w e) (λ halted. NoFile-step w e halted live) s')
]

-- Whatever the file system answers, the writer answers the records that it receives in the order in
-- which they come, each at most once: the answered records and then the waiting ones are the
-- received ones. Once its loop has returned, every received record is answered.
pub replies_complete :
    (prefix : Str) (es : List Event)
    → (answered (run (new_writer prefix) es).replies
          ++ waiting_of (run (new_writer prefix) es).current
        ≡ received (new_writer prefix) es)
      × ((run (new_writer prefix) es).stopped ≡ true
          → answered (run (new_writer prefix) es).replies ≡ received (new_writer prefix) es)
unfolding new_writer
replies_complete prefix es =
    let all = handled-run es (new_writer prefix) in
    (
      all,
      λ s.
          let shut = NoFile-run es (new_writer prefix) (λ e. refl) s in
          sym (append-nil _) ∙ (rw shut at all),
    )
