-- ===== src/Batch/Writer.antt =====
-- The writer of page files: pkg/batch/writer.go. The goroutine of `loop` is a machine over the
-- events that its select receives; what the file system answers comes with the event. A record is
-- known by its id: a file's lines are the ids of the records that were encoded into it.
pub mod Laws
pub mod Places
use pagelode.Prelude.{
  ℕ, ◌+◌, Str, codes, List, [], ◌∷◌, ◌++◌, Option, none, some, Bool, true, false, leb, ltb,
  if◌then◌else◌, length, itoa, map, ◌&&◌,
}

-- What a record's sender is told: the file and the line of its page, or an error. The code sends
-- the two parts of a place as one string, see `ref_string`.
pub data Written : Type 0 where
  stored : Str → ℕ → Written
  refused : Str → Written

unfoldable pub ref_string : Str → ℕ → Str
ref_string name line = name ++ (codes ":" ++ itoa line)

-- outputFile: `lines` is what the encoder has written, `waiting` are the senders without a reply,
-- each known by the id of its record.
pub record OutputFile : Type 0 where
  pub name : Str
  pub lines : List ℕ
  pub waiting : List ℕ

-- `files` are the files that were renamed to their final names, `replies` the answers sent so far,
-- in order; `stopped` says that loop has returned.
pub record Writer : Type 0 where
  pub prefix : Str
  pub current : Option OutputFile
  pub sequence : ℕ
  pub files : List (Str × List ℕ)
  pub replies : List (ℕ × Written)
  pub error : Option Str
  pub stopped : Bool

-- What the file system answers: the time in a new file's name, and the errors of opening, encoding
-- and finishing, where finishing is close.
pub record Disk : Type 0 where
  pub stamp : Str
  pub opened : Option Str
  pub encoded : Option Str
  pub closed : Option Str

-- A record; the closing of the channel; a tick at which the file is due, or not.
pub data Event : Type 0 where
  add : ℕ → Disk → Event
  close : Disk → Event
  tick : Bool → Disk → Event

abbrev pub file_records : ℕ
file_records = 5000

-- %06d
abbrev padded : Str → Str
padded digits =
    if ltb (length digits) 2
    then codes "00000" ++ digits
    else if ltb (length digits) 3
    then codes "0000" ++ digits
    else if ltb (length digits) 4
    then codes "000" ++ digits
    else if ltb (length digits) 5
    then codes "00" ++ digits
    else if ltb (length digits) 6
    then codes "0" ++ digits
    else digits

unfoldable pub file_name : Str → Str → ℕ → Str
file_name prefix stamp sequence =
    prefix ++ (codes "-" ++ (stamp ++ (codes "-" ++ (padded (itoa sequence) ++ codes ".jsonl.gz"))))

-- The loop of finish over the senders, from a line on.
unfoldable pub places : Str → ℕ → List ℕ → List (ℕ × Written)
places name line [] = []
places name line (id ∷ ids) = (id, stored name line) ∷ places name (line + 1) ids

-- reject
unfoldable pub rejections : Str → List ℕ → List (ℕ × Written)
rejections message [] = []
rejections message (id ∷ ids) = (id, refused message) ∷ rejections message ids

-- w.fail, and loop returns.
abbrev halted : Writer → Str → Writer
halted w message = record w { error = some message; stopped = true }

-- finish of the given file; the writer then has no file.
unfoldable pub finish_file : Writer → OutputFile → Option Str → Writer
finish_file w f (some message) =
    halted (record w { current = none; replies = w.replies ++ rejections message f.waiting })
      message
finish_file w f none = record w {
  current = none;
  files = w.files ++ (f.name, f.lines) ∷ [];
  replies = w.replies ++ places f.name 1 f.waiting;
}

-- A file that has taken the record.
unfoldable pub after_write : Writer → OutputFile → Disk → Writer
after_write w f d =
    if leb file_records (length f.waiting)
    then finish_file w f d.closed
    else record w { current = some f }

-- What write and loop do with the encoder's answer, the sender waiting already.
unfoldable pub encode_record : Writer → OutputFile → ℕ → Disk → Option Str → Writer
encode_record w f id d (some message) =
    halted (record w { current = none; replies = w.replies ++ rejections message f.waiting })
      message
encode_record w f id d none = after_write w (record f { lines = f.lines ++ id ∷ [] }) d

-- write, for the current file.
unfoldable pub write_record : Writer → OutputFile → ℕ → Disk → Option Str → Writer
unfolding encode_record
write_record w f id d e = encode_record w (record f { waiting = f.waiting ++ id ∷ [] }) id d e

-- The opening of a file for the record, where there is none.
unfoldable pub open_and_write : Writer → ℕ → Disk → Option Str → Writer
open_and_write w id d (some message) =
    halted
      (record w {
        current = none;
        sequence = w.sequence + 1;
        replies = w.replies ++ (id, refused message) ∷ [];
      })
      message
open_and_write w id d none =
    write_record (record w { sequence = w.sequence + 1 })
      (record { name = file_name w.prefix d.stamp (w.sequence + 1); lines = []; waiting = [] }) id d
      d.encoded

unfoldable pub on_record : Writer → Option OutputFile → ℕ → Disk → Writer
on_record w none id d = open_and_write w id d d.opened
on_record w (some f) id d = write_record w f id d d.encoded

-- finish on nil does nothing.
unfoldable pub on_close : Writer → Option OutputFile → Disk → Writer
on_close w none d = record w { stopped = true }
on_close w (some f) d = record (finish_file w f d.closed) { stopped = true }

unfoldable pub on_tick : Writer → Option OutputFile → Bool → Disk → Writer
on_tick w none due d = w
on_tick w (some f) false d = w
on_tick w (some f) true d = finish_file w f d.closed

unfoldable pub step : Writer → Event → Writer
step w (add id d) = on_record w w.current id d
step w (close d) = on_close w w.current d
step w (tick due d) = on_tick w w.current due d

-- Events behind the end of loop are not received.
unfoldable pub run : Writer → List Event → Writer
run w [] = w
run w (e ∷ es) = if w.stopped then w else run (step w e) es

-- The records that loop has received.
unfoldable pub received : Writer → List Event → List ℕ
received w [] = []
received w (add id d ∷ es) = if w.stopped then [] else id ∷ received (step w (add id d)) es
received w (e ∷ es) = if w.stopped then [] else received (step w e) es

unfoldable pub new_writer : Str → Writer
new_writer prefix = record {
  prefix = prefix;
  current = none;
  sequence = 0;
  files = [];
  replies = [];
  error = none;
  stopped = false;
}
