-- ===== src/Recorder/Payload.antt =====
-- recorder/ptrace_recorder.c: `append_payload`; replayer/ptrace_replayer.c: `read_payload`.
use os_ai_assisted_determini.Base.{
  ℕ, ◌<◌, ◌≡◌, refl, ◌⊎◌, Bool, true, false, not, ◌&&◌, Option, none, some, [], ◌∷◌, ◌++◌, arith,
  ltb, ◌==◌, if◌then◌else◌, ==_iff, Bytes, length, take, drop, length-take, take-append, take_all,
}
use os_ai_assisted_determini.Base.Int.{ℤ, pos, negsuc}
use os_ai_assisted_determini.Hash.Hex.{bytes_hex}
use os_ai_assisted_determini.Replayer.Events.{ReplayEvent}
use os_ai_assisted_determini.Trace.Writer.{TraceWriter}

-- What the file system answers: whether `ftell` fails, and how many bytes `fwrite` takes at most. The
-- bytes that it has taken count as in the file: the code does not look at the result of `fflush`, and
-- a `fflush` that fails is not modelled.
pub record Disk : Type 0 where
  pub tells : Bool
  pub takes : ℕ

-- `offset` and `hash` of a payload that is in the file.
pub record PayloadRef : Type 0 where
  pub offset : ℤ
  pub hash : Bytes

-- `none` is the -1. The file is appended to, so `ftell` gives its length.
unfoldable pub append_payload : TraceWriter → Bytes → Disk → TraceWriter × Option PayloadRef
append_payload tw bytes disk =
    if not disk.tells
    then (tw, none)
    else let written = take disk.takes bytes in
      let tw' = record tw { payload = tw.payload ++ written } in
      (if ltb 0 (length bytes) && not (length written == length bytes)
        then (tw', none)
        else (tw', some (record { offset = pos (length tw.payload); hash = bytes_hex bytes })))

-- What `fread` gives after `fseek`, and whether there are as many bytes as wanted.
unfoldable pub read_at : Bytes → ℤ → ℕ → Option Bytes
read_at file (negsuc n) len = none
read_at file (pos offset) len =
    let got = take len (drop offset file) in if length got == len then some got else none

-- `none` is the -1, `some none` a result 0 without a buffer. The file is `none` when it cannot be
-- opened; `has_memory` is whether `malloc` succeeds.
unfoldable pub read_payload : Option Bytes → Bool → ReplayEvent → Option (Option Bytes)
read_payload file has_memory ev = if ev.length == 0 then some none else elim file [
  | none ↦ none
  | some bytes ↦
      if not has_memory
      then none
      else elim (read_at bytes ev.offset ev.length) [ none ↦ none | some got ↦ some (some got) ]
]

drop_payload : (p x more : Bytes) → take (length x) (drop (length p) ((p ++ x) ++ more)) ≡ x
drop_payload [] x more = take-append x more
drop_payload (c ∷ p) x more = drop_payload p x more

take_whole :
    (n : ℕ) (xs : Bytes) → (length xs ≡ 0) ⊎ (length (take n xs) ≡ length xs) → take n xs ≡ xs
take_whole n [] h = take_all n [] (omega arith)
take_whole n (x ∷ xs) h = take_all n (x ∷ xs) (omega (arith, length-take n (x ∷ xs)))

-- A call that returns 0 has written everything, at the end of the file.
pub append_payload_lem :
    (tw : TraceWriter) (bytes : Bytes) (disk : Disk) (ref : PayloadRef)
    → (append_payload tw bytes disk).1 ≡ some ref
    → ((append_payload tw bytes disk).0 ≡ record tw { payload = tw.payload ++ bytes })
      × (ref ≡ record { offset = pos (length tw.payload); hash = bytes_hex bytes })
unfolding append_payload
append_payload_lem tw bytes disk ref h = ground (arith, take_whole disk.takes bytes)

-- What was appended is read back from its offset, however the file has grown since.
pub read_at_appended :
    (file bytes more : Bytes)
    → read_at ((file ++ bytes) ++ more) (pos (length file)) (length bytes) ≡ some bytes
unfolding read_at
read_at_appended file bytes more =
    rw (drop_payload file bytes more, (==_iff (length bytes) (length bytes)).1 refl) refl

pub read_payload_appended :
    (file bytes more : Bytes) (ev : ReplayEvent)
    → ev.offset ≡ pos (length file)
    → ev.length ≡ length bytes
    → 0 < length bytes
    → read_payload (some ((file ++ bytes) ++ more)) true ev ≡ some (some bytes)
unfolding read_payload
read_payload_appended file bytes more ev at_end size nonempty =
    let found : (ev.length == 0) ≡ false = ground arith in
    rw (found, at_end, size, read_at_appended file bytes more) refl
