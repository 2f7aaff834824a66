-- ===== src/Replayer/Events.antt =====
-- replayer/ptrace_replayer.c: `replay_event_t`, the fields of a line, the growing array and
-- `load_replay_events`. A line is a C string: the files hold no NUL byte.
use os_ai_assisted_determini.Base.{
  ℕ, ◌+◌, ◌*◌, Bool, true, false, not, ◌&&◌, Option, none, some, List, [], ◌∷◌, ◌++◌, ltb, leb,
  ◌==◌, if◌then◌else◌, Bytes, codes,
}
use os_ai_assisted_determini.Base.Int.{ℤ, pos, negsuc}
use os_ai_assisted_determini.Libc.Find.{find_after, until}
use os_ai_assisted_determini.Libc.Parse.{strtol}
use os_ai_assisted_determini.Libc.Print.{cut_to}
use os_ai_assisted_determini.Trace.Syscalls.{is_no, sys_read, is_payload_syscall}

pub record ReplayEvent : Type 0 where
  pub syscall_no : ℤ
  pub name : Bytes
  pub sha256 : Bytes
  pub ret : ℤ
  pub offset : ℤ
  pub length : ℕ

-- After `memset(&ev, 0, sizeof(ev))`.
abbrev pub zero_event : ReplayEvent
zero_event = record {
  syscall_no = pos 0;
  name = [];
  sha256 = [];
  ret = pos 0;
  offset = pos 0;
  length = 0;
}

unfoldable pub should_load_replay_event : ReplayEvent → Bool
should_load_replay_event ev =
    if not (is_no ev.syscall_no sys_read) then true else ltb 0 ev.length && leb ev.length 256

infixl 5 ◌>>=◌
abbrev pub ◌>>=◌ {ℓ κ} : {A : Type ℓ} {B : Type κ} → Option A → (A → Option B) → Option B
none >>= f = none
some a >>= f = f a

-- The parsers store into a field; `none` is the -1 that leaves it as it was.
unfoldable pub parse_long_field : Bytes → Bytes → Option ℤ
parse_long_field line needle = do p ← find_after line needle; strtol p

unfoldable pub parse_string_field : Bytes → Bytes → ℕ → Option Bytes
parse_string_field line needle out_len = do
  p ← find_after line needle
  value ← until 0x22 p
  some (cut_to out_len value)

unfoldable pub parse_name : Bytes → ℕ → Option Bytes
parse_name line out_len = do
  p ← find_after line (codes "\"name\":\"")
  value ← until 0x22 p
  some (cut_to out_len value)

abbrev pub or_else {ℓ} : {A : Type ℓ} → Option A → A → A
or_else none d = d
or_else (some a) d = a

-- `strstr(line, needle) != NULL`
abbrev pub has : Bytes → Bytes → Bool
has line needle = elim (find_after line needle) [ none ↦ false | some r ↦ true ]

-- `ev.length = length > 0 ? (size_t)length : 0`
unfoldable pub size_of_long : ℤ → ℕ
size_of_long (pos n) = n
size_of_long (negsuc n) = 0

-- The fields that are read where the line has a payload reference.
unfoldable pub with_payload : Bytes → ReplayEvent → ReplayEvent
with_payload line ev = record ev {
  offset = or_else (parse_long_field line (codes "\"offset\":")) ev.offset;
  length = size_of_long (or_else (parse_long_field line (codes "\"length\":")) (pos 0));
  sha256 = or_else (parse_string_field line (codes "\"sha256\":\"") 65) ev.sha256;
}

-- The event of a line, before `should_load_replay_event`.
unfoldable pub line_event : Bytes → ℤ → ReplayEvent
line_event line number =
    let ev = record zero_event {
      syscall_no = number;
      name = or_else (parse_name line 64) [];
      ret = or_else (parse_long_field line (codes "\"ret\":")) (pos 0);
    } in
    if has line (codes "\"payload_ref\"") then with_payload line ev else ev

-- What the loop keeps of a line that names a system call.
unfoldable pub keep : Bytes → ℤ → Option ReplayEvent
keep line number =
    let ev = line_event line number in
    if not (is_payload_syscall number)
    then none
    else if not (should_load_replay_event ev)
    then none
    else some ev

-- One round of the loop of `load_replay_events`; `none` is a `continue`.
unfoldable pub load_line : Bytes → Option ReplayEvent
load_line line =
    if not (has line (codes "\"etype\":\"SYSCALL\""))
    then none
    else elim (parse_long_field line (codes "\"syscall_no\":")) [
      | none ↦ none
      | some number ↦ keep line number
    ]

-- `replay_events_t`: the slots that have been written, in order, and the capacity.
pub record ReplayEvents : Type 0 where
  pub items : List ReplayEvent
  pub len : ℕ
  pub cap : ℕ

-- `realloc` to a number of slots may fail.
abbrev pub Realloc : Type 0
Realloc = ℕ → Bool

unfoldable pub push_event : Realloc → ReplayEvents → ReplayEvent → Option ReplayEvents
push_event realloc events ev =
    let next = if events.cap == 0 then 64 else events.cap * 2 in
    if events.len == events.cap
    then (if realloc next
        then some (record { items = events.items ++ ev ∷ []; len = events.len + 1; cap = next })
        else none)
    else some (record events { items = events.items ++ ev ∷ []; len = events.len + 1 })

-- The loop over the lines that `getline` gives before it returns -1, which it does at the end of the
-- file and also where it fails: the code does not tell these apart. `none` is the result -1.
unfoldable pub load_lines : Realloc → List Bytes → ReplayEvents → Option ReplayEvents
load_lines realloc [] events = some events
load_lines realloc (line ∷ lines) events = elim (load_line line) [
  | none ↦ load_lines realloc lines events
  | some ev ↦ elim (push_event realloc events ev) [
    | none ↦ none
    | some events' ↦ load_lines realloc lines events'
  ]
]

-- The lines of a file, each with its newline.
unfoldable pub split_lines : Bytes → List Bytes
split_lines [] = []
split_lines (c ∷ s) =
    let rest = split_lines s in
    if c == b'\n' then (c ∷ []) ∷ rest else elim rest [ [] ↦ (c ∷ []) ∷ [] | l ∷ ls ↦ (c ∷ l) ∷ ls ]

abbrev pub no_events : ReplayEvents
no_events = record { items = []; len = 0; cap = 0 }

-- `events.jsonl` is `none` if it cannot be opened, or if its path does not fit `PATH_MAX`.
unfoldable pub load_replay_events : Realloc → Option Bytes → Option ReplayEvents
load_replay_events realloc none = none
load_replay_events realloc (some file) = load_lines realloc (split_lines file) no_events
