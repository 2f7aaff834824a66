-- ===== src/Recorder/Loop/History.antt =====
-- What a run of the recorder leaves is a chained history of events.
use os_ai_assisted_determini.Base.{
  ℕ, ◌+◌, ◌%◌, ◌^◌, ◌≡◌, refl, sym, ap, ◌∙◌, inl, inr, not, ◌&&◌, List, [], ◌∷◌, ◌++◌, append-nil,
  append_assoc, arith, ltb, ◌==◌, Bool-cases, Option-cases, Bytes, length, take, length-append,
}
use os_ai_assisted_determini.Base.Int.{ℤ, to_long}
use os_ai_assisted_determini.Trace.Chain.{emitted}
use os_ai_assisted_determini.Trace.Syscalls.{
  payload_addr, payload_len, is_payload_syscall, SyscallEntry,
}
use os_ai_assisted_determini.Trace.Writer.{
  TraceWriter, next_seq, emit_line, emit_process, emit_syscall,
}
use os_ai_assisted_determini.Recorder.Payload.{Disk, append_payload}
use os_ai_assisted_determini.Recorder.Loop.{
  payload_addr, payload_len, is_payload_syscall, Regs, Answers, Stop, lost, other_stop, exited,
  signaled, syscall_stop, Loop, save_payload, at_syscall, run, new_writer, record_run,
}

-- `tw'` comes from `tw` by the events of `history`, the latest first: the lines and the links are
-- those of the chain, the sequence number counts the events, modulo 2 ^ 64, and nothing is taken
-- away from the payload file.
pub record Wrote (tw tw' : TraceWriter) : Type 0 where
  pub history : List Bytes
  pub links : tw'.prev_hash ≡ (emitted tw history).prev_hash
  pub lines : tw'.events ≡ (emitted tw history).events
  pub count : tw'.seq % 2 ^ 64 ≡ (tw.seq + length history) % 2 ^ 64
  pub grown : Bytes
  pub payload_grown : tw'.payload ≡ tw.payload ++ grown

emitted-append :
    (tw : TraceWriter) (h g : List Bytes) → emitted tw (h ++ g) ≡ emitted (emitted tw g) h
unfolding emitted
emitted-append tw [] g = refl
emitted-append tw (b ∷ h) g = ap (λ t. emit_line t b) (emitted-append tw h g)

-- A history reads only the link and the file.
emitted_same :
    (tw tw' : TraceWriter) (h : List Bytes)
    → tw'.prev_hash ≡ tw.prev_hash
    → tw'.events ≡ tw.events
    → ((emitted tw' h).prev_hash ≡ (emitted tw h).prev_hash)
      × ((emitted tw' h).events ≡ (emitted tw h).events)
unfolding emitted emit_line
emitted_same tw tw' [] p e = (p, e)
emitted_same tw tw' (b ∷ h) p e =
    let (p', e') = emitted_same tw tw' h p e in rw (p', e') (refl, refl)

Wrote-refl : (tw : TraceWriter) → Wrote tw tw
unfolding emitted
Wrote-refl tw = record {
  history = [];
  links = refl;
  lines = refl;
  count = omega arith;
  grown = [];
  payload_grown = sym (append-nil tw.payload);
}

Wrote-payload :
    (tw : TraceWriter) (grown : Bytes) → Wrote tw (record tw { payload = tw.payload ++ grown })
unfolding emitted
Wrote-payload tw grown = record {
  history = [];
  links = refl;
  lines = refl;
  count = omega arith;
  grown = grown;
  payload_grown = refl;
}

Wrote-event : (tw : TraceWriter) (body : Bytes) → Wrote tw (emit_line (next_seq tw) body)
unfolding emitted emit_line next_seq
Wrote-event tw body = record {
  history = body ∷ [];
  links = refl;
  lines = refl;
  count = omega arith;
  grown = [];
  payload_grown = sym (append-nil tw.payload);
}

Wrote-trans : (a b c : TraceWriter) → Wrote a b → Wrote b c → Wrote a c
Wrote-trans a b c p q =
    let (links, lines) = emitted_same (emitted a p.history) b q.history p.links p.lines in
    let joined = emitted-append a q.history p.history in
    record {
      history = q.history ++ p.history;
      links = q.links ∙ links ∙ ap (λ (t : TraceWriter). t.prev_hash) (sym joined);
      lines = q.lines ∙ lines ∙ ap (λ (t : TraceWriter). t.events) (sym joined);
      count = omega (arith, p.count, q.count, length-append q.history p.history);
      grown = p.grown ++ q.grown;
      payload_grown =
          q.payload_grown
          ∙ ap (λ r. r ++ q.grown) p.payload_grown
          ∙ append_assoc a.payload p.grown q.grown;
    }

append_payload-Wrote :
    (tw : TraceWriter) (bytes : Bytes) (disk : Disk) → Wrote tw (append_payload tw bytes disk).0
unfolding append_payload
append_payload-Wrote tw bytes disk = elim (Bool-cases disk.tells) [
  | inr mute ↦ rw mute (Wrote-refl tw)
  | inl tells ↦
      rw tells
        (elim (Bool-cases
          (ltb 0 (length bytes) && not (length (take disk.takes bytes) == length bytes))) [
            | inl short ↦ rw short (Wrote-payload tw (take disk.takes bytes))
            | inr whole ↦ rw whole (Wrote-payload tw (take disk.takes bytes))
          ])
]

save_payload-Wrote :
    (tw : TraceWriter) (entry : SyscallEntry) (ret : ℤ) (answers : Answers)
    → Wrote tw (save_payload tw entry ret answers).0
unfolding save_payload
save_payload-Wrote tw entry ret answers =
    elim (Bool-cases (is_payload_syscall entry.syscall_no && ltb 0 (payload_len entry ret))) [
      | inr without ↦ rw without (Wrote-refl tw)
      | inl wanted ↦ elim (Bool-cases answers.has_memory) [
        | inr full ↦ rw (wanted, full) (Wrote-refl tw)
        | inl memory ↦
            elim (Option-cases (answers.child_mem (payload_addr entry) (payload_len entry ret))) [
              | inl unread ↦ rw (wanted, memory, unread) (Wrote-refl tw)
              | inr (bytes, copied) ↦ elim (Bool-cases (length bytes == payload_len entry ret)) [
                | inr short ↦ rw (wanted, memory, copied, short) (Wrote-refl tw)
                | inl whole ↦ elim (Option-cases (append_payload tw bytes answers.disk).1) [
                  | inl failed ↦
                      rw (wanted, memory, copied, whole, failed)
                        (append_payload-Wrote tw bytes answers.disk)
                  | inr (ref, kept) ↦
                      rw (wanted, memory, copied, whole, kept)
                        (append_payload-Wrote tw bytes answers.disk)
                ]
              ]
            ]
      ]
    ]

module _ (pid : ℤ) (target : Bytes) where
  at_syscall-Wrote :
      (s : Loop) (regs : Regs) (answers : Answers)
      → Wrote s.tw (at_syscall pid target s regs answers).tw
  unfolding at_syscall emit_syscall
  at_syscall-Wrote s regs answers = elim (Bool-cases s.in_syscall) [
    | inr outside ↦ rw outside (Wrote-refl s.tw)
    | inl inside ↦ rw inside (
        Wrote-trans s.tw (save_payload s.tw s.entry (to_long regs.rax) answers).0 _
          (save_payload-Wrote s.tw s.entry (to_long regs.rax) answers) (Wrote-event _ _))
  ]

  pub run-Wrote : (stops : List Stop) (s : Loop) → Wrote s.tw (run pid target s stops).tw
  unfolding run emit_process
  run-Wrote [] s = Wrote-refl s.tw
  run-Wrote (lost ∷ stops) s = Wrote-refl s.tw
  run-Wrote (other_stop ∷ stops) s = run-Wrote stops s
  run-Wrote (exited code time ∷ stops) s = Wrote-event s.tw _
  run-Wrote (signaled signal time ∷ stops) s = Wrote-event s.tw _
  run-Wrote (syscall_stop regs answers ∷ stops) s =
      Wrote-trans s.tw (at_syscall pid target s regs answers).tw _ (at_syscall-Wrote s regs answers)
        (run-Wrote stops (at_syscall pid target s regs answers))

  -- Whatever the traced program does and whatever fails, what a run of the recorder leaves is a
  -- chained history that begins with the link "00" behind the old content of the event file: each
  -- line holds the link before it and its own hash, the sequence number counts the events, and the
  -- payload file only grows.
  pub record_run-Wrote :
      (out old_events : Bytes) (time : ℕ) (stops : List Stop)
      → Wrote
          (new_writer pid target out old_events)
          (record_run pid target out old_events time stops).tw
  unfolding record_run emit_process
  record_run-Wrote out old_events time stops =
      Wrote-trans (new_writer pid target out old_events) _ _ (Wrote-event _ _) (run-Wrote stops _)
