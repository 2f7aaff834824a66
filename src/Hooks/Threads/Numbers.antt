-- ===== src/Hooks/Threads/Numbers.antt =====
-- The numbers of the hook's events.
use os_ai_assisted_determini.Base.{
  sym, ◌++◌, append-nil, append_assoc, ℕ, ◌+◌, ◌^◌, ◌≤◌, ◌<◌, ◌≡◌, ◌≢◌, refl, ap, ◌∙◌, inl, inr,
  List, [], ◌∷◌, arith, ◌==◌, Bool-cases, Bytes, All,
}
use os_ai_assisted_determini.Hooks.{
  Environment, SyncEvent, Answers, Shared, add_and_fetch, write_event,
}
use os_ai_assisted_determini.Hooks.Logged.{added, write_event-added}
use os_ai_assisted_determini.Hooks.Threads.{
  Written, idle, numbered, System, update, Step, take_number, write, first_number, initial, Reach,
  begin, later,
}

abbrev pub Distinct : List ℕ → Type 0
Distinct [] = Unit
Distinct (x ∷ xs) = All (λ y. y ≢ x) xs × Distinct xs

abbrev pub numbers : List Written → List ℕ
numbers [] = []
numbers (w ∷ ws) = w.seq ∷ numbers ws

-- What these events add to the file, in the order of their `write`.
abbrev pub file_text : Environment → List Written → Bytes
file_text env [] = []
file_text env (w ∷ ws) = file_text env ws ++ added env w.answers w.seq w.event

-- Every number that is in use was taken, and is in use once.
pub record Inv (s : System) : Type 0 where
  pub counted : s.shared.sync_seq ≡ first_number + s.taken
  pub held : (i q : ℕ) → s.pc i ≡ numbered q → (first_number < q) × (q ≤ first_number + s.taken)
  pub alone : (i j q : ℕ) → s.pc i ≡ numbered q → s.pc j ≡ numbered q → i ≡ j
  pub past : All (λ q. (first_number < q) × (q ≤ first_number + s.taken)) (numbers s.written)
  pub apart : (i q : ℕ) → s.pc i ≡ numbered q → All (λ w. w ≢ q) (numbers s.written)
  pub distinct : Distinct (numbers s.written)

All-map : {P Q : ℕ → Type 0} (xs : List ℕ) → ((x : ℕ) → P x → Q x) → All P xs → All Q xs
All-map [] f h = tt
All-map (x ∷ xs) f h = (f x h.0, All-map xs f h.1)

take-Inv :
    (s : System) (i : ℕ)
    → first_number + s.taken + 1 < 2 ^ 64
    → Inv s
    → Inv (record s {
      shared = add_and_fetch s.shared;
      pc = update s.pc i (numbered (add_and_fetch s.shared).sync_seq);
      taken = s.taken + 1;
    })
unfolding add_and_fetch
take-Inv s i room v = record {
  counted = omega (arith, v.counted);
  held = λ j q e. ground (arith, v.held j q, v.counted);
  alone = λ j k q e e'. ground (arith, v.alone j k q, v.held j q, v.held k q, v.counted);
  past = All-map (numbers s.written) (λ x h. omega arith) v.past;
  apart = λ j q e. elim (Bool-cases (i == j)) [
    | inl this ↦
        let new : q ≡ first_number + s.taken + 1 = ground (arith, v.counted) in
        All-map (numbers s.written) (λ x h same. omega arith) v.past
    | inr other ↦ v.apart j q (ground arith)
  ];
  distinct = v.distinct;
}

write-Inv :
    (s : System) (i seq : ℕ) (a : Answers) (ev : SyncEvent) (shared : Shared)
    → shared.sync_seq ≡ s.shared.sync_seq
    → s.pc i ≡ numbered seq
    → Inv s
    → Inv (record s {
      shared = shared;
      pc = update s.pc i idle;
      written = record { seq = seq; answers = a; event = ev } ∷ s.written;
    })
write-Inv s i seq a ev shared same at v = record {
  counted = same ∙ v.counted;
  held = λ j q e. ground (arith, v.held j q);
  alone = λ j k q e e'. ground (arith, v.alone j k q);
  past = (v.held i seq at, v.past);
  apart = λ j q e.
      let other : s.pc j ≡ numbered q = ground arith in
      let differ : i ≢ j = ground arith in
      (λ same. differ (v.alone i j q (at ∙ ap numbered same) other), v.apart j q other);
  distinct = (v.apart i seq at, v.distinct);
}

-- The state at the start has no number in use.
initial-Inv : (events : Bytes) → Inv (initial events)
initial-Inv events = record {
  counted = refl;
  held = λ i q e. cc;
  alone = λ i j q e e'. cc;
  past = tt;
  apart = λ i q e. tt;
  distinct = tt;
}

write_event-sync_seq :
    (env : Environment) (a : Answers) (seq : ℕ) (ev : SyncEvent) (shared : Shared)
    → (write_event env a seq ev shared).sync_seq ≡ shared.sync_seq
unfolding write_event
write_event-sync_seq env a seq ev shared = ground arith

taken_grows : {env : Environment} {s t : System} → Step env s t → s.taken ≤ t.taken
taken_grows (take_number i at) = omega arith
taken_grows (write i seq a ev at) = omega arith

Step-Inv :
    {env : Environment} {s t : System}
    → Step env s t
    → first_number + t.taken < 2 ^ 64
    → Inv s
    → Inv t
Step-Inv {s = s} (take_number i at) room v = take-Inv s i (omega arith) v
Step-Inv {env} {s = s} (write i seq a ev at) room v =
    write-Inv s i seq a ev (write_event env a seq ev s.shared)
      (write_event-sync_seq env a seq ev s.shared) at v

pub Reach-Inv :
    {env : Environment} {events : Bytes} {s : System}
    → Reach env events s
    → first_number + s.taken < 2 ^ 64
    → Inv s
Reach-Inv {events} begin room = initial-Inv events
Reach-Inv (later r st) room = Step-Inv st room (Reach-Inv r (omega (arith, taken_grows st)))

pub Reach-file :
    {env : Environment} {events : Bytes} {s : System}
    → Reach env events s
    → s.shared.events ≡ events ++ file_text env s.written
unfolding add_and_fetch
Reach-file {events} begin = sym (append-nil events)
Reach-file (later r (take_number i at)) = Reach-file r
Reach-file {env} {events} (later {s} r (write i seq a ev at)) =
    write_event-added env a seq ev s.shared
    ∙ ap (λ l. l ++ added env a seq ev) (Reach-file r)
    ∙ append_assoc events (file_text env s.written) (added env a seq ev)

-- However the threads interleave, the file holds its old content and then the events that were
-- written, each with its own number, as far as its text fits and `write` takes it; no two of these
-- numbers are the same, nor is one the same as a number that a thread still holds, and no two threads
-- hold the same. Each lies above the first value of `sync_seq`, by at most the count of those taken.
-- Fewer numbers are taken than would make the 64-bit counter wrap.
pub numbers-Distinct :
    {env : Environment} {events : Bytes} {s : System}
    → Reach env events s
    → first_number + s.taken < 2 ^ 64
    → (s.shared.events ≡ events ++ file_text env s.written)
      × Distinct (numbers s.written)
      × All (λ q. (first_number < q) × (q ≤ first_number + s.taken)) (numbers s.written)
      × ((i q : ℕ) → s.pc i ≡ numbered q → All (λ w. w ≢ q) (numbers s.written))
      × ((i j q : ℕ) → s.pc i ≡ numbered q → s.pc j ≡ numbered q → i ≡ j)
numbers-Distinct r room =
    let v = Reach-Inv r room in (Reach-file r, v.distinct, v.past, v.apart, v.alone)
