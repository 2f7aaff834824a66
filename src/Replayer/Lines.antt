-- ===== src/Replayer/Lines.antt =====
-- The growing array of replayer/ptrace_replayer.c: `load_replay_events` keeps the events of all the
-- lines, in order.
use os_ai_assisted_determini.Base.{
  ℕ, ◌+◌, ◌*◌, ◌≤◌, ◌≡◌, refl, sym, ap, ◌∙◌, ◌⊎◌, inl, inr, false, Option, none, some, List, [],
  ◌∷◌, ◌++◌, append-nil, append_assoc, arith, ◌==◌, if◌then◌else◌, Bool-cases, Option-cases, Bytes,
  length, length-append,
}
use os_ai_assisted_determini.Replayer.Events.{
  ReplayEvent, load_line, ReplayEvents, Realloc, push_event, load_lines, split_lines, no_events,
  load_replay_events,
}

-- The events of the lines that are kept.
abbrev pub loaded : List Bytes → List ReplayEvent
loaded [] = []
loaded (line ∷ lines) = elim (load_line line) [ none ↦ loaded lines | some ev ↦ ev ∷ loaded lines ]

-- The slots in use are counted and lie in the array.
pub record IsSound (events : ReplayEvents) : Type 0 where
  pub counted : events.len ≡ length events.items
  pub within : events.len ≤ events.cap

abbrev more_slots : ReplayEvents → ℕ
more_slots events = if events.cap == 0 then 64 else events.cap * 2

-- The event is added, or `realloc` has failed.
abbrev Pushed : Realloc → ReplayEvents → ReplayEvent → Type 0
Pushed realloc events ev =
    ((n : ℕ) × (realloc n ≡ false) × (push_event realloc events ev ≡ none))
    ⊎ ((events' : ReplayEvents) × (push_event realloc events ev ≡ some events')
        × (events'.items ≡ events.items ++ ev ∷ [])
        × IsSound events')

push_event_lem :
    (realloc : Realloc) (events : ReplayEvents) (ev : ReplayEvent)
    → IsSound events
    → Pushed realloc events ev
unfolding push_event
push_event_lem realloc events ev h = elim (Bool-cases (events.len == events.cap)) [
  | inr room ↦ inr (
    added events.cap,
    rw room refl,
    refl,
    record { counted = counted; within = ground (arith, h.within) },
  )
  | inl full ↦ elim (Bool-cases (realloc (more_slots events))) [
    | inr refused ↦ inl (more_slots events, refused, rw (full, refused) refl)
    | inl given ↦ inr (
      added (more_slots events),
      rw (full, given) refl,
      refl,
      record { counted = counted; within = ground (arith, h.within) },
    )
  ]
]
  where
    added : ℕ → ReplayEvents
    added slots = record { items = events.items ++ ev ∷ []; len = events.len + 1; cap = slots }

    counted : events.len + 1 ≡ length (events.items ++ ev ∷ [])
    counted = omega (arith, h.counted, length-append events.items (ev ∷ []))

-- What loading the lines leads to.
abbrev pub Loaded : Realloc → List Bytes → ReplayEvents → Option ReplayEvents → Type 0
Loaded realloc lines events result =
    ((n : ℕ) × (realloc n ≡ false) × (result ≡ none))
    ⊎ ((events' : ReplayEvents) × (result ≡ some events')
        × (events'.items ≡ events.items ++ loaded lines)
        × IsSound events')

load_lines_lem :
    (realloc : Realloc) (lines : List Bytes) (events : ReplayEvents)
    → IsSound events
    → Loaded realloc lines events (load_lines realloc lines events)
unfolding load_lines
load_lines_lem realloc [] events h = inr (events, refl, sym (append-nil events.items), h)
load_lines_lem realloc (line ∷ lines) events h = elim (Option-cases (load_line line)) [
  | inl skipped ↦ rw (load_lines, loaded, skipped) (load_lines_lem realloc lines events h)
  | inr (ev, kept) ↦ elim (push_event_lem realloc events ev h) [
    | inl (n, refused, failed) ↦ rw (load_lines, loaded, kept, failed) (inl (n, refused, refl))
    | inr (events', pushed, items, h') ↦ elim (load_lines_lem realloc lines events' h') [
      | inl (n, refused, failed) ↦ rw (load_lines, loaded, kept, pushed) (inl (n, refused, failed))
      | inr (events'', done, all, h'') ↦
          rw (load_lines, loaded, kept, pushed)
            (inr (
              events'',
              done,
              all
                  ∙ ap (λ l. l ++ loaded lines) items
                  ∙ append_assoc events.items (ev ∷ []) (loaded lines),
              h'',
            ))
    ]
  ]
]

-- Where the path of the event file does not fit its buffer or the file cannot be opened,
-- `load_replay_events` fails. Otherwise, for what `getline` gives of the file before it returns -1,
-- either `realloc` has refused some number of slots and it fails, or it returns the events of all the
-- lines that are kept, in their order, in an array whose slots in use are counted and lie within its
-- capacity.
pub load_replay_events_lem :
    (realloc : Realloc) (file : Option Bytes)
    → ((file ≡ none) × (load_replay_events realloc file ≡ none))
      ⊎ ((content : Bytes) × (file ≡ some content)
          × Loaded realloc (split_lines content) no_events (load_replay_events realloc file))
unfolding load_replay_events
load_replay_events_lem realloc none = inl (refl, refl)
load_replay_events_lem realloc (some content) = inr (
  content,
  refl,
  load_lines_lem realloc (split_lines content) no_events
      (record { counted = refl; within = omega arith }),
)
