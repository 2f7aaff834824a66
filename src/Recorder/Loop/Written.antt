-- ===== src/Recorder/Loop/Written.antt =====
-- The event file of a run, written out as a chain.
use os_ai_assisted_determini.Base.{
  ℕ, ◌%◌, ◌^◌, ◌≡◌, refl, ap, ◌∙◌, sym, List, [], ◌∷◌, ◌++◌, append_assoc, append-nil, arith, Bytes,
  codes, length, length-append, take,
}
use os_ai_assisted_determini.Base.Int.{ℤ}
use os_ai_assisted_determini.Hash.Hex.{bytes_hex}
use os_ai_assisted_determini.Libc.Print.{cut_to}
use os_ai_assisted_determini.Recorder.Loop.{Stop, new_writer, record_run}
use os_ai_assisted_determini.Recorder.Loop.History.{record_run-Wrote}
use os_ai_assisted_determini.Trace.Chain.{emitted, prev_hash-emit_line}
use os_ai_assisted_determini.Trace.Writer.{TraceWriter, emit_line, material, line_end}

-- The hash of a link and a body, as the format says: that of `link|body`, at most 8191 bytes of it.
abbrev pub link_after : Bytes → Bytes → Bytes
link_after link body = bytes_hex (take 8191 (link ++ (b'|' ∷ body)))

-- The line of a body behind a link.
abbrev pub line_text : Bytes → Bytes → Bytes
line_text link body =
    body
    ++ (codes ",\"prev_hash\":\""
        ++ (link ++ (codes "\",\"event_hash\":\"" ++ (link_after link body ++ codes "\"}\n"))))

-- The lines of the bodies, the oldest first, from a link on.
abbrev pub chain_text : Bytes → List Bytes → Bytes
chain_text link [] = []
chain_text link (body ∷ bodies) = line_text link body ++ chain_text (link_after link body) bodies

abbrev pub chain_end : Bytes → List Bytes → Bytes
chain_end link [] = link
chain_end link (body ∷ bodies) = chain_end (link_after link body) bodies

oldest_first : List Bytes → List Bytes
oldest_first [] = []
oldest_first (body ∷ earlier) = oldest_first earlier ++ body ∷ []

length-oldest_first : (h : List Bytes) → length (oldest_first h) ≡ length h
unfolding oldest_first
length-oldest_first [] = refl
length-oldest_first (body ∷ h) =
    omega (arith, length-append (oldest_first h) (body ∷ []), length-oldest_first h)

chain_end-append :
    (bodies : List Bytes) (link body : Bytes)
    → chain_end link (bodies ++ body ∷ []) ≡ link_after (chain_end link bodies) body
chain_end-append [] link body = refl
chain_end-append (b ∷ bodies) link body = chain_end-append bodies (link_after link b) body

chain_text-append :
    (bodies : List Bytes) (link body : Bytes)
    → chain_text link (bodies ++ body ∷ [])
      ≡ chain_text link bodies ++ chain_text (chain_end link bodies) (body ∷ [])
chain_text-append [] link body = refl
chain_text-append (b ∷ bodies) link body =
    ap (λ r. line_text link b ++ r) (chain_text-append bodies (link_after link b) body)
    ∙ sym (append_assoc (line_text link b) (chain_text (link_after link b) bodies) _)

-- A history of the code is such a chain.
emitted-chain :
    (tw : TraceWriter) (h : List Bytes)
    → ((emitted tw h).events ≡ tw.events ++ chain_text tw.prev_hash (oldest_first h))
      × ((emitted tw h).prev_hash ≡ chain_end tw.prev_hash (oldest_first h))
unfolding emitted emit_line material line_end oldest_first cut_to
emitted-chain tw [] = (sym (append-nil tw.events), refl)
emitted-chain tw (body ∷ h) =
    let (events, link) = emitted-chain tw h in
    (
      rw (chain_text-append (oldest_first h) tw.prev_hash body, ← link, append-nil)
          (ap (λ l. l ++ line_text (emitted tw h).prev_hash body) events
            ∙ append_assoc tw.events (chain_text tw.prev_hash (oldest_first h)) _),
      rw (chain_end-append (oldest_first h) tw.prev_hash body, ← link)
          (prev_hash-emit_line (emitted tw h) body),
    )

-- Whatever the traced program does and whatever of the recorder's own calls fails but the writes to
-- the event file, which takes every line, a run of the recorder adds to the old content of the event
-- file a chain of lines that begins with the link "00": each line holds the hash of the link and body
-- of the line before it, and its own. The writer ends with the last hash as its link, and with the
-- number of lines as its sequence number, modulo 2 ^ 64.
pub record_run-chain_text :
    (pid : ℤ) (target out old_events : Bytes) (time : ℕ) (stops : List Stop)
    → (bodies : List Bytes) × ((record_run pid target out old_events time stops).tw.events
        ≡ old_events ++ chain_text (codes "00") bodies)
      × ((record_run pid target out old_events time stops).tw.prev_hash
          ≡ chain_end (codes "00") bodies)
      × ((record_run pid target out old_events time stops).tw.seq % 2 ^ 64 ≡ length bodies % 2 ^ 64)
unfolding new_writer
record_run-chain_text pid target out old_events time stops =
    let w = record_run-Wrote pid target out old_events time stops in
    let (events, link) = emitted-chain (new_writer pid target out old_events) w.history in
    (
      oldest_first w.history,
      w.lines ∙ events,
      w.links ∙ link,
      omega (arith, w.count, length-oldest_first w.history),
    )
