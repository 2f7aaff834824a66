-- ===== src/Trace/Chain.antt =====
-- The hash chain of the event file: a history of events is fixed by its last hash.
use mathlib.Core.List.{Mem, mem-cons_self, mem-cons_of_mem}
use mathlib.Core.Path.{ap₂}
use native.Mathlib.Decide.{ℕ_discrete}
use os_ai_assisted_determini.Base.{
  ◌≤◌, ◌≡◌, refl, sym, ap, ◌∙◌, ◌≢◌, ◌⊎◌, inl, inr, List, [], ◌∷◌, ◌++◌, arith, Bytes, codes,
  length, get_or, drop, All, Lacks, length-append,
}
use os_ai_assisted_determini.Hash.Hex.{bytes_hex}
use os_ai_assisted_determini.Hash.HexText.{IsHexDigit, length-bytes_hex, bytes_hex-IsHexDigit}
use os_ai_assisted_determini.Libc.Print.{cut_to_fits}
use os_ai_assisted_determini.Trace.Writer.{TraceWriter, material, emit_line}

-- The writer after a history of bodies, the latest first.
unfoldable pub emitted : TraceWriter → List Bytes → TraceWriter
emitted tw [] = tw
emitted tw (body ∷ earlier) = emit_line (emitted tw earlier) body

-- The texts whose hashes are the links of a history.
abbrev pub hashed : TraceWriter → List Bytes → List Bytes
hashed tw [] = []
hashed tw (body ∷ earlier) = material (emitted tw earlier).prev_hash body ∷ hashed tw earlier

-- Two different texts with one hash, the first hashed in one history and the second in the other.
pub record Collision (tw tw' : TraceWriter) (h h' : List Bytes) : Type 0 where
  pub first : Bytes
  pub second : Bytes
  pub of_first : Mem first (hashed tw h)
  pub of_second : Mem second (hashed tw' h')
  pub differ : first ≢ second
  pub same_hash : bytes_hex first ≡ bytes_hex second

-- The body is covered by its hash: with 64 digits and the bar it fits `material`.
abbrev pub IsCovered : Bytes → Type 0
IsCovered body = length body ≤ 8126

-- A hash of the chain holds no bar and is not longer than 64 bytes.
abbrev pub IsLink : Bytes → Type 0
IsLink h = Lacks b'|' h × (length h ≤ 64)

Bytes-discrete : Discrete Bytes
Bytes-discrete = hlevel ℕ_discrete

hex-Lacks : (h : Bytes) → All IsHexDigit h → Lacks b'|' h
hex-Lacks [] d = tt
hex-Lacks (c ∷ h) d = (ground arith, hex-Lacks h d.1)

-- The next link is the hash itself: it fits `prev_hash`.
pub prev_hash-emit_line :
    (tw : TraceWriter) (body : Bytes)
    → (emit_line tw body).prev_hash ≡ bytes_hex (material tw.prev_hash body)
unfolding emit_line
prev_hash-emit_line tw body =
    cut_to_fits 65 (bytes_hex (material tw.prev_hash body))
      (omega (arith, length-bytes_hex (material tw.prev_hash body)))

emit_line-IsLink : (tw : TraceWriter) (body : Bytes) → IsLink (emit_line tw body).prev_hash
emit_line-IsLink tw body = rw (prev_hash-emit_line tw body) (
  hex-Lacks _ (bytes_hex-IsHexDigit (material tw.prev_hash body)),
  omega (arith, length-bytes_hex (material tw.prev_hash body)),
)

emitted-IsLink :
    (tw : TraceWriter) (h : List Bytes) → IsLink tw.prev_hash → IsLink (emitted tw h).prev_hash
unfolding emitted
emitted-IsLink tw [] l = l
emitted-IsLink tw (body ∷ earlier) l = emit_line-IsLink (emitted tw earlier) body

-- A text is cut in one way at its first bar.
bar_unique :
    (p q b c : Bytes)
    → Lacks b'|' p
    → Lacks b'|' q
    → p ++ (b'|' ∷ b) ≡ q ++ (b'|' ∷ c)
    → (p ≡ q) × (b ≡ c)
bar_unique [] [] b c hp hq e = (refl, ap (λ l. drop 1 l) e)
bar_unique [] (y ∷ q) b c hp hq e = absurd (hq.0 (sym (ap (λ l. get_or l 0 0) e)))
bar_unique (x ∷ p) [] b c hp hq e = absurd (hp.0 (ap (λ l. get_or l 0 0) e))
bar_unique (x ∷ p) (y ∷ q) b c hp hq e =
    let (ep, eb) = bar_unique p q b c hp.1 hq.1 (ap (λ l. drop 1 l) e) in
    (ap₂ ◌∷◌ (ap (λ l. get_or l 0 0) e) ep, eb)

material_whole : (p body : Bytes) → IsLink p → IsCovered body → material p body ≡ p ++ (b'|' ∷ body)
unfolding material
material_whole p body l c =
    cut_to_fits 8192 (p ++ (b'|' ∷ body)) (omega (arith, length-append p (b'|' ∷ body), l.1))

-- Equal hashes of two events come from equal links and bodies, or show a collision.
link_step :
    (p q b c : Bytes)
    → IsLink p
    → IsLink q
    → IsCovered b
    → IsCovered c
    → bytes_hex (material p b) ≡ bytes_hex (material q c)
    → ((p ≡ q) × (b ≡ c)) ⊎ (material p b ≢ material q c)
link_step p q b c lp lq cb cc e = elim (Bytes-discrete (material p b) (material q c)) [
  | yes same ↦ inl (
      bar_unique p q b c lp.0 lq.0
        (sym (material_whole p b lp cb) ∙ same ∙ material_whole q c lq cc))
  | no differ ↦ inr differ
]

Collision-earlier :
    (tw tw' : TraceWriter) (b b' : Bytes) (h h' : List Bytes)
    → Collision tw tw' h h'
    → Collision tw tw' (b ∷ h) (b' ∷ h')
Collision-earlier tw tw' b b' h h' c = record {
  first = c.first;
  second = c.second;
  of_first = mem-cons_of_mem _ c.of_first;
  of_second = mem-cons_of_mem _ c.of_second;
  differ = c.differ;
  same_hash = c.same_hash;
}

-- Two writers begin with the link "00". If their last hashes agree after histories of bodies of at
-- most 8126 bytes, then the histories agree, in length and in every body, or they show a collision:
-- two different texts with the same SHA-256 text, one that was hashed for a link of the first history
-- and one for a link of the second.
pub emitted_tamper_evident :
    (tw tw' : TraceWriter) (h h' : List Bytes)
    → tw.prev_hash ≡ codes "00"
    → tw'.prev_hash ≡ codes "00"
    → All IsCovered h
    → All IsCovered h'
    → (emitted tw h).prev_hash ≡ (emitted tw' h').prev_hash
    → (h ≡ h') ⊎ Collision tw tw' h h'
unfolding emitted
emitted_tamper_evident tw tw' [] [] z z' c c' e = inl refl
emitted_tamper_evident tw tw' [] (b ∷ h') z z' c c' e = absurd (
    omega (
      arith,
      ap length (sym z ∙ e ∙ prev_hash-emit_line (emitted tw' h') b),
      length-bytes_hex (material (emitted tw' h').prev_hash b),
    ))
emitted_tamper_evident tw tw' (b ∷ h) [] z z' c c' e = absurd (
    omega (
      arith,
      ap length (sym z' ∙ sym e ∙ prev_hash-emit_line (emitted tw h) b),
      length-bytes_hex (material (emitted tw h).prev_hash b),
    ))
emitted_tamper_evident tw tw' (b ∷ h) (b' ∷ h') z z' c c' e =
    let start : IsLink tw.prev_hash = rw z (omega arith) in
    let start' : IsLink tw'.prev_hash = rw z' (omega arith) in
    let last =
      sym (prev_hash-emit_line (emitted tw h) b) ∙ e ∙ prev_hash-emit_line (emitted tw' h') b' in
    elim (link_step (emitted tw h).prev_hash (emitted tw' h').prev_hash b b'
      (emitted-IsLink tw h start) (emitted-IsLink tw' h' start') c.0 c'.0 last) [
        | inl (same, body) ↦ elim (emitted_tamper_evident tw tw' h h' z z' c.1 c'.1 same) [
          | inl rest ↦ inl (ap₂ ◌∷◌ body rest)
          | inr found ↦ inr (Collision-earlier tw tw' b b' h h' found)
        ]
        | inr differ ↦ inr (record {
          first = material (emitted tw h).prev_hash b;
          second = material (emitted tw' h').prev_hash b';
          of_first = mem-cons_self;
          of_second = mem-cons_self;
          differ = differ;
          same_hash = last;
        })
      ]
