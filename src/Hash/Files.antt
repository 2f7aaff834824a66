-- ===== src/Hash/Files.antt =====
-- src/common/hash.c: `adr_sha256_file_hex`. The file comes as the results of its `fread` calls.
use os_ai_assisted_determini.Hash.HexText.{bytes_hex-bytes_hex_from}
use os_ai_assisted_determini.Base.{
  ◌≡◌, refl, sym, ap, ◌∙◌, Bool, true, false, Option, none, some, List, [], ◌∷◌, ◌++◌,
  if◌then◌else◌, Bytes, length,
}
use os_ai_assisted_determini.Hash.Context.{digest, Ctx, init, update, final}
use os_ai_assisted_determini.Hash.Hex.{hex, bytes_hex_from, bytes_hex}

-- An open stream: what each `fread` of at most 8192 bytes gives, and `ferror` at the end.
pub record Stream : Type 0 where
  pub reads : List Bytes
  pub failed : Bool

-- `while ((n = fread(…)) > 0)`: an empty read ends the loop.
read_loop : Ctx → List Bytes → Ctx
read_loop ctx [] = ctx
read_loop ctx ([] ∷ reads) = ctx
read_loop ctx ((x ∷ xs) ∷ reads) = read_loop (update ctx (x ∷ xs)) reads

-- `none` is the -1 of a file that cannot be opened or read.
unfoldable pub file_hex : Ctx → Option Stream → Option Bytes
unfolding read_loop
file_hex stack none = none
file_hex stack (some f) =
    if f.failed then none else some (hex (final (read_loop (init stack) f.reads)))

-- The bytes that come before the end of the file.
abbrev pub contents : List Bytes → Bytes
contents [] = []
contents ([] ∷ reads) = []
contents ((x ∷ xs) ∷ reads) = (x ∷ xs) ++ contents reads

update-append : (xs ys : Bytes) (ctx : Ctx) → update ctx (xs ++ ys) ≡ update (update ctx xs) ys
unfolding update
update-append [] ys ctx = refl
update-append (x ∷ xs) ys ctx = update-append xs ys _

read_loop_lem : (reads : List Bytes) (ctx : Ctx) → read_loop ctx reads ≡ update ctx (contents reads)
unfolding read_loop
read_loop_lem [] ctx = unfold update in refl
read_loop_lem ([] ∷ reads) ctx = unfold update in refl
read_loop_lem ((x ∷ xs) ∷ reads) ctx =
    read_loop_lem reads (update ctx (x ∷ xs)) ∙ sym (update-append (x ∷ xs) (contents reads) ctx)

-- The hash of a file is the hash of its bytes, however `fread` splits them; it is -1 when the file
-- cannot be opened and when a read fails. The stack slot of the context holds anything, with 64 bytes
-- of `data`.
pub file_hex_lem :
    (stack : Ctx) (reads : List Bytes)
    → length stack.block ≡ 64
    → (file_hex stack (some (record { reads = reads; failed = false }))
        ≡ some (bytes_hex (contents reads)))
      × (file_hex stack (some (record { reads = reads; failed = true })) ≡ none)
      × (file_hex stack none ≡ none)
unfolding file_hex
file_hex_lem stack reads size = (
  ap (λ c. some (hex (final c))) (read_loop_lem reads (init stack))
      ∙ ap some
          (unfold bytes_hex_from digest in bytes_hex-bytes_hex_from stack (contents reads) size),
  refl,
  refl,
)
