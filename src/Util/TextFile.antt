-- ===== src/Util/TextFile.antt =====
-- src/common/util.c: `adr_write_text_file`.
use os_ai_assisted_determini.Base.{
  ℕ, Bool, true, false, not, ◌&&◌, Option, none, some, if◌then◌else◌, Bytes, length, take, ◌≡◌, ◌≤◌,
  take_all, arith,
}

-- What `fopen`, `fputs` and `fclose` answer, and how many bytes reach the file.
pub record TextOutput : Type 0 where
  pub opens : Bool
  pub puts : Bool
  pub takes : ℕ
  pub closes : Bool

-- The new content of the file, if it was opened, and whether the result is 0.
unfoldable pub write_text_file : TextOutput → Bytes → Option Bytes × Bool
write_text_file file text =
    if not file.opens
    then (none, false)
    else (some (take file.takes text), file.puts && file.closes)

-- A call with the result 0 has written the whole text, where `fputs` only succeeds with all of it.
pub write_text_file_lem :
    (file : TextOutput) (text : Bytes)
    → (file.puts ≡ true → length text ≤ file.takes)
    → (write_text_file file text).1 ≡ true
    → (write_text_file file text).0 ≡ some text
unfolding write_text_file
write_text_file_lem file text whole ok = ground (arith, take_all file.takes text)
