-- ===== src/Tests/Hashes.antt =====
-- src/common/hash.c at short messages.
use os_ai_assisted_determini.Base.{
  ◌+◌, ◌≡◌, refl, false, true, none, some, ◌∷◌, [], codes, length, All,
}
use os_ai_assisted_determini.Hash.Context.{digest}
use os_ai_assisted_determini.Hash.Digest.{digest-eq-sha256}
use os_ai_assisted_determini.Hash.Files.{file_hex, file_hex_lem}
use os_ai_assisted_determini.Hash.Hex.{blank, bytes_hex, bytes_hex_from}
use os_ai_assisted_determini.Hash.HexText.{IsHexDigit, bytes_hex_from_lem, unhex}
use os_ai_assisted_determini.Hash.Spec.{sha256}

-- The test vector of the standard.
bytes_hex_abc :
    bytes_hex (codes "abc")
    ≡ codes "ba7816bf8f01cfea414140de5dae2223b00361a396177a9cb410ff61f20015ad"
unfolding bytes_hex
bytes_hex_abc = refl

digest-eq-sha256_example : digest blank (codes "abc") ≡ sha256 (codes "abc")
digest-eq-sha256_example = digest-eq-sha256 blank (codes "abc") refl

bytes_hex_from_lem_example :
    (length (bytes_hex_from blank (codes "abc")) + 1 ≡ 65)
    × All IsHexDigit (bytes_hex_from blank (codes "abc"))
    × (unhex (bytes_hex_from blank (codes "abc")) ≡ some (sha256 (codes "abc")))
bytes_hex_from_lem_example = bytes_hex_from_lem blank (codes "abc") refl

file_hex_lem_example :
    (file_hex blank (some (record { reads = codes "ab" ∷ codes "c" ∷ [] ∷ []; failed = false }))
      ≡ some (bytes_hex (codes "abc")))
    × (file_hex blank (some (record { reads = codes "ab" ∷ codes "c" ∷ [] ∷ []; failed = true }))
        ≡ none)
    × (file_hex blank none ≡ none)
file_hex_lem_example = file_hex_lem blank (codes "ab" ∷ codes "c" ∷ [] ∷ []) refl
