-- ===== src/Upload/Checksum/Copies.antt =====
-- What a copy through the checksumming reader leaves behind, whatever the size of the buffer.
use mathlib.Core.List.{append_assoc, append-nil}
use tempcdn.Prelude.{
  ℕ, zero, suc, ◌<◌, ◌≡◌, refl, ◌∙◌, Option, none, some, [], ◌∷◌, ◌++◌, take, drop, length,
  take-append-drop, length-drop, arith,
}
use tempcdn.Text.{Text}
use tempcdn.Storage.{Bytes}
use tempcdn.Metadata.Model.{Cause}
use tempcdn.Upload.Checksum.{
  Reader, ChecksummingReader, new_checksumming_reader, read, copy_loop, sum_hex,
}

abbrev drained : Option Cause → Bytes → ChecksummingReader
drained fails hashed = record { source = record { rest = []; fails = fails }; hashed = hashed }

copy_loop_lem :
    (fuel n : ℕ) (rest : Bytes) (fails : Option Cause) (hashed spool : Bytes)
    → 0 < n
    → length rest < fuel
    → copy_loop fuel n
        (record { source = record { rest = rest; fails = fails }; hashed = hashed })
        spool
      ≡ some (spool ++ rest, fails, drained fails (hashed ++ rest))
unfolding copy_loop read
copy_loop_lem zero n rest fails hashed spool p h = absurd (omega arith)
copy_loop_lem (suc fuel) zero rest fails hashed spool p h = absurd (omega arith)
copy_loop_lem (suc fuel) (suc n) [] none hashed spool p h = simp append-nil
copy_loop_lem (suc fuel) (suc n) [] (some e) hashed spool p h = simp append-nil
copy_loop_lem (suc fuel) (suc n) (b ∷ rest) fails hashed spool p h =
    copy_loop_lem fuel (suc n) (drop n rest) fails (hashed ++ b ∷ take n rest)
      (spool ++ b ∷ take n rest) p (omega (arith, length-drop n rest))
    ∙ simp (append_assoc, take-append-drop)

-- With a buffer of at least one byte the copy ends, and enough fuel is one more than the length of
-- the source: the spool file then holds the source's bytes in order, the error is the source's, and
-- the checksum is that of these bytes.
pub copy_checksum :
    (sha256_hex : Bytes → Text) (fuel n : ℕ) (source : Reader)
    → 0 < n
    → length source.rest < fuel
    → (c : ChecksummingReader) × (copy_loop fuel n (new_checksumming_reader source) []
        ≡ some (source.rest, source.fails, c))
      × (sum_hex sha256_hex c ≡ sha256_hex source.rest)
unfolding new_checksumming_reader sum_hex
copy_checksum sha256_hex fuel n source p h = (
  drained source.fails source.rest,
  copy_loop_lem fuel n source.rest source.fails [] [] p h,
  refl,
)
