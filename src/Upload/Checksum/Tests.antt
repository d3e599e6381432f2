-- ===== src/Upload/Checksum/Tests.antt =====
-- A copy of five bytes in buffers of two, from a source that fails at its end.
use tempcdn.Prelude.{◌≡◌, some, [], ◌∷◌, arith}
use tempcdn.Text.{lit}
use tempcdn.Metadata.Model.{Cause}
use tempcdn.Upload.Checksum.{
  Reader, ChecksummingReader, new_checksumming_reader, copy_loop, sum_hex,
}
use tempcdn.Upload.Checksum.Copies.{copy_checksum}

abbrev cut_short : Reader
cut_short = record { rest = lit "hello"; fails = some Cause.other }

copy_checksum_example :
    (c : ChecksummingReader) × (copy_loop 6 2 (new_checksumming_reader cut_short) []
      ≡ some (lit "hello", some Cause.other, c))
    × (sum_hex (λ b. b'#' ∷ b) c ≡ lit "#hello")
copy_checksum_example = copy_checksum (λ b. b'#' ∷ b) 6 2 cut_short (omega arith) (omega arith)
