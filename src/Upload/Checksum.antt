-- ===== src/Upload/Checksum.antt =====
-- internal/upload/checksum.go: a reader that hashes what passes through it (`io.TeeReader`), and
-- the loop of `io.Copy` over it. SHA-256 in hexadecimal is the parameter `sha256_hex`.
pub mod Copies
mod Tests
use tempcdn.Prelude.{
  ℕ, zero, suc, ◌≡◌, Bool, true, false, Option, none, some, List, [], ◌∷◌, ◌++◌, take, drop,
  if◌then◌else◌,
}
use tempcdn.Text.{Text}
use tempcdn.Storage.{Bytes}
use tempcdn.Metadata.Model.{Cause}

-- An `io.Reader`: the bytes that it still has, and how it ends: at the end of the file, or by an
-- error of the network.
pub record Reader : Type 0 where
  pub rest : Bytes
  pub fails : Option Cause

pub record ChecksummingReader : Type 0 where
  pub source : Reader
  pub hashed : Bytes

unfoldable pub new_checksumming_reader : Reader → ChecksummingReader
new_checksumming_reader source = record { source = source; hashed = [] }

-- What one `Read` returns beside the bytes.
pub data ReadEnd : Type 0 where
  more eof : ReadEnd
  failed : Cause → ReadEnd

abbrev pub end_of : Option Cause → ReadEnd
end_of none = eof
end_of (some e) = failed e

-- `Read(buffer)` with a buffer of `n` bytes. What is read goes to the hasher before it is returned.
unfoldable pub read : ℕ → ChecksummingReader → Bytes × ReadEnd × ChecksummingReader
read n c =
    let chunk = take n c.source.rest in
    (
      chunk,
      elim (chunk) [ [] ↦ end_of c.source.fails | b ∷ bs ↦ more ],
      record {
        source = record { rest = drop n c.source.rest; fails = c.source.fails };
        hashed = c.hashed ++ chunk;
      },
    )

-- The loop of `io.Copy(spool, c)` with a buffer of `n` bytes: what the spool file holds at the end,
-- the error if there was one, and the reader. `none` says that the fuel ran out.
unfoldable pub copy_loop :
    ℕ → ℕ → ChecksummingReader → Bytes → Option (Bytes × Option Cause × ChecksummingReader)
copy_loop zero n c spool = none
copy_loop (suc fuel) n c spool =
    let (chunk, ended, c') = read n c in
    elim ended [
      | more ↦ copy_loop fuel n c' (spool ++ chunk)
      | eof ↦ some (spool, none, c')
      | failed e ↦ some (spool, some e, c')
    ]

unfoldable pub sum_hex : (Bytes → Text) → ChecksummingReader → Text
sum_hex sha256_hex c = sha256_hex c.hashed
