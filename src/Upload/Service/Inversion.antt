-- ===== src/Upload/Service/Inversion.antt =====
-- The two tests in front of an upload, taken apart.
use tempcdn.Prelude.{ℕ, suc, ◌≡◌, List, length, arith}
use tempcdn.Prelude.Int.{pos, eqb_ℤ→eq}
use tempcdn.Text.{Text}
use tempcdn.Action.{ok}
use tempcdn.Storage.{Bytes}
use tempcdn.Upload.Checksum.{Reader, ChecksummingReader, sum_hex}
use tempcdn.Upload.Checksum.Copies.{copy_checksum}
use tempcdn.Upload.Service.{Platform, Service, Chance, Input, spool_content, spool_input}

-- The copy holds the whole content, with its checksum.
pub spool_content_lem :
    (hash : List ℕ → Text) (r : Reader)
    → (c : ChecksummingReader) × (spool_content r ≡ (r.rest, r.fails, c))
      × (sum_hex hash c ≡ hash r.rest)
unfolding spool_content
spool_content_lem hash r =
    let (c, e, f) = copy_checksum hash (suc (length r.rest)) 32768 r (omega arith) (omega arith) in
    (c, rw (e, spool_content), f)

module _ {S : Type 0} (p : Platform S) (s : Service) (chance : Chance) (input : Input) where
  -- What reaches the lookup by checksum is the content of the request, whole, with its checksum and
  -- of the size that the form reported.
  pub spool_input-eq-ok :
      (b : Bytes) (checksum : Text)
      → spool_input p s chance input ≡ ok (b, checksum)
      → (b ≡ input.content.rest) × (checksum ≡ p.sha256_hex b) × (pos (length b) ≡ input.size_bytes)
  unfolding spool_input
  spool_input-eq-ok b checksum h =
      let (c, e, f) = spool_content_lem p.sha256_hex input.content in
      ground (arith, e, f, eqb_ℤ→eq (pos (length input.content.rest)) input.size_bytes)
