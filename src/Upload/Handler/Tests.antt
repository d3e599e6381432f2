-- ===== src/Upload/Handler/Tests.antt =====
-- An upload request at a limiter of one.
use tempcdn.Prelude.{
  ℕ, ◌+◌, ◌<◌, ◌≤◌, ◌≡◌, ◌⊎◌, ◌↔◌, true, none, some, [], ◌∷◌, leb, if◌then◌else◌, ◌&&◌,
}
use tempcdn.Prelude.Int.{ℤ, pos}
use tempcdn.Text.{Text, lit}
use tempcdn.Storage.Memory.{Memory, memory_storage}
use tempcdn.Metadata.Model.{Time}
use tempcdn.Upload.Validator.{Rules}
use tempcdn.Upload.Service.{Platform, Service, Chance, World}
use tempcdn.Upload.Handler.{Form, form_file, UploadState, serve_http}
use tempcdn.Upload.Handler.Counts.{IsCounted, serve_http-IsCounted, serve_http-limiter}

abbrev ascii_lower : ℕ → ℕ
ascii_lower c = if leb b'A' c && leb c b'Z' then c + 32 else c

abbrev platform : Platform Memory
platform = record {
  sha256_hex = λ b. b'#' ∷ b;
  lower = ascii_lower;
  detect_content_type = λ b. lit "text/plain; charset=utf-8";
  date = λ t. record { year = 2026; month = 8; day = 10 };
  objects = memory_storage;
}

abbrev service : Service
service = record { file_ttl = pos 100000; public_base_url = lit "https://cdn" }

abbrev rules : Rules
rules = record {
  max_size_bytes = pos 10;
  allowed_mime_types = lit "image/*" ∷ lit "text/plain" ∷ [];
  blocked_extensions = lit ".exe" ∷ [];
}

abbrev chance_at : Time → Text → Chance
chance_at now id = record {
  size_rules = rules;
  extension_rules = rules;
  type_rules = rules;
  temp_file_created = true;
  temp_file_written = true;
  temp_file_rewound = true;
  now = now;
  file_id = id;
  delete_token = some (lit "t0");
}

abbrev empty_world : World Memory
empty_world = record { files = record { tables = []; outcomes = [] }; storage = λ k. none }

abbrev two_bytes : ℤ → Form
two_bytes limit = form_file (lit "a.txt") (pos 2) (record { rest = lit "hi"; fails = none })

abbrev idle : UploadState Memory
idle = record {
  world = empty_world;
  limiter = record { held = 0; capacity = 1 };
  uploads_total = 0;
  upload_bytes_total = 0;
  upload_errors_total = 0;
}

serve_http-IsCounted_example :
    IsCounted idle
      (serve_http platform service (chance_at 50 (lit "id1")) rules (lit "ip") two_bytes idle)
serve_http-IsCounted_example =
    serve_http-IsCounted platform service (chance_at 50 (lit "id1")) rules (lit "ip") two_bytes idle

abbrev after_one : UploadState Memory
after_one =
    (serve_http platform service (chance_at 50 (lit "id1")) rules (lit "ip") two_bytes idle).1

serve_http-limiter_example :
    (after_one.limiter ≡ idle.limiter)
    × (((serve_http platform service
            (chance_at 50 (lit "id1"))
            rules
            (lit "ip")
            two_bytes
            idle).0.status
          ≡ 503)
        ↔ (idle.limiter.capacity ≤ idle.limiter.held))
    × ((idle.limiter.held < idle.limiter.capacity) ⊎ (after_one ≡ idle))
serve_http-limiter_example =
    serve_http-limiter platform service (chance_at 50 (lit "id1")) rules (lit "ip") two_bytes idle
