-- ===== src/Sweeper/Tests.antt =====
-- A pass over a table of one expired and one live row.
use tempcdn.Prelude.{
  ◌≡◌, ◌≢◌, ◌≤◌, ◌<◌, sym, ap, ◌∙◌, inl, inr, refl, Bool, true, false, none, some, [], ◌∷◌, arith,
  In,
}
use tempcdn.Text.{Text, lit, same}
use tempcdn.Text.Laws.{same_iff}
use tempcdn.Storage.Memory.{Memory, memory_storage, delete_memory}
use tempcdn.Metadata.Model.{Time, FileRecord}
use tempcdn.Metadata.Files.{find_expired, expired_rows, delete_by_id}
use tempcdn.File.Service.{Platform, World}
use tempcdn.Sweeper.{
  run_passes, sweep_once, after_search, sweep_loop, sweep_one, after_object, after_row, purge_all,
}
use tempcdn.Sweeper.Rows.{IsKeyed, sweep_once-keeps}
use tempcdn.Sweeper.Counts.{expired_count}
use tempcdn.Sweeper.Drain.{IsLater, run_passes-drains}
use tempcdn.Sweeper.Objects.{IsAccountedFor, sweep_once-accounts}

sweeps : Unit {0}
unfolding sweep_once after_search sweep_loop sweep_one after_object after_row purge_all find_expired
    expired_rows delete_by_id same delete_memory
sweeps = tt

abbrev platform : Platform Memory
platform = record {
  sha256_hex = λ b. b'#' ∷ b;
  objects = memory_storage;
  cache_purge_on = true;
  has_purger = true;
}

abbrev row : Text → Time → FileRecord
row id expiry = record {
  id = id;
  original_name = lit "a.txt";
  content_type = lit "text/plain";
  size_bytes = 2;
  checksum_sha256 = lit "#hi";
  object_key = id;
  cdn_url = id;
  uploader_ip_hash = [];
  delete_token_hash = lit "#t";
  created_at = 0;
  expires_at = expiry;
}

abbrev old : FileRecord
old = row (lit "old") 10

abbrev live : FileRecord
live = row (lit "new") 90

abbrev world : World Memory
world = record {
  files = record { tables = old ∷ live ∷ []; outcomes = [] };
  storage = λ k. some (lit "hi");
  purges = [];
}

abbrev none_locked : FileRecord → Bool
none_locked r = false

swept_rows : (sweep_once platform none_locked 50 world).files.tables ≡ live ∷ []
unfolding sweeps
swept_rows = refl

swept_purges : (sweep_once platform none_locked 50 world).purges ≡ (lit "old" ∷ []) ∷ []
unfolding sweeps
swept_purges = refl

ids_differ : old.id ≢ live.id
unfolding sweeps
ids_differ e =
    let t : same old.id live.id ≡ true = (same_iff old.id live.id).1 e in absurd (ground (arith, t))

world-IsKeyed : IsKeyed (old ∷ live ∷ [])
world-IsKeyed q r (inl a) (inl b) e = a ∙ sym b
world-IsKeyed q r (inl a) (inr (inl b)) e =
    absurd (ids_differ (ap (λ x. x.id) (sym a) ∙ e ∙ ap (λ x. x.id) b))
world-IsKeyed q r (inr (inl a)) (inl b) e =
    absurd (ids_differ (ap (λ x. x.id) (sym b) ∙ sym e ∙ ap (λ x. x.id) a))
world-IsKeyed q r (inr (inl a)) (inr (inl b)) e = a ∙ sym b
world-IsKeyed q r (inl a) (inr (inr b)) e = absurd b
world-IsKeyed q r (inr (inl a)) (inr (inr b)) e = absurd b
world-IsKeyed q r (inr (inr a)) i e = absurd a

sweep_once-keeps_example : In live (sweep_once platform none_locked 50 world).files.tables
sweep_once-keeps_example =
    sweep_once-keeps platform none_locked 50 world live world-IsKeyed (inr (inl refl)) (omega arith)

sweep_once-accounts_example : IsAccountedFor platform (sweep_once platform none_locked 50 world) old
sweep_once-accounts_example =
    sweep_once-accounts platform none_locked 50 world old world-IsKeyed (inl refl)

deletes_all : (k : Text) (s : Memory) → (platform.objects.delete_object k s).0 ≡ none
unfolding delete_memory
deletes_all k s = refl

later : IsLater 50 ((none_locked, 50) ∷ [])
later = (((λ r. refl), omega arith), tt)

enough : expired_count 50 world.files.tables ≤ 1
enough = omega arith

live_left : In live (run_passes platform ((none_locked, 50) ∷ []) world).files.tables
unfolding run_passes
live_left = sweep_once-keeps_example

run_passes-drains_example : 50 < 90
run_passes-drains_example =
    run_passes-drains platform deletes_all 50 ((none_locked, 50) ∷ []) world live tt later enough
      live_left
