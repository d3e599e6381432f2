-- ===== src/Upload/Synchronizer/Agrees.antt =====
-- That the validators of all instances follow the settings that an admin stores.
use tempcdn.Prelude.{
  ℕ, ◌*◌, ◌≤◌, ◌≡◌, ◌∙◌, ap, refl, true, ◌&&◌, some, List, [], ◌∷◌, arith, inl, inr, Bool-cases,
}
use tempcdn.Prelude.Int.{ℤ, pos, ◌≤ℤ◌, eqb_ℤ, eqb_ℤ→eq, mul64, negsuc, wrap64-pos}
use tempcdn.Text.{Text}
use tempcdn.Text.Laws.{same_iff}
use tempcdn.Action.{ok}
use tempcdn.Metadata.Model.{Time, UploadSettings, stored_settings}
use tempcdn.Metadata.Tables.{AdminDb}
use tempcdn.Metadata.Settings.{get_upload_settings}
use tempcdn.Metadata.Admins.Effects.{Working}
use tempcdn.Admin.Settings.{UpdateUploadSettingsInput, normalize_string_list, update_settings}
use tempcdn.Admin.Settings.Valid.{update_settings-eq-ok}
use tempcdn.Upload.Validator.{Rules}
use tempcdn.Upload.Synchronizer.{same_texts, size_in_bytes, after_settings, sync_once}

same_texts→eq : (ss ts : List Text) → same_texts ss ts ≡ true → ss ≡ ts
unfolding same_texts
same_texts→eq [] [] h = refl
same_texts→eq [] (t ∷ ts) h = absurd (ground arith)
same_texts→eq (s ∷ ss) [] h = absurd (ground arith)
same_texts→eq (s ∷ ss) (t ∷ ts) h =
    let e = (same_iff s t).0 (ground arith) in
    let f = same_texts→eq ss ts (ground arith) in rw (e, f) refl

-- The rules that the settings stand for.
abbrev pub rules_of : UploadSettings → Rules
rules_of s = record {
  max_size_bytes = size_in_bytes s;
  allowed_mime_types = s.allowed_mime_types;
  blocked_extensions = s.blocked_extensions;
}

pub after_settings_lem : (s : UploadSettings) (r : Rules) → after_settings (ok s) r ≡ rules_of s
unfolding after_settings
after_settings_lem s r =
    elim (Bool-cases (
      eqb_ℤ (size_in_bytes s) r.max_size_bytes
      && same_texts r.allowed_mime_types s.allowed_mime_types
      && same_texts r.blocked_extensions s.blocked_extensions)) [
        | inl e ↦
            let a = eqb_ℤ→eq (size_in_bytes s) r.max_size_bytes (ground arith) in
            let b = same_texts→eq r.allowed_mime_types s.allowed_mime_types (ground arith) in
            let d = same_texts→eq r.blocked_extensions s.blocked_extensions (ground arith) in
            rw e (same_rules a b d)
        | inr e ↦ rw e refl
      ]
  where
    same_rules :
        size_in_bytes s ≡ r.max_size_bytes
        → r.allowed_mime_types ≡ s.allowed_mime_types
        → r.blocked_extensions ≡ s.blocked_extensions
        → r ≡ rules_of s
    same_rules a b d = cc (a, b, d)

get_upload_settings_of_some :
    (c : AdminDb) (s : UploadSettings)
    → Working c
    → c.tables.upload_settings ≡ some s
    → (get_upload_settings c).0 ≡ ok s
unfolding get_upload_settings
get_upload_settings_of_some c s w e = ground arith

-- With a working database and settings in the table, a tick leaves exactly the rules that the settings
-- stand for, whatever the rules were.
pub sync_once-rules :
    (c : AdminDb) (s : UploadSettings) (r : Rules)
    → Working c
    → c.tables.upload_settings ≡ some s
    → (sync_once c r).0 ≡ rules_of s
unfolding sync_once
sync_once-rules c s r w e = rw (get_upload_settings_of_some c s w e) (after_settings_lem s r)

pub size_in_bytes-pos : (n : ℕ) → n ≤ 10240 → mul64 (mul64 (pos n) 1024) 1024 ≡ pos (n * 1048576)
size_in_bytes-pos n h =
    ap (λ z. mul64 z 1024) (wrap64-pos (n * 1024) (omega arith))
    ∙ wrap64-pos (n * 1024 * 1024) (omega arith)
    ∙ ap pos (omega arith)

-- An update of the settings that succeeds reaches every instance with its next tick: over a working
-- database that holds the table as the update left it, the validator then has the normalized lists,
-- and as the limit the exact number of bytes of a positive number of megabytes, whatever its rules
-- were. The multiplications do not overflow.
pub sync_once_of_update :
    (admin_id : Text) (i : UpdateUploadSettingsInput) (now : Time) (c d : AdminDb)
    (s : UploadSettings) (r : Rules)
    → (update_settings admin_id i now c).0 ≡ ok s
    → Working d
    → d.tables.upload_settings ≡ (update_settings admin_id i now c).1.tables.upload_settings
    → (n : ℕ) × (1 ≤ n)
      × (i.max_upload_size_mb ≡ pos n)
      × ((sync_once d r).0 ≡ record {
        max_size_bytes = pos (n * 1048576);
        allowed_mime_types = normalize_string_list i.allowed_mime_types;
        blocked_extensions = normalize_string_list i.blocked_extensions;
      })
sync_once_of_update admin_id i now c d s r h w e =
    let (sound, same_settings, stored) = update_settings-eq-ok admin_id i now c s h in
    let (n, low, high, same_size) = megabytes i.max_upload_size_mb sound.positive sound.bounded in
    (
      n,
      low,
      same_size,
      sync_once-rules d (stored_settings s) r w (e ∙ stored)
          ∙ rw (same_settings, same_size, size_in_bytes-pos n high) refl,
    )
  where
    megabytes :
        (z : ℤ) → pos 1 ≤ℤ z → z ≤ℤ pos 10240 → (n : ℕ) × (1 ≤ n) × (n ≤ 10240) × (z ≡ pos n)
    megabytes (pos n) a b = (n, omega arith, omega arith, refl)
    megabytes (negsuc n) a b = absurd (omega arith)
