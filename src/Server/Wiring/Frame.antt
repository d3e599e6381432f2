-- ===== src/Server/Wiring/Frame.antt =====
-- What each route of the server may change.
use tempcdn.Prelude.{◌≡◌, ◌∙◌, ◌⊎◌, inr, refl, arith}
use tempcdn.Text.{Text, lit}
use tempcdn.Admin.Handler.{State}
use tempcdn.Admin.Handler.Frame.{Keeps, all-Keeps}
use tempcdn.Http.Router.Table.Moves.{IsPreorder}
use tempcdn.Server.Shared.{ServerState, admin_part, with_admin_part}

-- The two routes that change what is stored.
abbrev pub IsUploadRoute : Text → Text → Type 0
IsUploadRoute method pattern = (method ≡ lit "POST") × (pattern ≡ lit "/api/v1/upload")

abbrev pub IsDeletionRoute : Text → Text → Type 0
IsDeletionRoute method pattern = (method ≡ lit "DELETE") × (pattern ≡ lit "/api/v1/files/{id}")

-- The routes that change a table of the administration but that of the sessions. A credential of the
-- metrics stamps its key.
abbrev pub IsLoginRoute : Text → Text → Type 0
IsLoginRoute method pattern = (method ≡ lit "POST") × (pattern ≡ lit "/api/v1/admin/login")

abbrev pub IsKeyRoute : Text → Text → Type 0
IsKeyRoute method pattern =
    ((method ≡ lit "POST") × (pattern ≡ lit "/api/v1/admin/api-keys"))
    ⊎ ((method ≡ lit "DELETE") × (pattern ≡ lit "/api/v1/admin/api-keys/{id}"))
    ⊎ (pattern ≡ lit "/metrics")

abbrev pub IsSettingsRoute : Text → Text → Type 0
IsSettingsRoute method pattern =
    (method ≡ lit "PUT") × (pattern ≡ lit "/api/v1/admin/upload-settings")

abbrev pub IsDocumentRoute : Text → Text → Type 0
IsDocumentRoute method pattern =
    (method ≡ lit "PUT")
    × ((pattern ≡ lit "/api/v1/admin/legal/terms") ⊎ (pattern ≡ lit "/api/v1/admin/legal/privacy"))

-- What a request may change of the tables of the administration and of the validator's rules.
abbrev pub AdminKeeps : Text → Text → State → State → Type 0
AdminKeeps method pattern =
    Keeps (IsLoginRoute method pattern) (IsKeyRoute method pattern) (IsSettingsRoute method pattern)
      (IsDocumentRoute method pattern) (IsSettingsRoute method pattern)

module _ {accounts keys settings documents rules : Type 0} where
  then-Keeps :
      (s t u : State)
      → Keeps accounts keys settings documents rules s t
      → Keeps accounts keys settings documents rules t u
      → Keeps accounts keys settings documents rules s u
  then-Keeps s t u h k = record {
    admins = ground (arith, h.admins, k.admins);
    api_keys = ground (arith, h.api_keys, k.api_keys);
    upload_settings = ground (arith, h.upload_settings, k.upload_settings);
    legal_documents = ground (arith, h.legal_documents, k.legal_documents);
    same_rules = ground (arith, h.same_rules, k.same_rules);
  }

module _ {S : Type 0} where
  abbrev pub SameContents : ServerState S → ServerState S → Type 0
  SameContents s t =
      (t.files.tables ≡ s.files.tables) × (t.storage ≡ s.storage) × (t.purges ≡ s.purges)

  abbrev pub SameCounters : ServerState S → ServerState S → Type 0
  SameCounters s t =
      (t.uploads_total ≡ s.uploads_total)
      × (t.upload_bytes_total ≡ s.upload_bytes_total)
      × (t.upload_errors_total ≡ s.upload_errors_total)

  -- What a request may change.
  pub record IsFramed (method pattern : Text) (s t : ServerState S) : Type 0 where
    pub limiter : t.limiter ≡ s.limiter
    pub nodes : t.nodes.tables ≡ s.nodes.tables
    pub contents : IsUploadRoute method pattern ⊎ IsDeletionRoute method pattern ⊎ SameContents s t
    pub counters : IsUploadRoute method pattern ⊎ SameCounters s t
    pub administration : AdminKeeps method pattern (admin_part s) (admin_part t)

  then_contents : (s t u : ServerState S) → SameContents s t → SameContents t u → SameContents s u
  then_contents s t u (a, b, c) (d, e, f) = (d ∙ a, e ∙ b, f ∙ c)

  then_counters : (s t u : ServerState S) → SameCounters s t → SameCounters t u → SameCounters s u
  then_counters s t u (a, b, c) (d, e, f) = (d ∙ a, e ∙ b, f ∙ c)

  pub frame-IsPreorder : (method pattern : Text) → IsPreorder (IsFramed method pattern)
  frame-IsPreorder method pattern = record {
    here = λ s. record {
      limiter = refl;
      nodes = refl;
      contents = inr (inr (refl, refl, refl));
      counters = inr (refl, refl, refl);
      administration = all-Keeps (admin_part s) (admin_part s) (refl, refl, refl, refl) refl;
    };
    then = λ s t u h k. record {
      limiter = k.limiter ∙ h.limiter;
      nodes = k.nodes ∙ h.nodes;
      contents = ground (arith, h.contents, k.contents, then_contents s t u);
      counters = ground (arith, h.counters, k.counters, then_counters s t u);
      administration =
          then-Keeps (admin_part s) (admin_part t) (admin_part u) h.administration k.administration;
    };
  }

  -- What works on the part of the administration.
  pub admin-IsFramed :
      (method pattern : Text) (s : ServerState S) (a : State)
      → AdminKeeps method pattern (admin_part s) a
      → IsFramed method pattern s (with_admin_part a s)
  admin-IsFramed method pattern s a k = record {
    limiter = refl;
    nodes = refl;
    contents = inr (inr (refl, refl, refl));
    counters = inr (refl, refl, refl);
    administration = k;
  }

  -- What changes at most the connections.
  pub still-IsFramed :
      (method pattern : Text) (s t : ServerState S)
      → t.limiter ≡ s.limiter
      → t.nodes.tables ≡ s.nodes.tables
      → SameContents s t
      → SameCounters s t
      → AdminKeeps method pattern (admin_part s) (admin_part t)
      → IsFramed method pattern s t
  still-IsFramed method pattern s t l n c k a = record {
    limiter = l;
    nodes = n;
    contents = inr (inr c);
    counters = inr k;
    administration = a;
  }
