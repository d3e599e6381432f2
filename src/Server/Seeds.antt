-- ===== src/Server/Seeds.antt =====
-- What each of the calls ensures that prepare the tables of the administration.
use tempcdn.Prelude.{
  ◌≡◌, ◌≢◌, ap, ◌∙◌, sym, Bool, true, Option, some, none, List, [], ◌∷◌, ◌++◌, ℕ, length, ◌||◌, ◌⊎◌,
  ltb, if◌then◌else◌, any, arith, inl, inr, Bool-cases,
}
use tempcdn.Text.{Text, same}
use tempcdn.Text.Laws.{same_refl}
use tempcdn.Action.{Result, ok, err, Action, pure, wrap}
use tempcdn.Action.Keeps.{bind-eq-ok, bind_of_ok, wrap-eq-ok}
use tempcdn.Metadata.Model.{
  Time, Admin, UploadSettings, LegalDocument, Error, admin_username_taken, legal_doc_terms,
  legal_doc_privacy,
}
use tempcdn.Metadata.Tables.{AdminDb}
use tempcdn.Metadata.Admins.{stored_admin, count_admins, insert_admin}
use tempcdn.Metadata.Settings.{get_upload_settings, seed_upload_settings_if_missing}
use tempcdn.Metadata.Legal.{stored_document, has_type, seed_legal_document_if_missing}
use tempcdn.Admin.Model.{AdminError, repository}
use tempcdn.Admin.Bootstrap.{
  BootstrapConfig, UploadSettingsDefaults, bootstrap, bootstrap_empty, insert_first_admin,
  after_admin_insert, first_admin, default_terms_content, default_privacy_content,
  seed_upload_settings, seed_legal_documents,
}

count_admins-eq-ok :
    (c : AdminDb) (n : ℕ)
    → (count_admins c).0 ≡ ok n
    → (n ≡ length c.tables.admins) × ((count_admins c).1.tables ≡ c.tables)
unfolding count_admins
count_admins-eq-ok c n h = ground arith

append-ne-nil : (rows : List Admin) (a : Admin) → rows ++ a ∷ [] ≢ []
append-ne-nil [] a h = ground arith
append-ne-nil (r ∷ rows) a h = ground arith

any-ne-nil : (p : Admin → Bool) (rows : List Admin) → any p rows ≡ true → rows ≢ []
any-ne-nil p [] h = ground arith
any-ne-nil p (r ∷ rows) h = ground arith

-- The account is there, inserted or not.
insert_admin-ne-nil :
    (a : Admin) (c : AdminDb)
    → ((insert_admin a c).0 ≡ ok tt) ⊎ ((insert_admin a c).0 ≡ err admin_username_taken)
    → (insert_admin a c).1.tables.admins ≢ []
unfolding insert_admin
insert_admin-ne-nil a c h = ground (
  arith,
  any-ne-nil (λ b. same b.id a.id || same b.username a.username) c.tables.admins,
  append-ne-nil c.tables.admins (stored_admin a),
)

after_admin_insert-eq-ok :
    (r : Result Error (Unit {0})) (c : AdminDb)
    → (after_admin_insert r c).0 ≡ ok tt
    → ((r ≡ ok tt) ⊎ (r ≡ err admin_username_taken)) × ((after_admin_insert r c).1 ≡ c)
unfolding after_admin_insert
after_admin_insert-eq-ok r c h = ground arith

insert_first_admin-eq-ok :
    (id : Text) (cfg : BootstrapConfig) (o : Option Text) (now : Time) (c : AdminDb)
    → (insert_first_admin id cfg o now c).0 ≡ ok tt
    → (insert_first_admin id cfg o now c).1.tables.admins ≢ []
unfolding insert_first_admin
insert_first_admin-eq-ok id cfg none now c h = absurd (ground arith)
insert_first_admin-eq-ok id cfg (some password_hash) now c h =
    let a : Admin = first_admin id cfg password_hash now in
    let (r, same_state) = after_admin_insert-eq-ok (insert_admin a c).0 (insert_admin a c).1 h in
    rw same_state (insert_admin-ne-nil a c r)

bootstrap_empty-eq-ok :
    (g : Text → Option Text) (cfg : BootstrapConfig) (id : Text) (now : Time) (c : AdminDb)
    → (bootstrap_empty g cfg id now c).0 ≡ ok tt
    → (bootstrap_empty g cfg id now c).1.tables.admins ≢ []
unfolding bootstrap_empty
bootstrap_empty-eq-ok g cfg id now c h =
    ground (arith, insert_first_admin-eq-ok id cfg (g cfg.password) now c)

length-ne-nil : (rows : List Admin) → ltb 0 (length rows) ≡ true → rows ≢ []
length-ne-nil [] h = ground arith
length-ne-nil (r ∷ rows) h = ground arith

after_count :
    (g : Text → Option Text) (cfg : BootstrapConfig) (id : Text) (now : Time) (n : ℕ) (c : AdminDb)
    → n ≡ length c.tables.admins
    → ((if ltb 0 n then pure tt else bootstrap_empty g cfg id now) c).0 ≡ ok tt
    → ((if ltb 0 n then pure tt else bootstrap_empty g cfg id now) c).1.tables.admins ≢ []
after_count g cfg id now n c e h = elim (Bool-cases (ltb 0 n)) [
  | inl t ↦ rw t (length-ne-nil c.tables.admins (rw e at t))
  | inr f ↦ rw f (bootstrap_empty-eq-ok g cfg id now c (rw f at h))
]

pub bootstrap-eq-ok :
    (g : Text → Option Text) (cfg : BootstrapConfig) (id : Text) (now : Time) (c : AdminDb)
    → (bootstrap g cfg id now c).0 ≡ ok tt
    → (bootstrap g cfg id now c).1.tables.admins ≢ []
unfolding bootstrap
bootstrap-eq-ok g cfg id now c h =
    let m : Action AdminDb AdminError ℕ = wrap repository count_admins in
    let f : ℕ → Action AdminDb AdminError (Unit {0}) =
      λ n. if ltb 0 n then pure tt else bootstrap_empty g cfg id now in
    let (n, e, rest) = bind-eq-ok m f c tt h in
    let (len, same_tables) = count_admins-eq-ok c n (wrap-eq-ok repository count_admins c n e) in
    rw (bind_of_ok m f c n e) (
      after_count g cfg id now n (count_admins c).1
        (len ∙ ap (λ t. length t.admins) (sym same_tables)) rest)

pub seed_upload_settings-eq-ok :
    (d : UploadSettingsDefaults) (now : Time) (c : AdminDb)
    → (seed_upload_settings d now c).0 ≡ ok tt
    → (seed_upload_settings d now c).1.tables.admins ≡ c.tables.admins
unfolding seed_upload_settings seed_upload_settings_if_missing
seed_upload_settings-eq-ok d now c h = ground arith

pub get_upload_settings-eq-ok :
    (c : AdminDb) (u : UploadSettings)
    → (get_upload_settings c).0 ≡ ok u
    → ((get_upload_settings c).1.tables ≡ c.tables) × (c.tables.upload_settings ≡ some u)
unfolding get_upload_settings
get_upload_settings-eq-ok c u h = ground arith

any-append_first :
    (p : LegalDocument → Bool) (rows : List LegalDocument) (d : LegalDocument)
    → any p rows ≡ true
    → any p (rows ++ d ∷ []) ≡ true
any-append_first p [] d h = absurd (ground arith)
any-append_first p (r ∷ rows) d h = ground (arith, any-append_first p rows d)

any-append_last :
    (p : LegalDocument → Bool) (rows : List LegalDocument) (d : LegalDocument)
    → p d ≡ true
    → any p (rows ++ d ∷ []) ≡ true
any-append_last p [] d h = ground arith
any-append_last p (r ∷ rows) d h = ground (arith, any-append_last p rows d h)

seed_legal_document_if_missing-eq-ok :
    (d : LegalDocument) (c : AdminDb)
    → (seed_legal_document_if_missing d c).0 ≡ ok tt
    → ((seed_legal_document_if_missing d c).1.tables.admins ≡ c.tables.admins)
      × ((seed_legal_document_if_missing d c).1.tables.upload_settings ≡ c.tables.upload_settings)
      × (any (has_type d.doc_type) (seed_legal_document_if_missing d c).1.tables.legal_documents
          ≡ true)
unfolding seed_legal_document_if_missing
seed_legal_document_if_missing-eq-ok d c h = ground (
  arith,
  any-append_last (has_type d.doc_type) c.tables.legal_documents (stored_document d)
      (same_refl d.doc_type),
)

seed_legal_document_if_missing-keeps :
    (d : LegalDocument) (p : LegalDocument → Bool) (c : AdminDb)
    → any p c.tables.legal_documents ≡ true
    → any p (seed_legal_document_if_missing d c).1.tables.legal_documents ≡ true
unfolding seed_legal_document_if_missing
seed_legal_document_if_missing-keeps d p c h =
    ground (arith, any-append_first p c.tables.legal_documents (stored_document d) h)

-- What the seeding of the documents ensures, and what it keeps.
pub record IsSeeded (c d : AdminDb) : Type 0 where
  pub admins : d.tables.admins ≡ c.tables.admins
  pub settings : d.tables.upload_settings ≡ c.tables.upload_settings
  pub terms : any (has_type legal_doc_terms) d.tables.legal_documents ≡ true
  pub privacy : any (has_type legal_doc_privacy) d.tables.legal_documents ≡ true

pub seed_legal_documents-eq-ok :
    (now : Time) (c : AdminDb)
    → (seed_legal_documents now c).0 ≡ ok tt
    → IsSeeded c (seed_legal_documents now c).1
unfolding seed_legal_documents
seed_legal_documents-eq-ok now c h =
    let terms : LegalDocument = record {
      doc_type = legal_doc_terms;
      content = default_terms_content;
      updated_at = now;
      updated_by = none;
    } in
    let privacy : LegalDocument = record {
      doc_type = legal_doc_privacy;
      content = default_privacy_content;
      updated_at = now;
      updated_by = none;
    } in
    let m : Action AdminDb AdminError (Unit {0}) =
      wrap repository (seed_legal_document_if_missing terms) in
    let n : Action AdminDb AdminError (Unit {0}) =
      wrap repository (seed_legal_document_if_missing privacy) in
    let (u, e, rest) = bind-eq-ok m (λ _. n) c tt h in
    let (a, b, t) =
      seed_legal_document_if_missing-eq-ok terms c
        (wrap-eq-ok repository (seed_legal_document_if_missing terms) c tt e) in
    let d : AdminDb = (seed_legal_document_if_missing terms c).1 in
    let (a', b', t') =
      seed_legal_document_if_missing-eq-ok privacy d
        (wrap-eq-ok repository (seed_legal_document_if_missing privacy) d tt rest) in
    rw (bind_of_ok m (λ _. n) c tt e) (record {
      admins = a' ∙ a;
      settings = b' ∙ b;
      terms = seed_legal_document_if_missing-keeps privacy (has_type legal_doc_terms) d t;
      privacy = t';
    })
