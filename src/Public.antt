-- ===== src/Public.antt =====
-- The public endpoints that only read: internal/legal/handler.go, internal/stats/handler.go,
-- internal/nodestatus/handler.go and internal/upload/config_handler.go. A response holds times as
-- such; they are formatted outside, and so are the seconds since a heartbeat, which are a difference
-- of times here. What the registry of the counters gives is outside.
pub mod Documents
use tempcdn.Prelude.{ℕ, suc, ◌+◌, ◌*◌, ◌/◌, Option, none, some, List, [], ◌∷◌, ltb, if◌then◌else◌}
use tempcdn.Prelude.Int.{ℤ, pos, negsuc, sub_ℕ}
use tempcdn.Text.{Text, lit}
use tempcdn.Action.{Result, ok, err}
use tempcdn.Metadata.Model.{
  Time, LegalDocument, legal_document_not_found, legal_doc_terms, legal_doc_privacy, NodeState,
  NodeStatus, Error,
}
use tempcdn.Metadata.Tables.{AdminDb}
use tempcdn.Metadata.Legal.{get_legal_document}
use tempcdn.Metadata.Files.{FilesDb}
use tempcdn.Metadata.Nodes.{NodesDb, list_node_status}
use tempcdn.Metadata.Stats.{Stats, Counts, stats}
use tempcdn.Upload.Validator.{Rules}
use tempcdn.Http.{Request, Answer, Handler, Body, payload, json, error, returned}

pub record StatsResponse : Type 0 where
  pub active_file_count : ℕ
  pub active_bytes : ℕ
  pub average_file_bytes : ℕ
  pub content_type_breakdown : Counts
  pub lifetime_uploads_total : ℕ
  pub lifetime_upload_bytes_total : ℕ
  pub lifetime_upload_errors_total : ℕ
  pub generated_at : Time

pub record ConfigResponse : Type 0 where
  pub max_upload_size_bytes : ℤ
  pub max_upload_size_mb : ℤ
  pub allowed_mime_types : List Text
  pub blocked_extensions : List Text
  pub file_ttl_hours : ℤ

pub record NodeView : Type 0 where
  pub node_id : Text
  pub hostname : Text
  pub status : NodeState
  pub started_at : Time
  pub last_heartbeat_at : Time
  pub marked_offline_at : Option Time
  pub since_heartbeat : ℤ

pub data Reply : Type 0 where
  document : LegalDocument → Reply
  statistics : StatsResponse → Reply
  nodes : List NodeView → Time → Reply
  configuration : ConfigResponse → Reply

-- The response to each answer of `GetLegalDocument`.
unfoldable pub document_answer : Result Error LegalDocument → Answer (Body Reply)
document_answer (ok d) = returned (json 200 (payload (document d)))
document_answer (err legal_document_not_found) =
    returned (error 404 (lit "legal document not found"))
document_answer (err e) = returned (error 500 (lit "failed to get legal document"))

-- `serve` of internal/legal, for a type of document.
unfoldable pub serve_document : Text → Handler AdminDb (Body Reply)
unfolding document_answer
serve_document doc_type r c = let (a, d) = get_legal_document doc_type c in (document_answer a, d)

unfoldable pub serve_terms : Handler AdminDb (Body Reply)
unfolding serve_document
serve_terms = serve_document legal_doc_terms

unfoldable pub serve_privacy : Handler AdminDb (Body Reply)
unfolding serve_document
serve_privacy = serve_document legal_doc_privacy

abbrev pub failed_metrics : Answer (Body Reply)
failed_metrics = returned (error 500 (lit "failed to read upload metrics"))

-- What is done with the statistics and the readings of the three counters.
unfoldable pub stats_answer :
    Time → Result Error Stats → Option ℕ → Option ℕ → Option ℕ → Answer (Body Reply)
stats_answer now (err e) uploads bytes errors = returned (error 500 (lit "failed to compute stats"))
stats_answer now (ok s) none bytes errors = failed_metrics
stats_answer now (ok s) (some uploads) none errors = failed_metrics
stats_answer now (ok s) (some uploads) (some bytes) none = failed_metrics
stats_answer now (ok s) (some uploads) (some bytes) (some errors) = returned (
    json 200 (
      payload (
        statistics (record {
          active_file_count = s.active_file_count;
          active_bytes = s.active_bytes;
          average_file_bytes =
              if ltb 0 s.active_file_count then s.active_bytes / s.active_file_count else 0;
          content_type_breakdown = s.content_type_breakdown;
          lifetime_uploads_total = uploads;
          lifetime_upload_bytes_total = bytes;
          lifetime_upload_errors_total = errors;
          generated_at = now;
        }))))

-- `ServeHTTP` of internal/stats, with the readings of the counters.
unfoldable pub serve_stats : Option ℕ → Option ℕ → Option ℕ → Handler FilesDb (Body Reply)
unfolding stats_answer
serve_stats uploads bytes errors r c =
    let (a, d) = stats r.chance.now c in (stats_answer r.chance.later a uploads bytes errors, d)

abbrev pub view_of : Time → NodeStatus → NodeView
view_of now n = record {
  node_id = n.node_id;
  hostname = n.hostname;
  status = n.status;
  started_at = n.started_at;
  last_heartbeat_at = n.last_heartbeat_at;
  marked_offline_at = n.marked_offline_at;
  since_heartbeat = sub_ℕ now n.last_heartbeat_at;
}

-- The loop over the nodes.
unfoldable pub views : Time → List NodeStatus → List NodeView
views now [] = []
views now (n ∷ ns) = view_of now n ∷ views now ns

unfoldable pub nodes_answer : Time → Result Error (List NodeStatus) → Answer (Body Reply)
unfolding views
nodes_answer now (ok ns) = returned (json 200 (payload (nodes (views now ns) now)))
nodes_answer now (err e) = returned (error 500 (lit "failed to list node status"))

-- `ServeHTTP` of internal/nodestatus
unfoldable pub serve_nodes : Handler NodesDb (Body Reply)
unfolding nodes_answer
serve_nodes r c = let (a, d) = list_node_status c in (nodes_answer r.chance.now a, d)

-- Go's division, which truncates, by a positive number.
abbrev pub quotient : ℤ → ℕ → ℤ
quotient (pos n) d = pos (n / d)
quotient (negsuc n) d = sub_ℕ 0 (suc n / d)

-- `ServeHTTP` of `ConfigHandler`, over the rules that `Snapshot` reads.
unfoldable pub serve_config : ℤ → Handler Rules (Body Reply)
serve_config file_ttl_hours r rules = (
  returned (
      json 200 (
        payload (
          configuration (record {
            max_upload_size_bytes = rules.max_size_bytes;
            max_upload_size_mb = quotient rules.max_size_bytes (1024 * 1024);
            allowed_mime_types = rules.allowed_mime_types;
            blocked_extensions = rules.blocked_extensions;
            file_ttl_hours = file_ttl_hours;
          })))),
  rules,
)
