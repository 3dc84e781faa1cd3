-- ===== src/Metrics/Collector.antt =====
-- internal/observability/metrics/collector.go, and what internal/httpapi/middleware/access_log.go counts.
-- A call of incMapCounter is one step here.
pub mod Bounded
use disbursment_api.Base.{
  ℕ, suc, ◌+◌, ◌%◌, Bool, true, false, ◌||◌, Option, none, some, List, [], ◌∷◌, if◌then◌else◌,
}
use disbursment_api.Base.Int.{ℤ, pos, full_range, pos_part, ltb_ℤ}
use disbursment_api.Base.Text.{Text, runes, is_empty, text_eq}
use disbursment_api.Metrics.Labels.{normalize_method, sanitize_path, http_status_string, label}

-- A map of counters.
abbrev pub Tally : Type 0
Tally = List (Text × ℕ)

unfoldable pub increment : Text → Tally → Tally
increment k [] = (k, 1) ∷ []
increment k ((j, n) ∷ tally) =
    let rest = increment k tally in
    if text_eq j k then (j, (n + 1) % full_range) ∷ tally else (j, n) ∷ rest

pub record MetricsCollector : Type 0 where
  pub http_requests_total : Tally
  pub http_duration_ms_total : ℕ
  pub http_duration_ms_count : ℕ
  pub idempotency_claims_total : Tally
  pub finalizations_total : Tally
  pub auth_failures_total : Tally
  pub rate_limiter_evictions_total : ℕ
  pub outbox_backlog_depth : ℤ
  pub outbox_deliveries_total : ℕ
  pub outbox_delivery_failures : ℕ
  pub outbox_reconcile_warning : ℤ
  pub outbox_reconcile_critical : ℤ
  pub db_connections_open : ℤ
  pub db_connections_in_use : ℤ
  pub db_connections_idle : ℤ

abbrev pub new_metrics_collector : MetricsCollector
new_metrics_collector = record {
  http_requests_total = [];
  http_duration_ms_total = 0;
  http_duration_ms_count = 0;
  idempotency_claims_total = [];
  finalizations_total = [];
  auth_failures_total = [];
  rate_limiter_evictions_total = 0;
  outbox_backlog_depth = pos 0;
  outbox_deliveries_total = 0;
  outbox_delivery_failures = 0;
  outbox_reconcile_warning = pos 0;
  outbox_reconcile_critical = pos 0;
  db_connections_open = pos 0;
  db_connections_in_use = pos 0;
  db_connections_idle = pos 0;
}

abbrev pub add : ℕ → ℕ → ℕ
add n counter = (counter + n) % full_range

unfoldable pub record_http_request : Text → Text → ℤ → ℤ → MetricsCollector → MetricsCollector
unfolding increment normalize_method sanitize_path http_status_string
record_http_request method path status duration_ms c = record c {
  http_requests_total =
      increment (label (normalize_method method) (sanitize_path path) (http_status_string status))
        c.http_requests_total;
  http_duration_ms_total =
      if ltb_ℤ (pos 0) duration_ms
      then add (pos_part duration_ms) c.http_duration_ms_total
      else c.http_duration_ms_total;
  http_duration_ms_count = add 1 c.http_duration_ms_count;
}

unfoldable pub record_idempotency_claim : Text → MetricsCollector → MetricsCollector
record_idempotency_claim result c = record c {
  idempotency_claims_total = increment result c.idempotency_claims_total;
}

unfoldable pub record_finalization_outcome : Text → MetricsCollector → MetricsCollector
record_finalization_outcome outcome c = record c {
  finalizations_total = increment outcome c.finalizations_total;
}

unfoldable pub record_auth_failure : Text → MetricsCollector → MetricsCollector
record_auth_failure reason c = record c {
  auth_failures_total = increment reason c.auth_failures_total;
}

unfoldable pub record_rate_limiter_eviction : MetricsCollector → MetricsCollector
record_rate_limiter_eviction c = record c {
  rate_limiter_evictions_total = add 1 c.rate_limiter_evictions_total;
}

unfoldable pub record_delivery_success : MetricsCollector → MetricsCollector
record_delivery_success c = record c { outbox_deliveries_total = add 1 c.outbox_deliveries_total }

unfoldable pub record_delivery_failure : MetricsCollector → MetricsCollector
record_delivery_failure c = record c { outbox_delivery_failures = add 1 c.outbox_delivery_failures }

unfoldable pub set_backlog_depth : ℤ → MetricsCollector → MetricsCollector
set_backlog_depth depth c = record c { outbox_backlog_depth = depth }

unfoldable pub set_reconciliation_counts : ℤ → ℤ → MetricsCollector → MetricsCollector
set_reconciliation_counts warning critical c = record c {
  outbox_reconcile_warning = warning;
  outbox_reconcile_critical = critical;
}

unfoldable pub update_db_stats : ℤ → ℤ → ℤ → MetricsCollector → MetricsCollector
update_db_stats opened in_use idle c = record c {
  db_connections_open = opened;
  db_connections_in_use = in_use;
  db_connections_idle = idle;
}

-- What the handler of the metrics answers with: 503, 401, or the metrics.
pub data MetricsReply : Type 0 where
  not_configured unauthorized : MetricsReply
  shown : MetricsCollector → MetricsReply

-- `HTTPHandler` with its token and the header X-Metrics-Token. The average duration of the snapshot is
-- the quotient of its two fields.
unfoldable pub http_handler : Text → Text → MetricsCollector → MetricsReply
http_handler metrics_token given c =
    if is_empty metrics_token
    then not_configured
    else if is_empty given
    then unauthorized
    else if text_eq given metrics_token
    then shown c
    else unauthorized

-- A request that has been answered, as `AccessLog` sees it; the pattern is empty where no route is.
pub record Served : Type 0 where
  pub method : Text
  pub path : Text
  pub full_path : Text
  pub status : ℤ
  pub latency_ms : ℤ

abbrev pub is_probe : Text → Bool
is_probe path = text_eq path (runes "/healthz") || text_eq path (runes "/readyz")

abbrev pub metric_path : Text → Text
metric_path full_path = if is_empty full_path then runes "unmatched" else full_path

unfoldable pub access_log : Served → MetricsCollector → MetricsCollector
unfolding record_http_request
access_log r c =
    if is_probe r.path
    then c
    else record_http_request r.method (metric_path r.full_path) r.status r.latency_ms c

unfoldable pub access_logs : List Served → MetricsCollector → MetricsCollector
unfolding access_log
access_logs [] c = c
access_logs (r ∷ rs) c = access_logs rs (access_log r c)
