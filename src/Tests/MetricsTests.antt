-- ===== src/Tests/MetricsTests.antt =====
-- Concrete requests and calls: internal/observability/metrics/collector.go.
use disbursment_api.Base.{◌+◌, ◌*◌, ◌%◌, ◌≤◌, ◌<◌, ◌≡◌, refl, [], ◌∷◌, length, count, inl, inr}
use disbursment_api.Base.Int.{pos, full_range}
use disbursment_api.Base.Text.{Text, runes, text_eq}
use disbursment_api.Metrics.Counters.{
  Counters, Call, looking, adding, allocate, turn, empty, Reach, made, call, move, value,
}
use disbursment_api.Metrics.Counters.Turning.{concerns}
use disbursment_api.Metrics.Counters.Lossless.{turn-Lossless}
use disbursment_api.Metrics.Labels.{fits, replace_ids, sanitize_path}
use disbursment_api.Metrics.Collector.{
  new_metrics_collector, http_handler, unauthorized, shown, Served, access_logs,
}
use disbursment_api.Metrics.Collector.Bounded.{access_logs-length}

abbrev won : Text
won = runes "granted"

-- Two calls for a key both look it up before it is there; the second finds it under the lock.
abbrev allocated : Counters
allocated = allocate won empty

two_calls : Reach allocated (adding won 0 ∷ adding won 0 ∷ []) (won ∷ won ∷ [])
unfolding turn allocate text_eq
two_calls = move (adding won 0 ∷ []) (Call.missing won) [] (
    move [] (Call.missing won) (Call.missing won ∷ []) (
      move (Call.missing won ∷ []) (looking won) []
        (move [] (looking won) (looking won ∷ []) (call won (call won made)))))

turn-Lossless_example :
    (value allocated won < full_range)
    × ((value allocated won + count (concerns won) (adding won 0 ∷ adding won 0 ∷ [])) % full_range
        ≡ count (text_eq won) (won ∷ won ∷ []) % full_range)
turn-Lossless_example = turn-Lossless won two_calls

abbrev listing : Served
listing = record {
  method = runes "GET";
  path = runes "/api/v1/disbursements";
  full_path = runes "/api/v1/disbursements";
  status = pos 200;
  latency_ms = pos 12;
}

abbrev lost : Served
lost = record listing { path = runes "/nowhere"; full_path = []; status = pos 404 }

abbrev scan : Served
scan = record lost { method = runes "PROPFIND"; path = runes "/elsewhere" }

access_logs-length_example :
    length (access_logs (listing ∷ lost ∷ scan ∷ []) new_metrics_collector).http_requests_total
    ≤ 50 * length (runes "/api/v1/disbursements" ∷ runes "unmatched" ∷ [])
access_logs-length_example =
    access_logs-length (runes "/api/v1/disbursements" ∷ runes "unmatched" ∷ [])
      (listing ∷ lost ∷ scan ∷ []) (inl refl, (inr (inl refl), (inr (inl refl), tt)))

-- A path without a pattern shows no UUID.
path_sanitized :
    sanitize_path (runes "/d/0A1b2c3d-0000-4000-8000-00000000000f/x") ≡ runes "/d/:id/x"
unfolding sanitize_path replace_ids fits
path_sanitized = refl

metrics_guarded :
    (http_handler (runes "token") (runes "tokem") new_metrics_collector ≡ unauthorized)
    × (http_handler (runes "token") (runes "token") new_metrics_collector
        ≡ shown new_metrics_collector)
unfolding http_handler text_eq
metrics_guarded = (refl, refl)
