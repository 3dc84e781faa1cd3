-- ===== src/Metrics/Collector/Bounded.antt =====
-- internal/observability/metrics/collector.go and internal/httpapi/middleware/access_log.go: how many
-- counters of requests there can be.
use disbursment_api.Base.{
  suc, ◌*◌, ◌≤◌, ◌≡◌, refl, ap, Bool, true, false, ◌⊎◌, inl, inr, List, [], ◌∷◌, map, length, All,
  arith, Bool-cases, if◌then◌else◌,
}
use disbursment_api.Base.Int.{ℤ}
use disbursment_api.Base.Text.{Text, runes, text_eq, text_eq-same}
use disbursment_api.Base.Distinct.{
  In, Distinct, Distinct-length, In-map, length-map, products, In-products, length-products,
}
use disbursment_api.Metrics.Labels.{
  methods, one_of, normalize_method, sanitize_path, http_status_string, label,
}
use disbursment_api.Metrics.Collector.{
  Tally, increment, MetricsCollector, new_metrics_collector, record_http_request, Served, is_probe,
  metric_path, access_log, access_logs,
}

abbrev pub keys : Tally → List Text
keys [] = []
keys ((k, n) ∷ tally) = k ∷ keys tally

length-keys : (t : Tally) → length (keys t) ≡ length t
length-keys [] = refl
length-keys ((k, n) ∷ t) = ap suc (length-keys t)

In-increment : (k j : Text) (t : Tally) → In j (keys (increment k t)) → (j ≡ k) ⊎ In j (keys t)
unfolding increment
In-increment k j [] (inl e) = inl e
In-increment k j [] (inr h) = absurd h
In-increment k j ((i, n) ∷ t) h = elim (Bool-cases (text_eq i k)) [
  | inl same ↦ inr (rw same at h)
  | inr other ↦
      let there : (j ≡ i) ⊎ In j (keys (increment k t)) = rw other at h in
      elim there [
        | inl e ↦ inr (inl e)
        | inr deep ↦ elim (In-increment k j t deep) [ inl e ↦ inl e | inr old ↦ inr (inr old) ]
      ]
]

increment-Distinct : (k : Text) (t : Tally) → Distinct (keys t) → Distinct (keys (increment k t))
unfolding increment
increment-Distinct k [] d = ((λ h. h), tt)
increment-Distinct k ((i, n) ∷ t) (new, d) = elim (Bool-cases (text_eq i k)) [
  | inl same ↦ rw same (new, d)
  | inr other ↦ rw other (
    (λ h. elim (In-increment k i t h) [
      | inl e ↦ absurd (ground (arith, other, text_eq-equal i k e))
      | inr old ↦ new old
    ]),
    increment-Distinct k t d,
  )
]
  where
    text_eq-equal : (i k : Text) → i ≡ k → text_eq i k ≡ true
    text_eq-equal i k e = rw e (text_eq-same k)

In-if : (b : Bool) (s t : Text) (ts : List Text) → In s ts → In t ts → In (if b then s else t) ts
In-if true s t ts hs ht = hs
In-if false s t ts hs ht = ht

In-one_of :
    (s fallback : Text) (ts all : List Text)
    → In fallback all
    → ((t : Text) → In t ts → In t all)
    → In (one_of s ts fallback) all
unfolding one_of
In-one_of s fallback [] all last within = last
In-one_of s fallback (t ∷ ts) all last within =
    In-if (text_eq s t) t (one_of s ts fallback) all (within t (inl refl))
      (In-one_of s fallback ts all last (λ u h. within u (inr h)))

abbrev all_methods : List Text
all_methods = runes "OTHER" ∷ methods

In-all_methods : (method : Text) → In (normalize_method method) all_methods
unfolding normalize_method
In-all_methods method =
    In-one_of method (runes "OTHER") methods all_methods (inl refl) (λ t h. inr h)

abbrev statuses : List Text
statuses = runes "2xx" ∷ runes "3xx" ∷ runes "4xx" ∷ runes "5xx" ∷ runes "other" ∷ []

In-statuses : (status : ℤ) → In (http_status_string status) statuses
unfolding http_status_string
In-statuses status = In-if _ _ _ statuses (inl refl) (
    In-if _ _ _ statuses (inr (inl refl)) (
      In-if _ _ _ statuses (inr (inr (inl refl)))
        (In-if _ _ _ statuses (inr (inr (inr (inl refl)))) (inr (inr (inr (inr (inl refl))))))))

abbrev pair : Text → Text → Text × Text
pair path status = (path, status)

abbrev label_of : Text → Text × Text → Text
label_of method (path, status) = label method path status

abbrev labels : List Text → List Text
labels paths = products label_of all_methods (products pair (map sanitize_path paths) statuses)

length-labels : (paths : List Text) → length (labels paths) ≡ 50 * length paths
length-labels paths = omega (
  arith,
  length-products label_of all_methods (products pair (map sanitize_path paths) statuses),
  length-products pair (map sanitize_path paths) statuses,
  length-map sanitize_path paths,
)

-- The label of a request's path is one of these.
abbrev pub Routed : List Text → Served → Type 0
Routed paths r = In (metric_path r.full_path) paths

abbrev Labelled : List Text → MetricsCollector → Type 0
Labelled paths c =
    Distinct (keys c.http_requests_total)
    × ((k : Text) → In k (keys c.http_requests_total) → In k (labels paths))

access_log-Labelled :
    (paths : List Text) (r : Served) (c : MetricsCollector)
    → Routed paths r
    → Labelled paths c
    → Labelled paths (access_log r c)
unfolding access_log record_http_request
access_log-Labelled paths r c routed (d, within) = elim (Bool-cases (is_probe r.path)) [
  | inl probe ↦ rw probe (d, within)
  | inr other ↦ rw other (
    increment-Distinct _ c.http_requests_total d,
    λ k h. elim (In-increment _ k c.http_requests_total h) [
      | inl e ↦ rw e (
          In-products label_of _ _ all_methods _ (In-all_methods r.method) (
            In-products pair _ _ _ statuses (In-map sanitize_path _ paths routed)
              (In-statuses r.status)))
      | inr old ↦ within k old
    ],
  )
]

access_logs-Labelled :
    (paths : List Text) (rs : List Served) (c : MetricsCollector)
    → All (Routed paths) rs
    → Labelled paths c
    → Labelled paths (access_logs rs c)
unfolding access_logs
access_logs-Labelled paths [] c routed h = h
access_logs-Labelled paths (r ∷ rs) c (first, rest) h =
    access_logs-Labelled paths rs (access_log r c) rest (access_log-Labelled paths r c first h)

-- However many requests are answered, and whatever their methods, paths and status codes: if the label
-- of each, its route's pattern or the one for no route, is in a list, then the collector has at most 50
-- counters of requests for each label of the list.
pub access_logs-length :
    (paths : List Text) (rs : List Served)
    → All (Routed paths) rs
    → length (access_logs rs new_metrics_collector).http_requests_total ≤ 50 * length paths
access_logs-length paths rs routed =
    let (d, within) =
      access_logs-Labelled paths rs new_metrics_collector routed (tt, λ k h. absurd h) in
    let c = access_logs rs new_metrics_collector in
    let bound = Distinct-length (keys c.http_requests_total) (labels paths) d within in
    omega (arith, bound, length-keys c.http_requests_total, length-labels paths)
