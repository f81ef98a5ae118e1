-- ===== src/Metrics.antt =====
-- internal/metrics/metrics.go: a counter or histogram is the list of its observations, each with its
-- label values, newest first; a gauge has one current value for each pair of labels.
pub mod Gauges
use harbor_hook.Common.{ℕ, String, List, [], ◌∷◌, ◌&&◌, ◌==◌, if◌then◌else◌}

pub record DeliveryLabels : Type 0 where
  pub status : String
  pub tenant_id : String
  pub endpoint_id : String

pub record HttpLabels : Type 0 where
  pub tenant_id : String
  pub endpoint_id : String
  pub status_code : ℕ

pub record Metrics : Type 0 where
  pub events_published_total : List String
  pub deliveries_total : List DeliveryLabels
  pub delivery_latency : List (String × ℕ)
  pub retries_total : List String
  pub dlq_total : List String
  pub http_delivery_duration : List (HttpLabels × ℕ)
  pub nsq_topic_depth : List (String × String × ℕ)

abbrev pub no_metrics : Metrics
no_metrics = record {
  events_published_total = [];
  deliveries_total = [];
  delivery_latency = [];
  retries_total = [];
  dlq_total = [];
  http_delivery_duration = [];
  nsq_topic_depth = [];
}

-- RecordEventPublished
abbrev pub record_event_published : String → Metrics → Metrics
record_event_published tenant m = record m {
  events_published_total = tenant ∷ m.events_published_total;
}

-- RecordDelivery; the duration is in milliseconds
abbrev pub record_delivery : String → String → String → ℕ → Metrics → Metrics
record_delivery status tenant endpoint duration m = record m {
  deliveries_total =
      record { status = status; tenant_id = tenant; endpoint_id = endpoint } ∷ m.deliveries_total;
  delivery_latency = (tenant, duration) ∷ m.delivery_latency;
}

-- RecordHTTPDelivery; the label is strconv.Itoa of the status
abbrev pub record_http_delivery : String → String → ℕ → ℕ → Metrics → Metrics
record_http_delivery tenant endpoint status duration m = record m {
  http_delivery_duration =
      (record { tenant_id = tenant; endpoint_id = endpoint; status_code = status }, duration)
      ∷ m.http_delivery_duration;
}

-- RecordRetry
abbrev pub record_retry : String → Metrics → Metrics
record_retry reason m = record m { retries_total = reason ∷ m.retries_total }

-- RecordDLQ
abbrev pub record_dlq : String → Metrics → Metrics
record_dlq reason m = record m { dlq_total = reason ∷ m.dlq_total }

abbrev pub set_gauge : String → String → ℕ → List (String × String × ℕ) → List (String × String × ℕ)
set_gauge topic channel depth [] = (topic, channel, depth) ∷ []
set_gauge topic channel depth ((t, c, d) ∷ rest) =
    if t == topic && c == channel
    then (t, c, depth) ∷ rest
    else (t, c, d) ∷ set_gauge topic channel depth rest

-- UpdateNSQTopicDepth
unfoldable pub update_nsq_topic_depth : String → String → ℕ → Metrics → Metrics
update_nsq_topic_depth topic channel depth m = record m {
  nsq_topic_depth = set_gauge topic channel depth m.nsq_topic_depth;
}
