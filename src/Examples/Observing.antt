-- ===== src/Examples/Observing.antt =====
-- The theorems on gauges and on log fields.
use harbor_hook.Common.{ℕ, List, [], ◌∷◌, none, some, ◌==◌, ◌≡◌, refl, arith}
use harbor_hook.Metrics.{no_metrics}
use harbor_hook.Metrics.Gauges.{gauge}
use harbor_hook.Monitor.{Topic, Fetched, unreachable, stats, Gauges, collect_metrics, backlog_tick}
use harbor_hook.Monitor.Latest.{latest_fetched, gauges_latest}
use harbor_hook.Logging.{Heap, logger_with_fields, with_field, map_at, new_logger}
use harbor_hook.Logging.Fields.{field, logger_with_fields-with_field}

abbrev workers : ℕ → Topic
workers n = record {
  topic_name = "deliveries";
  channels = record { channel_name = "workers"; depth = n; in_flight_count = 1 } ∷ [];
  depth = n;
}

abbrev other : Topic
other = record {
  topic_name = "deliveries_dlq";
  channels = record { channel_name = "workers"; depth = 50; in_flight_count = 0 } ∷ [];
  depth = 50;
}

abbrev no_gauges : Gauges
no_gauges = record { queue_backlog = 0; channel_depth = []; channel_inflight = [] }

abbrev ticks : List Fetched
ticks = stats (workers 7 ∷ other ∷ []) ∷ unreachable "refused" ∷ stats (workers 9 ∷ []) ∷ []

-- the gauge shows the last report, and the backlog with it
collected :
    (gauge "deliveries" "workers" (collect_metrics ticks no_gauges).channel_depth ≡ some 9)
    × ((collect_metrics ticks no_gauges).queue_backlog ≡ 9)
    × (gauge "deliveries_dlq" "workers" (collect_metrics ticks no_gauges).channel_depth ≡ none)
unfolding collect_metrics
collected = (refl, refl, refl)

gauges_latest_example :
    (gauge "deliveries" "workers" (collect_metrics ticks no_gauges).channel_depth
      ≡ latest_fetched (λ t. t == "deliveries") "deliveries" "workers" ticks none)
    × (gauge "deliveries" "workers"
          (backlog_tick (stats (workers 8 ∷ [])) no_metrics).nsq_topic_depth
        ≡ some 8)
gauges_latest_example =
    gauges_latest "deliveries" "workers" ticks no_gauges (stats (workers 8 ∷ [])) no_metrics

abbrev heap : Heap
heap = (("a", "1") ∷ []) ∷ []

logger_with_fields-with_field_example :
    field "b"
      (map_at (with_field "b" "2" (logger_with_fields (new_logger "x") (some 0) heap).0 heap).1 0)
    ≡ some "2"
unfolding logger_with_fields
logger_with_fields-with_field_example =
    logger_with_fields-with_field (new_logger "x") 0 "b" "2" heap (omega arith)
