-- ===== src/Monitor.antt =====
-- cmd/nsq-monitor/main.go, and startBacklogMonitor of cmd/worker/main.go: the gauges that they set from
-- the statistics of nsqd. The HTTP call and the JSON decoder are parameters: what each tick fetched.
pub mod Latest
use Prim.Native.String.{◌++◌}
use harbor_hook.Common.{ℕ, String, List, [], ◌∷◌, Bool, ◌==◌, Result, ok, err, if◌then◌else◌}
use harbor_hook.Common.Int.{ℤ}
use harbor_hook.Config.{Environment, getenv, getenv_int}
use harbor_hook.Metrics.{Metrics, set_gauge, update_nsq_topic_depth}

-- the channels of NSQStats
pub record Channel : Type 0 where
  pub channel_name : String
  pub depth : ℕ
  pub in_flight_count : ℕ

-- the topics of NSQStats
pub record Topic : Type 0 where
  pub topic_name : String
  pub channels : List Channel
  pub depth : ℕ

-- The call failed, its body was no JSON of this form, or it gave statistics.
pub data Fetched : Type 0 where
  unreachable undecodable : String → Fetched
  stats : List Topic → Fetched

-- queueBacklog, channelDepth and channelInflight
pub record Gauges : Type 0 where
  pub queue_backlog : ℕ
  pub channel_depth : List (String × String × ℕ)
  pub channel_inflight : List (String × String × ℕ)

-- getEnv and getEnvInt
abbrev pub get_env : Environment → String → String → String
get_env = getenv

abbrev pub get_env_int : Environment → String → ℤ → ℤ
get_env_int = getenv_int

-- the body of the inner loop of updateMetrics
abbrev pub update_channel : String → Channel → Gauges → Gauges
update_channel topic c g = record {
  queue_backlog = if c.channel_name == "workers" then c.depth else g.queue_backlog;
  channel_depth = set_gauge topic c.channel_name c.depth g.channel_depth;
  channel_inflight = set_gauge topic c.channel_name c.in_flight_count g.channel_inflight;
}

unfoldable pub update_channels : String → List Channel → Gauges → Gauges
update_channels topic [] g = g
update_channels topic (c ∷ cs) g = update_channels topic cs (update_channel topic c g)

-- the loops of updateMetrics
unfoldable pub update_topics : List Topic → Gauges → Gauges
unfolding update_channels
update_topics [] g = g
update_topics (t ∷ ts) g =
    update_topics ts
      (if t.topic_name == "deliveries" then update_channels t.topic_name t.channels g else g)

-- updateMetrics
unfoldable pub update_metrics : Fetched → Gauges → Result (Unit {0}) × Gauges
unfolding update_topics
update_metrics (unreachable e) g = (err ("failed to get NSQ stats: " ++ e), g)
update_metrics (undecodable e) g = (err ("failed to decode NSQ stats: " ++ e), g)
update_metrics (stats ts) g = (ok tt, update_topics ts g)

-- collectMetrics, for the ticks of a while
unfoldable pub collect_metrics : List Fetched → Gauges → Gauges
unfolding update_metrics
collect_metrics [] g = g
collect_metrics (f ∷ ticks) g = collect_metrics ticks (update_metrics f g).1

-- the loop of startBacklogMonitor over the channels of a topic
unfoldable pub record_channels : String → List Channel → Metrics → Metrics
unfolding update_nsq_topic_depth
record_channels topic [] m = m
record_channels topic (c ∷ cs) m =
    record_channels topic cs (update_nsq_topic_depth topic c.channel_name c.depth m)

unfoldable pub record_topics : List Topic → Metrics → Metrics
unfolding record_channels
record_topics [] m = m
record_topics (t ∷ ts) m = record_topics ts (record_channels t.topic_name t.channels m)

-- a tick of startBacklogMonitor
unfoldable pub backlog_tick : Fetched → Metrics → Metrics
unfolding record_topics
backlog_tick (unreachable e) m = m
backlog_tick (undecodable e) m = m
backlog_tick (stats ts) m = record_topics ts m
