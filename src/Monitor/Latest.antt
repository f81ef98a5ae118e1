-- ===== src/Monitor/Latest.antt =====
-- What the gauges of cmd/nsq-monitor/main.go and of startBacklogMonitor in cmd/worker/main.go show: the
-- depth that was reported last.
use harbor_hook.Common.{
  ℕ, String, List, [], ◌∷◌, Option, some, Bool, true, false, ◌&&◌, ◌==◌, if◌then◌else◌, ◌≡◌, refl,
  ap, ◌∙◌,
}
use harbor_hook.Metrics.{Metrics, update_nsq_topic_depth}
use harbor_hook.Metrics.Gauges.{gauge, gauge-set_gauge}
use harbor_hook.Monitor.{
  Channel, Topic, Fetched, unreachable, undecodable, stats, Gauges, update_channel, update_channels,
  update_topics, update_metrics, collect_metrics, record_channels, record_topics, backlog_tick,
}

-- the depth reported last for a topic and a channel in a list of reports, or else the one before
abbrev pub latest_in : String → String → String → List Channel → Option ℕ → Option ℕ
latest_in topic channel t [] before = before
latest_in topic channel t (c ∷ cs) before =
    latest_in topic channel t cs
      (if t == topic && c.channel_name == channel then some c.depth else before)

-- the same over the topics that a test keeps
abbrev pub latest : (String → Bool) → String → String → List Topic → Option ℕ → Option ℕ
latest keep topic channel [] before = before
latest keep topic channel (t ∷ ts) before =
    latest keep topic channel ts
      (if keep t.topic_name then latest_in topic channel t.topic_name t.channels before else before)

-- the same over the fetches of several ticks
abbrev pub latest_fetched : (String → Bool) → String → String → List Fetched → Option ℕ → Option ℕ
latest_fetched keep topic channel [] before = before
latest_fetched keep topic channel (stats ts ∷ ticks) before =
    latest_fetched keep topic channel ticks (latest keep topic channel ts before)
latest_fetched keep topic channel (unreachable e ∷ ticks) before =
    latest_fetched keep topic channel ticks before
latest_fetched keep topic channel (undecodable e ∷ ticks) before =
    latest_fetched keep topic channel ticks before

module _ (topic channel : String) where
  gauge-update_channels :
      (t : String) (cs : List Channel) (g : Gauges)
      → gauge topic channel (update_channels t cs g).channel_depth
        ≡ latest_in topic channel t cs (gauge topic channel g.channel_depth)
  unfolding update_channels
  gauge-update_channels t [] g = refl
  gauge-update_channels t (c ∷ cs) g =
      gauge-update_channels t cs (update_channel t c g)
      ∙ ap (latest_in topic channel t cs)
          (gauge-set_gauge topic channel t c.channel_name c.depth g.channel_depth)

  gauge-update_topics :
      (ts : List Topic) (g : Gauges)
      → gauge topic channel (update_topics ts g).channel_depth
        ≡ latest (λ t. t == "deliveries") topic channel ts (gauge topic channel g.channel_depth)
  unfolding update_topics
  gauge-update_topics [] g = refl
  gauge-update_topics (t ∷ ts) g =
      gauge-update_topics ts
        (if t.topic_name == "deliveries" then update_channels t.topic_name t.channels g else g)
      ∙ ap (latest (λ u. u == "deliveries") topic channel ts) (step (t.topic_name == "deliveries"))
    where
      step :
          (b : Bool)
          → gauge topic channel
              (if b then update_channels t.topic_name t.channels g else g).channel_depth
            ≡ (if b
                then latest_in topic channel t.topic_name t.channels
                    (gauge topic channel g.channel_depth)
                else gauge topic channel g.channel_depth)
      step true = gauge-update_channels t.topic_name t.channels g
      step false = refl

  -- After any ticks of the NSQ monitor, whatever fetches fail, the gauge of the channel depth for a
  -- topic and a channel shows the depth that was reported last for it among the channels of topics
  -- named deliveries, and its former value if there was no report.
  gauge-collect_metrics :
      (ticks : List Fetched) (g : Gauges)
      → gauge topic channel (collect_metrics ticks g).channel_depth
        ≡ latest_fetched
            (λ t. t == "deliveries")
            topic
            channel
            ticks
            (gauge topic channel g.channel_depth)
  unfolding collect_metrics update_metrics
  gauge-collect_metrics [] g = refl
  gauge-collect_metrics (stats ts ∷ ticks) g =
      gauge-collect_metrics ticks (update_topics ts g)
      ∙ ap (latest_fetched (λ t. t == "deliveries") topic channel ticks) (gauge-update_topics ts g)
  gauge-collect_metrics (unreachable e ∷ ticks) g = gauge-collect_metrics ticks g
  gauge-collect_metrics (undecodable e ∷ ticks) g = gauge-collect_metrics ticks g

  gauge-record_channels :
      (t : String) (cs : List Channel) (m : Metrics)
      → gauge topic channel (record_channels t cs m).nsq_topic_depth
        ≡ latest_in topic channel t cs (gauge topic channel m.nsq_topic_depth)
  unfolding record_channels
  gauge-record_channels t [] m = refl
  gauge-record_channels t (c ∷ cs) m =
      gauge-record_channels t cs (update_nsq_topic_depth t c.channel_name c.depth m)
      ∙ ap (latest_in topic channel t cs)
          (gauge-set_gauge topic channel t c.channel_name c.depth m.nsq_topic_depth)

  gauge-record_topics :
      (ts : List Topic) (m : Metrics)
      → gauge topic channel (record_topics ts m).nsq_topic_depth
        ≡ latest (λ t. true) topic channel ts (gauge topic channel m.nsq_topic_depth)
  unfolding record_topics
  gauge-record_topics [] m = refl
  gauge-record_topics (t ∷ ts) m =
      gauge-record_topics ts (record_channels t.topic_name t.channels m)
      ∙ ap (latest (λ u. true) topic channel ts) (gauge-record_channels t.topic_name t.channels m)

  -- After a tick of the worker's backlog monitor, the gauge of the topic depth for a topic and a
  -- channel shows the depth that was reported last for it, and its former value if the fetch failed
  -- or reported none.
  gauge-backlog_tick :
      (f : Fetched) (m : Metrics)
      → gauge topic channel (backlog_tick f m).nsq_topic_depth
        ≡ latest_fetched (λ t. true) topic channel (f ∷ []) (gauge topic channel m.nsq_topic_depth)
  unfolding backlog_tick
  gauge-backlog_tick (stats ts) m = gauge-record_topics ts m
  gauge-backlog_tick (unreachable e) m = refl
  gauge-backlog_tick (undecodable e) m = refl

  -- After any ticks of the NSQ monitor, whatever fetches fail, the gauge of the channel depth for a
  -- topic and a channel shows the depth that was reported last for it among the channels of topics
  -- named deliveries, and its former value if there was no report. After a tick of the worker's
  -- backlog monitor, the gauge of the topic depth shows the depth that was reported last for the
  -- topic and the channel, of whatever topic, and its former value if the fetch failed or reported
  -- none.
  pub gauges_latest :
      (ticks : List Fetched) (g : Gauges) (f : Fetched) (m : Metrics)
      → (gauge topic channel (collect_metrics ticks g).channel_depth
          ≡ latest_fetched
              (λ t. t == "deliveries")
              topic
              channel
              ticks
              (gauge topic channel g.channel_depth))
        × (gauge topic channel (backlog_tick f m).nsq_topic_depth
            ≡ latest_fetched
                (λ t. true)
                topic
                channel
                (f ∷ [])
                (gauge topic channel m.nsq_topic_depth))
  gauges_latest ticks g f m = (gauge-collect_metrics ticks g, gauge-backlog_tick f m)
