-- ===== src/Publisher/Metrics.antt =====
-- How the publisher aggregates the metrics of agents (services/publisher/metrics.go: the buckets and
-- AddAgentMetrics). Times are nanoseconds since 1970; a metric has its time parsed, and its value is
-- a natural.
pub mod Buckets
pub mod Tests
use forta_node_tr.Prelude.{
  lookup, insert, Dict, ℕ, ◌-◌, ◌%◌, ◌^◌, ◌==◌, Text, text_eq, List, [], ◌∷◌, ◌++◌, Bool, ◌&&◌,
  Option, none, some,
}
use forta_node_tr.Publisher.Batch.{upsert}

-- `AgentMetric`
pub record Measure : Type 0 where
  pub agent_id : Text
  pub name : Text
  pub time : ℕ
  pub value : ℕ

-- `metricsBucket`, without the summaries.
pub record Bucket : Type 0 where
  pub agent_id : Text
  pub time : ℕ
  pub metric_counters : Dict (List ℕ)

abbrev pub default_bucket_interval : ℕ
default_bucket_interval = 60000000000

pub find_closest_bucket_time : ℕ → ℕ
find_closest_bucket_time t = t - t % default_bucket_interval

pub is_bucket : Text → ℕ → Bucket → Bool
is_bucket agent time b = text_eq b.agent_id agent && b.time == time

abbrev pub list_or_nil : Option (List ℕ) → List ℕ
list_or_nil none = []
list_or_nil (some ns) = ns

-- `uint32(m.Value)`
abbrev pub data_point : Measure → ℕ
data_point m = m.value % 2 ^ 32

pub count_measure : Measure → Bucket → Bucket
count_measure m b = record b {
  metric_counters =
      insert m.name (list_or_nil (lookup m.name b.metric_counters) ++ (data_point m ∷ []))
        b.metric_counters;
}

pub new_bucket : Text → ℕ → Bucket
new_bucket agent time = record { agent_id = agent; time = time; metric_counters = [] }

-- `findBucket`, and what is done with the bucket that it returns.
pub find_bucket : Text → ℕ → (Bucket → Bucket) → List Bucket → List Bucket
unfolding upsert is_bucket new_bucket find_closest_bucket_time
find_bucket agent t f bs =
    let time = find_closest_bucket_time t in
    upsert (is_bucket agent time) (new_bucket agent time) f bs

pub add_agent_metrics : List Measure → List Bucket → List Bucket
unfolding find_bucket count_measure
add_agent_metrics [] bs = bs
add_agent_metrics (m ∷ ms) bs =
    add_agent_metrics ms (find_bucket m.agent_id m.time (count_measure m) bs)
