-- ===== src/Publisher/Metrics/Tests.antt =====
-- Metrics of two agents in two minutes, and the theorem about the buckets at this input
-- (services/publisher/metrics.go).
use mathlib.Core.List.{map}
use forta_node_tr.Prelude.{
  lookup, insert, ℕ, Text, codes, text_eq, List, [], ◌∷◌, ◌++◌, select, length, ◌≡◌, refl,
}
use forta_node_tr.Publisher.Batch.{upsert}
use forta_node_tr.Publisher.Metrics.{
  Measure, find_closest_bucket_time, is_bucket, data_point, count_measure, new_bucket, find_bucket,
  add_agent_metrics,
}
use forta_node_tr.Publisher.Metrics.Buckets.{counter, is_of, UniqueBuckets, add_agent_metrics_lem}

abbrev drop_at : Text → ℕ → ℕ → Measure
drop_at agent time value = record {
  agent_id = agent;
  name = codes "tx.drop";
  time = time;
  value = value;
}

abbrev latency : Measure
latency = record { agent_id = codes "a"; name = codes "tx.latency"; time = 1; value = 40 }

-- The second is in the next minute, and the last has a value that does not fit.
abbrev measures : List Measure
measures =
    drop_at (codes "a") 5 1
    ∷ drop_at (codes "a") 60000000000 2
    ∷ drop_at (codes "b") 5 3
    ∷ latency
    ∷ drop_at (codes "a") 59999999999 4294967300
    ∷ []

added_run : counter (codes "a") 0 (codes "tx.drop") (add_agent_metrics measures []) ≡ 1 ∷ 4 ∷ []
unfolding counter add_agent_metrics find_bucket count_measure find_closest_bucket_time is_bucket
    new_bucket upsert lookup insert text_eq
added_run = refl

buckets_run : length (add_agent_metrics measures []) ≡ 3
unfolding add_agent_metrics find_bucket count_measure find_closest_bucket_time is_bucket new_bucket
    upsert lookup insert text_eq
buckets_run = refl

add_agent_metrics_lem_example :
    (counter (codes "a") 0 (codes "tx.drop") (add_agent_metrics measures [])
      ≡ counter (codes "a") 0 (codes "tx.drop") []
        ++ map data_point (select (is_of (codes "a") 0 (codes "tx.drop")) measures))
    × UniqueBuckets (add_agent_metrics measures [])
add_agent_metrics_lem_example = add_agent_metrics_lem (codes "a") 0 (codes "tx.drop") measures [] tt
