-- ===== src/Publisher/Metrics/Buckets.antt =====
-- What is in the buckets of the aggregated metrics (services/publisher/metrics.go).
use mathlib.Core.List.{map}
use forta_node_tr.Prelude.{
  lookup, lookup-insert, ℕ, ◌==◌, ==_iff, ==_refl, Text, text_eq, text_eq_iff, text_eq_refl, List,
  [], ◌∷◌, ◌++◌, append-nil, append_assoc, Bool, true, false, true≢false, ◌&&◌, ◌||◌, Bool-cases,
  select, if◌then◌else◌, ◌≡◌, inl, inr, refl, sym, ap, ◌∙◌, arith,
}
use forta_node_tr.Publisher.Batch.{upsert}
use forta_node_tr.Publisher.Metrics.{
  Measure, Bucket, find_closest_bucket_time, is_bucket, list_or_nil, data_point, count_measure,
  new_bucket, find_bucket, add_agent_metrics,
}

-- The data points of a metric of an agent in the bucket of a minute.
unfoldable pub counter : Text → ℕ → Text → List Bucket → List ℕ
unfolding is_bucket
counter agent time name [] = []
counter agent time name (b ∷ bs) =
    if is_bucket agent time b
    then list_or_nil (lookup name b.metric_counters)
    else counter agent time name bs

-- The measures of a metric of an agent whose time lies in a minute.
pub is_of : Text → ℕ → Text → Measure → Bool
unfolding find_closest_bucket_time
is_of agent time name m =
    (text_eq m.agent_id agent && find_closest_bucket_time m.time == time) && text_eq m.name name

pub has_bucket : Text → ℕ → List Bucket → Bool
unfolding is_bucket
has_bucket agent time [] = false
has_bucket agent time (b ∷ bs) = is_bucket agent time b || has_bucket agent time bs

-- No two buckets are of the same agent and minute.
abbrev pub UniqueBuckets : List Bucket → Type 0
UniqueBuckets [] = Unit
UniqueBuckets (b ∷ bs) = (has_bucket b.agent_id b.time bs ≡ false) × UniqueBuckets bs

one_if : Bool → ℕ → List ℕ
one_if b n = if b then n ∷ [] else []

count_measure-counter :
    (name : Text) (m : Measure) (b : Bucket)
    → list_or_nil (lookup name (count_measure m b).metric_counters)
      ≡ list_or_nil (lookup name b.metric_counters) ++ one_if (text_eq m.name name) (data_point m)
unfolding count_measure one_if
count_measure-counter name m b =
    let d = b.metric_counters in
    let new = list_or_nil (lookup m.name d) ++ (data_point m ∷ []) in
    ap list_or_nil (lookup-insert m.name name new d) ∙ elim (Bool-cases (text_eq m.name name)) [
      | inl e ↦ rw e (
          ap (λ n. list_or_nil (lookup n d) ++ (data_point m ∷ [])) ((text_eq_iff m.name name).0 e))
      | inr e ↦ rw e (sym (append-nil (list_or_nil (lookup name d))))
    ]

-- Two keys of a bucket.
same_key :
    (a a' : Text) (t t' : ℕ) (b : Bucket)
    → is_bucket a t b ≡ true
    → is_bucket a' t' b ≡ is_bucket a' t' (new_bucket a t)
unfolding is_bucket new_bucket
same_key a a' t t' b e =
    let (p, q) : (text_eq b.agent_id a ≡ true) × (b.time == t ≡ true) = ground (arith, e) in
    ap (λ x. text_eq x a' && b.time == t') ((text_eq_iff b.agent_id a).0 p)
    ∙ ap (λ y. text_eq a a' && y == t') ((==_iff b.time t).0 q)

swapped_key :
    (a a' : Text) (t t' : ℕ) (b : Bucket)
    → is_bucket a' t' (new_bucket a t) ≡ true
    → is_bucket a t b ≡ is_bucket a' t' b
unfolding is_bucket new_bucket
swapped_key a a' t t' b e =
    let (p, q) : (text_eq a a' ≡ true) × (t == t' ≡ true) = ground (arith, e) in
    ap (λ x. text_eq b.agent_id x && b.time == t) ((text_eq_iff a a').0 p)
    ∙ ap (λ y. text_eq b.agent_id a' && b.time == y) ((==_iff t t').0 q)

other_key :
    (a a' : Text) (t t' : ℕ) (b : Bucket)
    → is_bucket a t b ≡ false
    → is_bucket a' t' b ≡ true
    → is_bucket a' t' (new_bucket a t) ≡ false
other_key a a' t t' b e e' = elim (Bool-cases (is_bucket a' t' (new_bucket a t))) [
  | inl q ↦ absurd (true≢false (sym e' ∙ sym (swapped_key a a' t t' b q) ∙ e))
  | inr q ↦ q
]

-- A measure is counted in a bucket `b`, which is the one that is read if `q`.
counted_in :
    (q : Bool) (name : Text) (m : Measure) (b : Bucket) (rest : List ℕ)
    → (if q then list_or_nil (lookup name (count_measure m b).metric_counters) else rest)
      ≡ (if q then list_or_nil (lookup name b.metric_counters) else rest)
        ++ one_if (q && text_eq m.name name) (data_point m)
unfolding one_if
counted_in true name m b rest = count_measure-counter name m b
counted_in false name m b rest = sym (append-nil rest)

-- A measure is counted behind a bucket with the counter `ns`, which is the one that is read if `q`.
counted_behind :
    (q k : Bool) (n : ℕ) (ns rest rest' : List ℕ)
    → (q ≡ true → k ≡ false)
    → rest' ≡ rest ++ one_if k n
    → (if q then ns else rest') ≡ (if q then ns else rest) ++ one_if k n
unfolding one_if
counted_behind true k n ns rest rest' passed e = rw (passed refl) (sym (append-nil ns))
counted_behind false k n ns rest rest' passed e = e

-- Adding a measure to the list of buckets, by whether the first one is its bucket.
add_first :
    (r : Bool) (agent : Text) (time : ℕ) (name : Text) (m : Measure) (b : Bucket)
    (bs bs' : List Bucket)
    → is_bucket m.agent_id (find_closest_bucket_time m.time) b ≡ r
    → counter agent time name bs'
      ≡ counter agent time name bs ++ one_if (is_of agent time name m) (data_point m)
    → counter agent time name (if r then count_measure m b ∷ bs else b ∷ bs')
      ≡ counter agent time name (b ∷ bs) ++ one_if (is_of agent time name m) (data_point m)
unfolding counter is_of is_bucket new_bucket count_measure
add_first true agent time name m b bs bs' e h =
    let q = is_bucket agent time b in
    let rest = counter agent time name bs in
    counted_in q name m b rest
    ∙ ap
        (λ k.
          (if q then list_or_nil (lookup name b.metric_counters) else rest)
          ++ one_if (k && text_eq m.name name) (data_point m))
        (same_key m.agent_id agent (find_closest_bucket_time m.time) time b e)
add_first false agent time name m b bs bs' e h =
    let t = find_closest_bucket_time m.time in
    counted_behind (is_bucket agent time b) (is_of agent time name m) (data_point m)
      (list_or_nil (lookup name b.metric_counters)) (counter agent time name bs)
      (counter agent time name bs')
      (λ e'. ap (λ k. k && text_eq m.name name) (other_key m.agent_id agent t time b e e')) h

nothing_yet : (q : Bool) (name : Text) → (if q then list_or_nil (lookup name []) else []) ≡ []
unfolding lookup
nothing_yet true name = refl
nothing_yet false name = refl

find_bucket-counter :
    (agent : Text) (time : ℕ) (name : Text) (m : Measure) (bs : List Bucket)
    → counter agent time name (find_bucket m.agent_id m.time (count_measure m) bs)
      ≡ counter agent time name bs ++ one_if (is_of agent time name m) (data_point m)
unfolding find_bucket upsert counter is_of is_bucket new_bucket count_measure
find_bucket-counter agent time name m [] =
    let t = find_closest_bucket_time m.time in
    let b = new_bucket m.agent_id t in
    counted_in (is_bucket agent time b) name m b []
    ∙ ap (λ l. l ++ one_if (is_of agent time name m) (data_point m))
        (nothing_yet (is_bucket agent time b) name)
find_bucket-counter agent time name m (b ∷ bs) =
    let t = find_closest_bucket_time m.time in
    add_first (is_bucket m.agent_id t b) agent time name m b bs
      (find_bucket m.agent_id m.time (count_measure m) bs) refl
      (find_bucket-counter agent time name m bs)

has_first :
    (r : Bool) (agent : Text) (time : ℕ) (m : Measure) (b : Bucket) (bs bs' : List Bucket)
    → has_bucket agent time (b ∷ bs) ≡ false
    → has_bucket agent time bs' ≡ false
    → has_bucket agent time (if r then count_measure m b ∷ bs else b ∷ bs') ≡ false
unfolding has_bucket is_bucket count_measure
has_first true agent time m b bs bs' h h' = h
has_first false agent time m b bs bs' h h' = ground (arith, h, h')

has_bucket-find_bucket :
    (agent : Text) (time : ℕ) (m : Measure) (bs : List Bucket)
    → has_bucket agent time bs ≡ false
    → is_bucket agent time (new_bucket m.agent_id (find_closest_bucket_time m.time)) ≡ false
    → has_bucket agent time (find_bucket m.agent_id m.time (count_measure m) bs) ≡ false
unfolding has_bucket find_bucket upsert is_bucket count_measure new_bucket
has_bucket-find_bucket agent time m [] h n = ground (arith, n)
has_bucket-find_bucket agent time m (b ∷ bs) h n =
    has_first (is_bucket m.agent_id (find_closest_bucket_time m.time) b) agent time m b bs
      (find_bucket m.agent_id m.time (count_measure m) bs) h
      (has_bucket-find_bucket agent time m bs (ground (arith, h)) n)

own_key : (b : Bucket) → is_bucket b.agent_id b.time b ≡ true
unfolding is_bucket
own_key b = rw (text_eq_refl b.agent_id) (==_refl b.time)

-- A bucket that is not of a key is not met under its own key in a new one of that key.
not_new :
    (a : Text) (t : ℕ) (b : Bucket)
    → is_bucket a t b ≡ false
    → is_bucket b.agent_id b.time (new_bucket a t) ≡ false
not_new a t b e = other_key a b.agent_id t b.time b e (own_key b)

unique_first :
    (r : Bool) (m : Measure) (b : Bucket) (bs bs' : List Bucket)
    → UniqueBuckets (b ∷ bs)
    → UniqueBuckets bs'
    → (r ≡ false → has_bucket b.agent_id b.time bs' ≡ false)
    → UniqueBuckets (if r then count_measure m b ∷ bs else b ∷ bs')
unfolding count_measure
unique_first true m b bs bs' u u' fresh = u
unique_first false m b bs bs' u u' fresh = (fresh refl, u')

find_bucket-UniqueBuckets :
    (m : Measure) (bs : List Bucket)
    → UniqueBuckets bs
    → UniqueBuckets (find_bucket m.agent_id m.time (count_measure m) bs)
unfolding find_bucket upsert is_bucket count_measure new_bucket has_bucket
find_bucket-UniqueBuckets m [] u = (refl, tt)
find_bucket-UniqueBuckets m (b ∷ bs) (fresh, u) =
    let t = find_closest_bucket_time m.time in
    unique_first (is_bucket m.agent_id t b) m b bs
      (find_bucket m.agent_id m.time (count_measure m) bs) (fresh, u)
      (find_bucket-UniqueBuckets m bs u)
      (λ e. has_bucket-find_bucket b.agent_id b.time m bs fresh (not_new m.agent_id t b e))

one_if-select :
    (f : Measure → Bool) (m : Measure) (ms : List Measure)
    → one_if (f m) (data_point m) ++ map data_point (select f ms)
      ≡ map data_point (select f (m ∷ ms))
unfolding one_if select
one_if-select f m ms = elim (Bool-cases (f m)) [ inl e ↦ rw e refl | inr e ↦ rw e refl ]

-- Whatever metrics are added, in the bucket of an agent and a minute stand under each name the
-- values of that agent's metrics of that name in that minute, in the order in which they came,
-- after those that were there; no two buckets are of the same agent and minute if none were.
pub add_agent_metrics_lem :
    (agent : Text) (time : ℕ) (name : Text) (ms : List Measure) (bs : List Bucket)
    → UniqueBuckets bs
    → (counter agent time name (add_agent_metrics ms bs)
        ≡ counter agent time name bs ++ map data_point (select (is_of agent time name) ms))
      × UniqueBuckets (add_agent_metrics ms bs)
unfolding add_agent_metrics select
add_agent_metrics_lem agent time name [] bs u = (sym (append-nil _), u)
add_agent_metrics_lem agent time name (m ∷ ms) bs u =
    let bs' = find_bucket m.agent_id m.time (count_measure m) bs in
    let old = counter agent time name bs in
    let more = map data_point (select (is_of agent time name) ms) in
    let (c, u') = add_agent_metrics_lem agent time name ms bs' (find_bucket-UniqueBuckets m bs u) in
    (
      c
          ∙ ap (λ l. l ++ more) (find_bucket-counter agent time name m bs)
          ∙ append_assoc old (one_if (is_of agent time name m) (data_point m)) more
          ∙ ap (λ l. old ++ l) (one_if-select (is_of agent time name) m ms),
      u',
    )
