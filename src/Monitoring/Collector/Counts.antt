-- ===== src/Monitoring/Collector/Counts.antt =====
-- What the time series of monitoring/metrics.go has counted, against the events that it was given.
use distributed_caching_syst.Prelude.{
  ℕ, ◌≡◌, refl, ap, ◌∙◌, Bool, true, false, ◌&&◌, Option, none, some, List, [], ◌∷◌, if◌then◌else◌,
  filter, map, arith, inl, inr, Bool-cases, All, if_cases,
}
use distributed_caching_syst.Prelude.Int.{ℤ, pos, ◌≤ℤ◌, ltb_ℤ, leb_ℤ, ◌-ℤ◌}
use distributed_caching_syst.Prelude.SortBy.{sort_by, insert_by}
use distributed_caching_syst.GoMap.{lookup, insert}
use distributed_caching_syst.Monitoring.Alerts.{add_int64}
use distributed_caching_syst.Monitoring.Collector.{
  cleanup, total_of, MetricEvent, Bucket, TimeSeries, add, add_event, bucket_of, new_bucket, beq_ℤ,
  beq_ℤ_iff, int_key, in_range, unix, get_range,
}

add_int64-left_comm : (a b c : ℕ) → add_int64 a (add_int64 b c) ≡ add_int64 b (add_int64 a c)
add_int64-left_comm a b c = omega arith

add_int64_assoc : (a b c : ℕ) → add_int64 (add_int64 a b) c ≡ add_int64 b (add_int64 a c)
add_int64_assoc a b c = omega arith

module _ {ℓ} {A : Type ℓ} (f : A → ℕ) where
  total_of-insert_by :
      (before : A → A → Bool) (x : A) (xs : List A)
      → total_of f (insert_by before x xs) ≡ add_int64 (f x) (total_of f xs)
  unfolding insert_by
  total_of-insert_by before x [] = refl
  total_of-insert_by before x (y ∷ ys) = elim (Bool-cases (before y x)) [
    | inl later ↦ rw later (
        ap (add_int64 (f y)) (total_of-insert_by before x ys)
        ∙ add_int64-left_comm (f y) (f x) (total_of f ys))
    | inr first ↦ rw first refl
  ]

  -- The order of the items does not matter.
  total_of-sort_by :
      (before : A → A → Bool) (xs : List A) → total_of f (sort_by before xs) ≡ total_of f xs
  unfolding sort_by
  total_of-sort_by before [] = refl
  total_of-sort_by before (x ∷ xs) =
      total_of-insert_by before x (sort_by before xs)
      ∙ ap (add_int64 (f x)) (total_of-sort_by before xs)

module _ {F : Type 0} (key j : ℤ) where
  insert-here :
      (v b : Bucket F) (buckets : List (ℤ × Bucket F))
      → beq_ℤ j key ≡ true
      → insert key v ((j, b) ∷ buckets) ≡ (j, v) ∷ buckets
  unfolding insert
  insert-here v b buckets same = rw same refl

  insert-there :
      (v b : Bucket F) (buckets : List (ℤ × Bucket F))
      → beq_ℤ j key ≡ false
      → insert key v ((j, b) ∷ buckets) ≡ (j, b) ∷ insert key v buckets
  unfolding insert
  insert-there v b buckets apart = rw apart refl

  lookup-here :
      (b : Bucket F) (buckets : List (ℤ × Bucket F))
      → beq_ℤ j key ≡ true
      → lookup key ((j, b) ∷ buckets) ≡ some b
  unfolding lookup
  lookup-here b buckets same = rw same refl

  lookup-there :
      (b : Bucket F) (buckets : List (ℤ × Bucket F))
      → beq_ℤ j key ≡ false
      → lookup key ((j, b) ∷ buckets) ≡ lookup key buckets
  unfolding lookup
  lookup-there b buckets apart = rw apart refl

  bucket_of-here :
      (b : Bucket F) (buckets : List (ℤ × Bucket F))
      → beq_ℤ j key ≡ true
      → bucket_of key ((j, b) ∷ buckets) ≡ b
  unfolding bucket_of
  bucket_of-here b buckets same =
      ap (λ (o : Option (Bucket F)). elim o [ none ↦ new_bucket key | some b ↦ b ])
        (lookup-here b buckets same)

  bucket_of-there :
      (b : Bucket F) (buckets : List (ℤ × Bucket F))
      → beq_ℤ j key ≡ false
      → bucket_of key ((j, b) ∷ buckets) ≡ bucket_of key buckets
  unfolding bucket_of
  bucket_of-there b buckets apart =
      ap (λ (o : Option (Bucket F)). elim o [ none ↦ new_bucket key | some b ↦ b ])
        (lookup-there b buckets apart)

-- A counter of the buckets, and what an event adds to it.
pub record IsCounter {F : Type 0} (f : Bucket F → ℕ) (one : MetricEvent F → ℕ) : Type 0 where
  pub starts : (key : ℤ) → f (new_bucket key) ≡ 0
  pub grows :
      (event : MetricEvent F) (b : Bucket F) → f (add_event event b) ≡ add_int64 (f b) (one event)

-- The counter over the buckets whose key a test accepts.
module _ {F : Type 0} (f : Bucket F → ℕ) (one : MetricEvent F → ℕ) (p : ℤ → Bool) where
  abbrev within : List (ℤ × Bucket F) → List (Bucket F)
  within buckets = map (λ entry. entry.1) (filter (λ entry. p entry.0) buckets)

  abbrev over : List (ℤ × Bucket F) → ℕ
  over [] = 0
  over ((key, b) ∷ buckets) = if p key then add_int64 (f b) (over buckets) else over buckets

  total_of-within : (buckets : List (ℤ × Bucket F)) → total_of f (within buckets) ≡ over buckets
  total_of-within [] = refl
  total_of-within ((key, b) ∷ buckets) = elim (Bool-cases (p key)) [
    | inl e ↦ rw e (ap (add_int64 (f b)) (total_of-within buckets))
    | inr e ↦ rw e (total_of-within buckets)
  ]

  over-insert_new :
      (counter : IsCounter f one) (event : MetricEvent F) (key : ℤ)
      → over (insert key (add_event event (bucket_of key [])) [])
        ≡ (if p key then add_int64 (one event) 0 else 0)
  unfolding lookup insert bucket_of
  over-insert_new counter event key = elim (Bool-cases (p key)) [
    | inl e ↦ rw e (
        ap (λ n. add_int64 n 0) (counter.grows event (new_bucket key))
        ∙ omega (arith, counter.starts key))
    | inr e ↦ rw e refl
  ]

  over-insert :
      (counter : IsCounter f one) (event : MetricEvent F) (key : ℤ) (buckets : List (ℤ × Bucket F))
      → over (insert key (add_event event (bucket_of key buckets)) buckets)
        ≡ (if p key then add_int64 (one event) (over buckets) else over buckets)
  over-insert counter event key [] = over-insert_new counter event key
  over-insert counter event key ((j, b) ∷ buckets) = elim (Bool-cases (beq_ℤ j key)) [
    | inl same ↦
        ap over
          (insert-here key j (add_event event (bucket_of key ((j, b) ∷ buckets))) b buckets same)
        ∙ rw (bucket_of-here key j b buckets same) (rw ((beq_ℤ_iff j key).0 same) (here (p key)))
    | inr apart ↦
        ap over
          (insert-there key j (add_event event (bucket_of key ((j, b) ∷ buckets))) b buckets apart)
        ∙ rw (bucket_of-there key j b buckets apart)
            (there (p j) (p key) (over-insert counter event key buckets))
  ]
    where
      here :
          (mine : Bool)
          → (if mine then add_int64 (f (add_event event b)) (over buckets) else over buckets) ≡ (
              if mine
              then add_int64
                  (one event)
                  (if mine then add_int64 (f b) (over buckets) else over buckets)
              else (if mine then add_int64 (f b) (over buckets) else over buckets))
      here true =
          ap (λ n. add_int64 n (over buckets)) (counter.grows event b)
          ∙ add_int64_assoc (f b) (one event) (over buckets)
      here false = refl

      there :
          (here mine : Bool) {total : ℕ}
          → total ≡ (if mine then add_int64 (one event) (over buckets) else over buckets)
          → (if here then add_int64 (f b) total else total) ≡ (
              if mine
              then add_int64
                  (one event)
                  (if here then add_int64 (f b) (over buckets) else over buckets)
              else (if here then add_int64 (f b) (over buckets) else over buckets))
      there true true e =
          ap (add_int64 (f b)) e ∙ add_int64-left_comm (f b) (one event) (over buckets)
      there true false e = ap (add_int64 (f b)) e
      there false true e = e
      there false false e = e

  -- A cleanup that keeps the buckets which the test accepts does not change the sum.
  over-filter :
      (keep : ℤ → Bool) (buckets : List (ℤ × Bucket F))
      → ((key : ℤ) → p key ≡ true → keep key ≡ true)
      → over (filter (λ entry. keep entry.0) buckets) ≡ over buckets
  over-filter keep [] kept = refl
  over-filter keep ((key, b) ∷ buckets) kept = elim (Bool-cases (keep key)) [
    | inl e ↦ rw e (rw (over-filter keep buckets kept) refl)
    | inr e ↦ elim (Bool-cases (p key)) [
      | inl accepted ↦ cc (e, kept key accepted)
      | inr refused ↦ rw (e, refused) (over-filter keep buckets kept)
    ]
  ]

kept : (a b c key : ℤ) → a ≤ℤ b → (leb_ℤ b key && leb_ℤ key c) ≡ true → leb_ℤ a key ≡ true
kept a b c key h within = ground arith

-- A call of `Add`: its readings of the clock and its event.
abbrev pub Call : Type 0 → Type 0
Call F = (ℕ → ℤ) × MetricEvent F

module _ {F : Type 0} where
  abbrev pub record_all : List (Call F) → TimeSeries F → TimeSeries F
  record_all [] ts = ts
  record_all ((clock, event) ∷ calls) ts = record_all calls (add clock event ts)

  -- At the time of the call, the start of the range is not longer ago than what is retained.
  abbrev pub Retains : ℤ → ℤ → Call F → Type 0
  Retains start retention (clock, event) = unix (clock 1 -ℤ retention) ≤ℤ unix start

  -- What the events of the range add to a counter.
  abbrev pub gained : (MetricEvent F → ℕ) → ℤ → ℤ → List (Call F) → ℕ → ℕ
  gained one start end [] n = n
  gained one start end ((clock, event) ∷ calls) n =
      gained one start end calls
        (if in_range start end (unix event.timestamp) then add_int64 (one event) n else n)

  module _ (f : Bucket F → ℕ) (one : MetricEvent F → ℕ) (counter : IsCounter f one)
      (start end : ℤ) where
    add-over :
        (clock : ℕ → ℤ) (event : MetricEvent F) (ts : TimeSeries F)
        → Retains start ts.retention (clock, event)
        → over f one (in_range start end) (add clock event ts).buckets ≡ (
            if in_range start end (unix event.timestamp)
            then add_int64 (one event) (over f one (in_range start end) ts.buckets)
            else over f one (in_range start end) ts.buckets)
    unfolding add cleanup
    add-over clock event ts retains =
        let inserted =
          over-insert f one (in_range start end) counter event (unix event.timestamp) ts.buckets in
        let Adds = λ (ts' : TimeSeries F). over f one (in_range start end) ts'.buckets ≡ (
          if in_range start end (unix event.timestamp)
          then add_int64 (one event) (over f one (in_range start end) ts.buckets)
          else over f one (in_range start end) ts.buckets) in
        if_cases Adds (ltb_ℤ (pos 60_000_000_000) (clock 0 -ℤ ts.last_cleanup)) _ _
          (λ _.
            over-filter f one (in_range start end) (leb_ℤ (unix (clock 1 -ℤ ts.retention))) _
              (λ key. kept (unix (clock 1 -ℤ ts.retention)) (unix start) (unix end) key retains)
            ∙ inserted)
          (λ _. inserted)

    add-retention :
        (clock : ℕ → ℤ) (event : MetricEvent F) (ts : TimeSeries F)
        → (add clock event ts).retention ≡ ts.retention
    unfolding add cleanup
    add-retention clock event ts = ground arith

    record_all-over :
        (calls : List (Call F)) (ts : TimeSeries F)
        → All (Retains start ts.retention) calls
        → over f one (in_range start end) (record_all calls ts).buckets
          ≡ gained one start end calls (over f one (in_range start end) ts.buckets)
    record_all-over [] ts h = refl
    record_all-over ((clock, event) ∷ calls) ts h =
        record_all-over calls (add clock event ts) (rw (add-retention clock event ts) h.1)
        ∙ ap (gained one start end calls) (add-over clock event ts h.0)

    -- A counter over a range that reaches no further back than what was retained at each call: what the events of the
    -- range add to it.
    pub record_all-get_range :
        (calls : List (Call F)) (retention now : ℤ)
        → All (Retains start retention) calls
        → total_of f (
            get_range start end (
              record_all calls
                (record { buckets = []; retention = retention; last_cleanup = now })))
          ≡ gained one start end calls 0
    unfolding get_range
    record_all-get_range calls retention now h =
        let ts : TimeSeries F = record {
          buckets = [];
          retention = retention;
          last_cleanup = now;
        } in
        total_of-sort_by f (λ a b. ltb_ℤ a.timestamp b.timestamp)
          (within f one (in_range start end) (record_all calls ts).buckets)
        ∙ total_of-within f one (in_range start end) (record_all calls ts).buckets
        ∙ record_all-over calls ts h
