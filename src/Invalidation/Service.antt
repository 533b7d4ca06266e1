-- ===== src/Invalidation/Service.antt =====
-- invalidation/service.go. The topic, the audit table, `json.Marshal` of keys, the printed request id and
-- the clock are an environment whose state `S` the calls pass along. The goroutine that writes the
-- audit row is a pending task that `run_pending` runs. An int64 counter is its bit pattern.
pub mod Publishing
use distributed_caching_syst.Prelude.{
  ℕ, ◌+◌, ◌-◌, ◌%◌, ◌^◌, Bool, true, false, Option, none, some, List, [], ◌∷◌, ◌++◌, if◌then◌else◌,
  length, take, ltb,
}
use distributed_caching_syst.Prelude.Int.{ℤ, pos, pos_part, ltb_ℤ, leb_ℤ, ◌+ℤ◌}
use distributed_caching_syst.GoMap.{lookup, insert}
use distributed_caching_syst.GoString.{Bytes, codes, bytes_eq, bytes_key}
use distributed_caching_syst.Invalidation.Patterns
use distributed_caching_syst.Invalidation.Patterns.{Regexp, PatternMatcher}

pub record Event : Type 0 where
  pub pattern : Bytes
  pub matched_keys : List Bytes
  pub triggered_by : Bytes
  pub timestamp : ℤ
  pub request_id : Bytes

pub record AuditLog : Type 0 where
  pub pattern : Bytes
  pub keys : List Bytes
  pub triggered_by : Bytes
  pub timestamp : ℤ
  pub request_id : Bytes

pub record Metrics : Type 0 where
  pub total_invalidations : ℕ
  pub key_invalidations : ℕ
  pub pattern_invalidations : ℕ
  pub audit_writes : ℕ
  pub pub_sub_publishes : ℕ
  pub errors : ℕ

-- `publish` and `insert_log` answer whether they succeeded; `get_recent` takes limit and offset.
pub record Environment (S : Type 0) : Type 0 where
  pub publish : Event → S → Bool × S
  pub insert_log : AuditLog → S → Bool × S
  pub get_recent : ℤ → ℤ → Bytes → S → Option (List AuditLog)
  pub get_count : Bytes → S → Option ℕ
  pub marshal_keys : List Bytes → Bytes
  pub generate_request_id : ℤ → Bytes

pub record Service (S R : Type 0) : Type 0 where
  pub pattern_matcher : PatternMatcher R
  pub metrics : Metrics
  pub pending : List AuditLog
  pub outside : S

pub data Error : Type 0 where
  no_keys no_pattern publish_failed fetch_failed : Error

pub record KeyRequest : Type 0 where
  pub keys : List Bytes
  pub triggered_by : Bytes
  pub request_id : Bytes

pub record PatternRequest : Type 0 where
  pub pattern : Bytes
  pub triggered_by : Bytes
  pub request_id : Bytes
  pub cache_keys : List Bytes

-- The response to both requests; the one for keys has no pattern.
pub record Response : Type 0 where
  pub success : Bool
  pub pattern : Bytes
  pub matched_keys : List Bytes
  pub invalidated_count : ℕ
  pub request_id : Bytes
  pub published_at : ℤ

abbrev pub log_of : Bytes → Event → AuditLog
log_of logged event = record {
  pattern = logged;
  keys = event.matched_keys;
  triggered_by = event.triggered_by;
  timestamp = event.timestamp;
  request_id = event.request_id;
}

abbrev pub response_to : Event → Response
response_to event = record {
  success = true;
  pattern = event.pattern;
  matched_keys = event.matched_keys;
  invalidated_count = length event.matched_keys;
  request_id = event.request_id;
  published_at = event.timestamp;
}

abbrev pub add_int64 : ℕ → ℕ → ℕ
add_int64 a b = (a + b) % 2 ^ 64

-- The field, or what the service puts in its place where it is empty.
abbrev pub or_default : Bytes → Bytes → Bytes
or_default d [] = d
or_default d (c ∷ s) = c ∷ s

-- The loop of `deduplicateKeys`, with the set of the keys that it has seen.
dedupe : List (Bytes × Bool) → List Bytes → List Bytes
dedupe seen [] = []
dedupe seen (key ∷ keys) =
    let again = dedupe seen keys in
    let fresh = dedupe (insert key true seen) keys in
    elim (lookup key seen) [ some _ ↦ again | none ↦ key ∷ fresh ]

unfoldable pub deduplicate_keys : List Bytes → List Bytes
unfolding dedupe
deduplicate_keys keys = dedupe [] keys

pub record Page : Type 0 where
  pub logs : List AuditLog
  pub total_count : ℕ
  pub has_more : Bool

abbrev pub page_limit : ℤ → ℤ
page_limit limit =
    let positive = if leb_ℤ limit (pos 0) then pos 50 else limit in
    if ltb_ℤ (pos 1000) positive then pos 1000 else positive

-- The page from the rows that were fetched for its limit and one more.
abbrev pub page_of : ℤ → List AuditLog → Option ℕ → Page
page_of size rows count =
    let has_more = ltb_ℤ size (pos (length rows)) in
    let logs = if has_more then take (pos_part size) rows else rows in
    record {
      logs = logs;
      total_count = elim count [ none ↦ length logs | some n ↦ n ];
      has_more = has_more;
    }

module _ {S R : Type 0} (env : Environment S) (re : Regexp R) where
  unfoldable pub format_keys_as_pattern : List Bytes → Bytes
  format_keys_as_pattern [] = []
  format_keys_as_pattern (key ∷ []) = key
  format_keys_as_pattern (key ∷ key' ∷ keys) = env.marshal_keys (key ∷ key' ∷ keys)

  -- From the event on, what the two calls share: they publish, queue the audit row and count. `count` raises the
  -- counter of the kind of call.
  unfoldable pub broadcast :
      (Metrics → Metrics)
      → Bytes
      → Event
      → Service S R
      → Service S R × Option Response × Option Error
  broadcast count logged event s =
      let (published, outside) = env.publish event s.outside in
      if published
      then (
        record s {
          outside = outside;
          pending = s.pending ++ log_of logged event ∷ [];
          metrics = count (record (s.metrics) {
            pub_sub_publishes = add_int64 s.metrics.pub_sub_publishes 1;
            total_invalidations = add_int64 s.metrics.total_invalidations 1;
          });
        },
        some (response_to event),
        none,
      )
      else (
        record s {
          outside = outside;
          metrics = record (s.metrics) { errors = add_int64 s.metrics.errors 1 };
        },
        none,
        some publish_failed,
      )

  abbrev pub count_key : Metrics → Metrics
  count_key m = record m { key_invalidations = add_int64 m.key_invalidations 1 }

  abbrev pub count_pattern : Metrics → Metrics
  count_pattern m = record m { pattern_invalidations = add_int64 m.pattern_invalidations 1 }

  -- `id_time` and `now` are the readings of the clock for a generated id and for the event.
  unfoldable pub invalidate_key :
      ℤ → ℤ → KeyRequest → Service S R → Service S R × Option Response × Option Error
  invalidate_key id_time now req s = elim req.keys [
    | [] ↦ (s, none, some no_keys)
    | _ ∷ _ ↦
        let unique_keys = deduplicate_keys req.keys in
        broadcast count_key (format_keys_as_pattern unique_keys)
          (record {
            pattern = [];
            matched_keys = unique_keys;
            triggered_by = or_default (codes "unknown") req.triggered_by;
            timestamp = now;
            request_id = or_default (env.generate_request_id id_time) req.request_id;
          })
          s
  ]

  -- The keys that the event names: the matches among the keys that the caller gave, or none.
  unfoldable pub matched_keys : PatternRequest → PatternMatcher R → PatternMatcher R × List Bytes
  matched_keys req pm = elim req.cache_keys [
    | [] ↦ (pm, [])
    | _ ∷ _ ↦ Patterns.match re req.pattern req.cache_keys pm
  ]

  unfoldable pub invalidate_pattern :
      ℤ → ℤ → PatternRequest → Service S R → Service S R × Option Response × Option Error
  invalidate_pattern id_time now req s = elim req.pattern [
    | [] ↦ (s, none, some no_pattern)
    | _ ∷ _ ↦
        let (pm, keys) = matched_keys req s.pattern_matcher in
        broadcast count_pattern req.pattern
          (record {
            pattern = req.pattern;
            matched_keys = keys;
            triggered_by = or_default (codes "unknown") req.triggered_by;
            timestamp = now;
            request_id = or_default (env.generate_request_id id_time) req.request_id;
          })
          (record s { pattern_matcher = pm })
  ]

  -- The goroutines that write the audit rows, in the order in which they were started.
  write_logs : List AuditLog → Service S R → Service S R
  write_logs [] s = s
  write_logs (log ∷ logs) s =
      let (written, outside) = env.insert_log log s.outside in
      write_logs logs (record s {
        outside = outside;
        metrics =
            if written
            then record (s.metrics) { audit_writes = add_int64 s.metrics.audit_writes 1 }
            else record (s.metrics) { errors = add_int64 s.metrics.errors 1 };
      })

  unfoldable pub run_pending : Service S R → Service S R
  unfolding write_logs
  run_pending s = write_logs s.pending (record s { pending = [] })

  -- A page: one row more than its limit is fetched, to see whether there are more.
  unfoldable pub get_audit_logs :
      ℤ → ℤ → Bytes → Service S R → Service S R × Option Page × Option Error
  get_audit_logs limit offset pattern s =
      let size = page_limit limit in
      let from = if ltb_ℤ offset (pos 0) then pos 0 else offset in
      elim (env.get_recent (size +ℤ pos 1) from pattern s.outside) [
        | none ↦ (
          record s { metrics = record (s.metrics) { errors = add_int64 s.metrics.errors 1 } },
          none,
          some fetch_failed,
        )
        | some rows ↦ (s, some (page_of size rows (env.get_count pattern s.outside)), none)
      ]

  unfoldable pub get_metrics : Service S R → Metrics
  get_metrics s = s.metrics
