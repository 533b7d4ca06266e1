-- ===== src/Invalidation/Service/Publishing.antt =====
-- `deduplicateKeys`, the two calls that publish, and the pages of invalidation/service.go.
use distributed_caching_syst.Prelude.{
  ◌≤◌, ◌<◌, ◌≡◌, ◌⊎◌, ◌↔◌, refl, ap, length-take, take_of_length-le, Bool, true, false, Option,
  none, some, List, [], ◌∷◌, ◌++◌, if◌then◌else◌, length, take, arith, inl, inr, Bool-cases,
  Option-cases,
}
use distributed_caching_syst.Prelude.Int.{ℤ, pos, pos_part, ◌+ℤ◌, ltb_ℤ}
use distributed_caching_syst.GoMap.{lookup, insert, lookup-insert}
use distributed_caching_syst.GoString.{Bytes, codes, bytes_eq, bytes_eq_iff, bytes_key}
use distributed_caching_syst.Invalidation.Patterns.{Regexp, is_empty}
use distributed_caching_syst.Invalidation.Service.{
  KeyRequest, or_default, count_key, format_keys_as_pattern, Event, AuditLog, Environment, Service,
  Error, publish_failed, Response, add_int64, dedupe, deduplicate_keys, Page, page_limit,
  response_to, page_of, broadcast, invalidate_key, get_audit_logs,
}

abbrev pub occurs : Bytes → List Bytes → Bool
occurs key [] = false
occurs key (other ∷ keys) = if bytes_eq other key then true else occurs key keys

abbrev pub Unique : List Bytes → Type 0
Unique [] = Unit
Unique (key ∷ keys) = (occurs key keys ≡ false) × Unique keys

abbrev fresh : List (Bytes × Bool) → Bytes → Bool
fresh seen key = elim (lookup key seen) [ some _ ↦ false | none ↦ true ]

fresh-insert :
    (key other : Bytes) (seen : List (Bytes × Bool))
    → fresh (insert key true seen) other ≡ (if bytes_eq key other then false else fresh seen other)
fresh-insert key other seen = ground (arith, lookup-insert key other true seen)

-- The result holds the keys of the list that were not seen before.
dedupe-occurs :
    (seen : List (Bytes × Bool)) (keys : List Bytes) (k : Bytes)
    → occurs k (dedupe seen keys) ≡ (if fresh seen k then occurs k keys else false)
unfolding dedupe
dedupe-occurs seen [] k = ground arith
dedupe-occurs seen (key ∷ keys) k = ground (
  arith,
  dedupe-occurs seen keys k,
  dedupe-occurs (insert key true seen) keys k,
  fresh-insert key k seen,
  bytes_eq_iff key k,
)

dedupe-Unique : (seen : List (Bytes × Bool)) (keys : List Bytes) → Unique (dedupe seen keys)
dedupe-Unique seen [] = unfold dedupe in tt
dedupe-Unique seen (key ∷ keys) = elim (Option-cases (lookup key seen)) [
  | inr (b, old) ↦ rw (skip b old) (dedupe-Unique seen keys)
  | inl new ↦ rw (take_in new) (absent new, dedupe-Unique (insert key true seen) keys)
]
  where
    skip : (b : Bool) → lookup key seen ≡ some b → dedupe seen (key ∷ keys) ≡ dedupe seen keys
    skip b old = unfold dedupe in ground arith

    take_in :
        lookup key seen ≡ none → dedupe seen (key ∷ keys) ≡ key ∷ dedupe (insert key true seen) keys
    take_in new = unfold dedupe in ground arith

    absent : lookup key seen ≡ none → occurs key (dedupe (insert key true seen) keys) ≡ false
    absent new = ground (
      arith,
      dedupe-occurs (insert key true seen) keys key,
      fresh-insert key key seen,
      bytes_eq_iff key key,
    )

-- `deduplicateKeys` replies every key of the list once and no other key.
pub deduplicate_keys-Unique :
    (keys : List Bytes)
    → Unique (deduplicate_keys keys)
      × ((k : Bytes) → occurs k (deduplicate_keys keys) ≡ occurs k keys)
unfolding deduplicate_keys
deduplicate_keys-Unique keys =
    (dedupe-Unique [] keys, λ k. unfold lookup in ground (arith, dedupe-occurs [] keys k))

module _ {S R : Type 0} (env : Environment S) (re : Regexp R) where
  -- How a call with keys ends where the event goes out: its audit row is queued, the call is counted and the response
  -- names what the event names.
  pub record Published (event : Event) (logged : Bytes) (s : Service S R)
      (out : Service S R × Option Response × Option Error) : Type 0 where
    pub replied :
        (r : Response) × (out.1 ≡ some r)
        × (r.matched_keys ≡ event.matched_keys)
        × (r.invalidated_count ≡ length event.matched_keys)
        × (r.request_id ≡ event.request_id)
        × (r.published_at ≡ event.timestamp)
    pub no_error : out.2 ≡ none
    pub sent : out.0.outside ≡ (env.publish event s.outside).1
    pub queued :
        out.0.pending
        ≡ s.pending
          ++ record {
            pattern = logged;
            keys = event.matched_keys;
            triggered_by = event.triggered_by;
            timestamp = event.timestamp;
            request_id = event.request_id;
          }
            ∷ []
    pub counted : out.0.metrics ≡ record (s.metrics) {
      pub_sub_publishes = add_int64 s.metrics.pub_sub_publishes 1;
      total_invalidations = add_int64 s.metrics.total_invalidations 1;
      key_invalidations = add_int64 s.metrics.key_invalidations 1;
    }

  -- How it ends where publishing fails: the error is said and counted, and nothing else is.
  pub record NotPublished (event : Event) (s : Service S R)
      (out : Service S R × Option Response × Option Error) : Type 0 where
    pub no_reply : out.1 ≡ none
    pub failed : out.2 ≡ some publish_failed
    pub sent : out.0.outside ≡ (env.publish event s.outside).1
    pub none_queued : out.0.pending ≡ s.pending
    pub counted : out.0.metrics ≡ record (s.metrics) { errors = add_int64 s.metrics.errors 1 }

  -- The event of a request: every key once, in no pattern, and the defaults where the request leaves a field empty.
  pub record IsEventOf (id_time now : ℤ) (req : KeyRequest) (event : Event) : Type 0 where
    pub no_pattern : event.pattern ≡ []
    pub each_once : Unique event.matched_keys
    pub same_keys : (k : Bytes) → occurs k event.matched_keys ≡ occurs k req.keys
    pub at_time : event.timestamp ≡ now
    pub by :
        event.triggered_by
        ≡ (if is_empty req.triggered_by then codes "unknown" else req.triggered_by)
    pub id :
        event.request_id
        ≡ (if is_empty req.request_id then env.generate_request_id id_time else req.request_id)

  or_default_lem : (d given : Bytes) → or_default d given ≡ (if is_empty given then d else given)
  or_default_lem d [] = refl
  or_default_lem d (c ∷ s) = refl

  broadcast_sent :
      (logged : Bytes) (event : Event) (s : Service S R)
      → (env.publish event s.outside).0 ≡ true
      → Published event logged s (broadcast env re (count_key env re) logged event s)
  unfolding broadcast
  broadcast_sent logged event s good = record {
    replied = (response_to event, rw good refl, refl, refl, refl, refl);
    no_error = rw good refl;
    sent = rw good refl;
    queued = rw good refl;
    counted = rw good refl;
  }

  broadcast_failed :
      (logged : Bytes) (event : Event) (s : Service S R)
      → (env.publish event s.outside).0 ≡ false
      → NotPublished event s (broadcast env re (count_key env re) logged event s)
  unfolding broadcast
  broadcast_failed logged event s bad = record {
    no_reply = rw bad refl;
    failed = rw bad refl;
    sent = rw bad refl;
    none_queued = rw bad refl;
    counted = rw bad refl;
  }

  broadcast_outcomes :
      (logged : Bytes) (event : Event) (s : Service S R)
      → let out = broadcast env re (count_key env re) logged event s in
        ((env.publish event s.outside).0 ≡ true) × Published event logged s out
        ⊎ ((env.publish event s.outside).0 ≡ false) × NotPublished event s out
  broadcast_outcomes logged event s = elim (Bool-cases (env.publish event s.outside).0) [
    | inl good ↦ inl (good, broadcast_sent logged event s good)
    | inr bad ↦ inr (bad, broadcast_failed logged event s bad)
  ]

  -- `InvalidateKey` with keys makes an event of no pattern that holds every key of the request
  -- once and no other, at the time of the call, with the defaults where the request leaves a field
  -- empty. Where publishing it succeeds, the response names it, its audit row is queued and the
  -- call is counted; where it fails, the error is said and counted, and no row is queued.
  pub invalidate_key_outcomes :
      (id_time now : ℤ) (key : Bytes) (keys : List Bytes) (triggered_by request_id : Bytes)
      (s : Service S R)
      → let req : KeyRequest = record {
        keys = key ∷ keys;
        triggered_by = triggered_by;
        request_id = request_id;
      } in
        let out = invalidate_key env re id_time now req s in
        (event : Event) × IsEventOf id_time now req event
        × (((env.publish event s.outside).0 ≡ true)
              × Published event (format_keys_as_pattern env re event.matched_keys) s out
            ⊎ ((env.publish event s.outside).0 ≡ false) × NotPublished event s out)
  unfolding invalidate_key
  invalidate_key_outcomes id_time now key keys triggered_by request_id s = (
    _,
    record {
      no_pattern = refl;
      each_once = (deduplicate_keys-Unique (key ∷ keys)).0;
      same_keys = (deduplicate_keys-Unique (key ∷ keys)).1;
      at_time = refl;
      by = or_default_lem (codes "unknown") triggered_by;
      id = or_default_lem (env.generate_request_id id_time) request_id;
    },
    broadcast_outcomes _ _ s,
  )

  -- Where the rows are fetched, the page holds the first of them, at most 1000 and at most as many
  -- as the limit that is used, and says that there are more exactly where a row lies beyond that
  -- limit.
  pub get_audit_logs_lem :
      (limit offset : ℤ) (pattern : Bytes) (s : Service S R) (rows : List AuditLog)
      → env.get_recent
          (page_limit limit +ℤ pos 1)
          (if ltb_ℤ offset (pos 0) then pos 0 else offset)
          pattern
          s.outside
        ≡ some rows
      → (page : Page) × ((get_audit_logs env re limit offset pattern s).1 ≡ some page)
        × (page.logs ≡ take (pos_part (page_limit limit)) rows)
        × (length page.logs ≤ 1000)
        × ((page.has_more ≡ true) ↔ (pos_part (page_limit limit) < length rows))
  unfolding get_audit_logs
  get_audit_logs_lem limit offset pattern s rows e = (
    page_of (page_limit limit) rows (env.get_count pattern s.outside),
    ground arith,
    cut,
    omega (arith, ap length cut, length-take (pos_part (page_limit limit)) rows, bound),
    (λ more. ground arith, λ less. ground arith),
  )
    where
      bound : pos_part (page_limit limit) ≤ 1000
      bound = ground arith

      short :
          ltb_ℤ (page_limit limit) (pos (length rows)) ≡ false
          → take (pos_part (page_limit limit)) rows ≡ rows
      short few = take_of_length-le (pos_part (page_limit limit)) rows (ground arith)

      cut :
          (page_of (page_limit limit) rows (env.get_count pattern s.outside)).logs
          ≡ take (pos_part (page_limit limit)) rows
      cut = elim (Bool-cases (ltb_ℤ (page_limit limit) (pos (length rows)))) [
        | inl many ↦ ground arith
        | inr few ↦ ground (arith, short few)
      ]
