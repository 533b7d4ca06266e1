-- ===== src/Examples/Invalidations.antt =====
-- The invalidation service on concrete inputs, with expressions that match by their spelling.
use distributed_caching_syst.Prelude.{
  ◌≤◌, ◌<◌, ◌≡◌, ◌⊎◌, ◌↔◌, refl, true, false, Option, some, none, List, [], ◌∷◌, ◌++◌, filter,
  length, take, arith,
}
use distributed_caching_syst.Prelude.Int.{pos, pos_part}
use distributed_caching_syst.GoMap.{lookup}
use distributed_caching_syst.GoString.{
  Bytes, codes, bytes_eq, bytes_eq_iff, bytes_key, contains, has_prefix, has_suffix, trim_suffix,
}
use distributed_caching_syst.CacheManager.L1Cache.{matches_pattern}
use distributed_caching_syst.Invalidation.Patterns
use distributed_caching_syst.Invalidation.Patterns.{
  Regexp, PatternMatcher, asterisk, new_pattern_matcher, match_count,
}
use distributed_caching_syst.Invalidation.Patterns.Agreement.{
  IsCompiled, match-pure, match-prefix, match-suffix,
}
use distributed_caching_syst.Invalidation.Service.{
  Event, Environment, Service, KeyRequest, format_keys_as_pattern, Page, page_limit, invalidate_key,
  get_audit_logs,
}
use distributed_caching_syst.Invalidation.Service.Publishing.{
  IsEventOf, Published, NotPublished, invalidate_key_outcomes, get_audit_logs_lem,
}

-- An expression compiles if it has something in it.
abbrev compiled : Bytes → Option Bytes
compiled [] = none
compiled (c ∷ s) = some (c ∷ s)

abbrev spelling : Regexp Bytes
spelling = record { compile = compiled; match_string = bytes_eq }

abbrev keys : List Bytes
keys = codes "user:1" ∷ codes "post:1" ∷ codes "user:2" ∷ []

abbrev used : PatternMatcher Bytes
used = record { regex_cache = (codes "user:[0-9]", codes "user:[0-9]") ∷ [] }

used-IsCompiled : IsCompiled spelling used
unfolding lookup
used-IsCompiled pattern r e = ground (arith, bytes_eq_iff (codes "user:[0-9]") pattern)

match-pure_example :
    ((Patterns.match spelling (codes "user:[0-9]") keys used).1
      ≡ (Patterns.match spelling (codes "user:[0-9]") keys new_pattern_matcher).1)
    × IsCompiled spelling (Patterns.match spelling (codes "user:[0-9]") keys used).0
match-pure_example = match-pure spelling (codes "user:[0-9]") keys used used-IsCompiled

no_star : contains asterisk (codes "user:") ≡ false
unfolding contains has_prefix
no_star = refl

match-prefix_example :
    ((Patterns.match spelling (codes "user:" ++ asterisk) keys used).1
      ≡ filter (has_prefix (codes "user:")) keys)
    × ((key : Bytes)
        → matches_pattern key
            (codes "user:" ++ asterisk)
            (trim_suffix asterisk (codes "user:" ++ asterisk))
          ≡ has_prefix (codes "user:") key)
match-prefix_example = match-prefix spelling (codes "user:") keys used no_star

no_star_after : contains asterisk (codes ":1") ≡ false
unfolding contains has_prefix
no_star_after = refl

match-suffix_example :
    ((Patterns.match spelling (codes "*:1") keys used).1 ≡ filter (has_suffix (codes ":1")) keys)
    × ((key : Bytes)
        → matches_pattern key (codes "*:1") (trim_suffix asterisk (codes "*:1"))
          ≡ bytes_eq key (codes "*:1"))
match-suffix_example = match-suffix spelling b':' (codes "1") keys used no_star_after

abbrev world : Environment (List Event)
world = record {
  publish = λ event w. (true, event ∷ w);
  insert_log = λ log w. (true, w);
  get_recent = λ limit offset pattern w. some [];
  get_count = λ pattern w. none;
  marshal_keys = λ keys. codes "many";
  generate_request_id = λ t. codes "inv";
}

abbrev service : Service (List Event) Bytes
service = record {
  pattern_matcher = new_pattern_matcher;
  metrics = record {
    total_invalidations = 0;
    key_invalidations = 0;
    pattern_invalidations = 0;
    audit_writes = 0;
    pub_sub_publishes = 0;
    errors = 0;
  };
  pending = [];
  outside = [];
}

abbrev doubled : KeyRequest
doubled = record {
  keys = codes "a" ∷ codes "b" ∷ codes "a" ∷ [];
  triggered_by = [];
  request_id = [];
}

invalidate_key_outcomes_example :
    (event : Event) × IsEventOf world spelling (pos 1) (pos 2) doubled event
    × (((world.publish event []).0 ≡ true)
          × Published world spelling event
              (format_keys_as_pattern world spelling event.matched_keys)
              service
              (invalidate_key world spelling (pos 1) (pos 2) doubled service)
        ⊎ ((world.publish event []).0 ≡ false)
          × NotPublished world spelling event service
              (invalidate_key world spelling (pos 1) (pos 2) doubled service))
invalidate_key_outcomes_example =
    invalidate_key_outcomes world spelling (pos 1) (pos 2) (codes "a") (codes "b" ∷ codes "a" ∷ [])
      [] [] service

get_audit_logs_lem_example :
    (page : Page) × ((get_audit_logs world spelling (pos 0) (pos 0) [] service).1 ≡ some page)
    × (page.logs ≡ take (pos_part (page_limit (pos 0))) [])
    × (length page.logs ≤ 1000)
    × ((page.has_more ≡ true) ↔ (pos_part (page_limit (pos 0)) < 0))
get_audit_logs_lem_example = get_audit_logs_lem world spelling (pos 0) (pos 0) [] service [] refl
