-- ===== src/Examples/Monitors.antt =====
-- The monitoring service on concrete inputs: alerts on a number that is too large, and a ring of three.
use distributed_caching_syst.Prelude.{
  ℕ, ◌≡◌, false, some, none, List, [], ◌∷◌, ltb, arith, if◌then◌else◌,
}
use distributed_caching_syst.Prelude.Int.{pos}
use distributed_caching_syst.GoString.{Bytes, codes, bytes_key}
use distributed_caching_syst.Monitoring.Alerts.{Alert, AlertRule}
use distributed_caching_syst.Monitoring.Alerts.Registry.{Named}
use distributed_caching_syst.Monitoring.RingBuffer.{new_ring_buffer, add_all, get_all}
use distributed_caching_syst.Monitoring.RingBuffer.Contents.{get_all-filling}

abbrev alert_for : Bytes → ℕ → Alert ℕ
alert_for id n = record {
  id = id;
  severity = codes "warning";
  current_value = n;
  threshold = 10;
  message = [];
  triggered_at = pos 0;
  resolved_at = none;
  duration = pos 0;
  resolved = false;
}

abbrev above : Bytes → ℕ → AlertRule ℕ ℕ
above id limit = record {
  id = id;
  evaluate = λ n. if ltb limit n then some (alert_for id n) else none;
}

abbrev rules : List (AlertRule ℕ ℕ)
rules = above (codes "high") 10 ∷ above (codes "higher") 20 ∷ []

rules-Named : Named 15 rules
rules-Named = (λ alert e. ground arith, (λ alert e. ground arith, tt))

get_all-filling_example : get_all {A = ℕ} (add_all (7 ∷ 8 ∷ []) (new_ring_buffer 0 3)) ≡ []
get_all-filling_example = get_all-filling 0 3 (7 ∷ 8 ∷ []) (omega arith)
