-- ===== src/Monitoring/Alerts.antt =====
-- monitoring/alerts.go. A rule is its id with its test of the aggregated statistics, whose thresholds are
-- floats: statistics `T` and values `V` are types of the model's user. An int64 counter is its bit
-- pattern.
pub mod Registry
use distributed_caching_syst.Prelude.{
  ℕ, ◌+◌, ◌-◌, ◌/◌, ◌%◌, ◌^◌, Bool, true, false, Option, none, some, List, [], ◌∷◌, ◌++◌,
  if◌then◌else◌, length, take, drop, ltb, map,
}
use distributed_caching_syst.Prelude.Int.{ℤ, pos, negsuc, pos_part, ◌-ℤ◌, ltb_ℤ}
use distributed_caching_syst.GoMap.{lookup, insert, delete}
use distributed_caching_syst.GoString.{Bytes, bytes_eq, bytes_key}

pub record Alert (V : Type 0) : Type 0 where
  pub id : Bytes
  pub severity : Bytes
  pub current_value : V
  pub threshold : V
  pub message : Bytes
  pub triggered_at : ℤ
  pub resolved_at : Option ℤ
  pub duration : ℤ
  pub resolved : Bool

pub record AlertRule (T V : Type 0) : Type 0 where
  pub id : Bytes
  pub evaluate : T → Option (Alert V)

pub record AlertManager (V : Type 0) : Type 0 where
  pub active_alerts : List (Bytes × Alert V)
  pub resolved_alerts : List (Alert V)
  pub total_triggered : ℕ
  pub total_resolved : ℕ
  pub total_duration : ℕ

abbrev pub add_int64 : ℕ → ℕ → ℕ
add_int64 a b = (a + b) % 2 ^ 64

-- `Duration.Milliseconds` as a bit pattern; the division rounds towards zero.
abbrev pub milliseconds : ℤ → ℕ
milliseconds (pos n) = n / 1000000 % 2 ^ 64
milliseconds (negsuc n) = (2 ^ 64 - (n + 1) / 1000000 % 2 ^ 64) % 2 ^ 64

-- How many resolved alerts are kept.
abbrev pub kept_alerts : ℕ
kept_alerts = 100

module _ {V : Type 0} where
  abbrev pub new_alert_manager : AlertManager V
  new_alert_manager = record {
    active_alerts = [];
    resolved_alerts = [];
    total_triggered = 0;
    total_resolved = 0;
    total_duration = 0;
  }

  unfoldable pub trigger_alert : ℤ → Alert V → AlertManager V → AlertManager V
  trigger_alert now alert am = elim (lookup alert.id am.active_alerts) [
    | some existing ↦ record am {
      active_alerts =
          insert alert.id
            (record existing { current_value = alert.current_value; message = alert.message })
            am.active_alerts;
    }
    | none ↦ record am {
      active_alerts = insert alert.id (record alert { triggered_at = now }) am.active_alerts;
      total_triggered = add_int64 am.total_triggered 1;
    }
  ]

  abbrev pub resolved_at_now : ℤ → Alert V → Alert V
  resolved_at_now now alert = record alert {
    resolved_at = some now;
    duration = now -ℤ alert.triggered_at;
    resolved = true;
  }

  -- The last hundred.
  unfoldable pub keep_last : List (Alert V) → List (Alert V)
  keep_last alerts =
      if ltb kept_alerts (length alerts) then drop (length alerts - kept_alerts) alerts else alerts

  unfoldable pub resolve_alert : ℤ → Bytes → AlertManager V → AlertManager V
  resolve_alert now alert_id am = elim (lookup alert_id am.active_alerts) [
    | none ↦ am
    | some alert ↦ record {
      active_alerts = delete alert_id am.active_alerts;
      resolved_alerts = keep_last (am.resolved_alerts ++ resolved_at_now now alert ∷ []);
      total_triggered = am.total_triggered;
      total_resolved = add_int64 am.total_resolved 1;
      total_duration = add_int64 am.total_duration (milliseconds (now -ℤ alert.triggered_at));
    }
  ]

  module _ {T : Type 0} where
    -- One round over the rules; `clock i` is what the clock reads for the i-th of them.
    unfoldable pub evaluate_rules :
        (ℕ → ℤ) → T → List (AlertRule T V) → AlertManager V → AlertManager V
    evaluate_rules clock latest [] am = am
    evaluate_rules clock latest (rule ∷ rules) am =
        evaluate_rules (λ i. clock (i + 1)) latest rules
          (elim (rule.evaluate latest) [
            | some alert ↦ trigger_alert (clock 0) alert am
            | none ↦ resolve_alert (clock 0) rule.id am
          ])

  unfoldable pub get_active_alerts : AlertManager V → List (Alert V)
  get_active_alerts am = map (λ x. x.1) am.active_alerts

  reversed : List (Alert V) → List (Alert V) → List (Alert V)
  reversed [] done = done
  reversed (alert ∷ alerts) done = reversed alerts (alert ∷ done)

  -- The last `n`, the newest first; a negative `n` panics in `make`.
  unfoldable pub get_recent_resolved_alerts : ℕ → AlertManager V → List (Alert V)
  unfolding reversed
  get_recent_resolved_alerts n am = take n (reversed am.resolved_alerts [])
