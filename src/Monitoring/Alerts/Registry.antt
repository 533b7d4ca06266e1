-- ===== src/Monitoring/Alerts/Registry.antt =====
-- The alerts of monitoring/alerts.go that are active and those that are kept, over any rounds of the rules.
use distributed_caching_syst.Prelude.{
  ℕ, suc, ◌+◌, ◌-◌, ◌≤◌, ◌≡◌, refl, ap, ◌∙◌, Bool, true, false, Option, none, some, List, [], ◌∷◌,
  ◌++◌, if◌then◌else◌, length, length-drop, arith, inl, inr, Option-cases,
}
use distributed_caching_syst.Prelude.Int.{ℤ, ◌-ℤ◌}
use distributed_caching_syst.GoMap.{
  lookup, insert, delete, Distinct, lookup-insert, lookup-delete, insert-Distinct, delete-Distinct,
  length-insert_new, length-insert_old, length-delete,
}
use distributed_caching_syst.GoString.{Bytes, bytes_eq, bytes_eq_iff, bytes_key}
use distributed_caching_syst.Monitoring.Alerts.{
  Alert, AlertRule, AlertManager, add_int64, milliseconds, kept_alerts, new_alert_manager,
  trigger_alert, resolved_at_now, keep_last, resolve_alert, evaluate_rules,
}

abbrev pub present {ℓ} : {A : Type ℓ} → Option A → Bool
present none = false
present (some _) = true

-- One alert for an id; at most a hundred are kept; and what was triggered is resolved or active, up to the
-- wrap-around of the counters.
pub record IsRegistry {V : Type 0} (am : AlertManager V) : Type 0 where
  pub distinct : Distinct am.active_alerts
  pub bounded : length am.resolved_alerts ≤ kept_alerts
  pub balanced : add_int64 am.total_resolved (length am.active_alerts) ≡ am.total_triggered

module _ {V : Type 0} where
  keep_last-le : (alerts : List (Alert V)) → length (keep_last alerts) ≤ kept_alerts
  unfolding keep_last
  keep_last-le alerts = ground (arith, length-drop (length alerts - kept_alerts) alerts)

  triggered_new :
      (now : ℤ) (alert : Alert V) (am : AlertManager V)
      → lookup alert.id am.active_alerts ≡ none
      → trigger_alert now alert am ≡ record am {
        active_alerts = insert alert.id (record alert { triggered_at = now }) am.active_alerts;
        total_triggered = add_int64 am.total_triggered 1;
      }
  unfolding trigger_alert
  triggered_new now alert am e = ground arith

  triggered_again :
      (now : ℤ) (alert : Alert V) (am : AlertManager V) (old : Alert V)
      → lookup alert.id am.active_alerts ≡ some old
      → trigger_alert now alert am ≡ record am {
        active_alerts =
            insert alert.id
              (record old { current_value = alert.current_value; message = alert.message })
              am.active_alerts;
      }
  unfolding trigger_alert
  triggered_again now alert am old e = ground arith

  trigger_alert-IsRegistry :
      (now : ℤ) (alert : Alert V) {am : AlertManager V}
      → IsRegistry am
      → IsRegistry (trigger_alert now alert am)
  trigger_alert-IsRegistry now alert {am} r =
      elim (Option-cases (lookup alert.id am.active_alerts)) [
        | inl new ↦ rw (triggered_new now alert am new) (record {
          distinct = insert-Distinct _ _ _ r.distinct;
          bounded = r.bounded;
          balanced =
              one_more _ _ _ _
                (length-insert_new alert.id (record alert { triggered_at = now }) am.active_alerts
                  new)
                r.balanced;
        })
        | inr (old, found) ↦ rw (triggered_again now alert am old found) (record {
          distinct = insert-Distinct _ _ _ r.distinct;
          bounded = r.bounded;
          balanced =
              rw
                (length-insert_old alert.id
                  (record old { current_value = alert.current_value; message = alert.message }) old
                  am.active_alerts found)
                r.balanced;
        })
      ]
    where
      one_more :
          (resolved active active' triggered : ℕ)
          → active' ≡ suc active
          → add_int64 resolved active ≡ triggered
          → add_int64 resolved active' ≡ add_int64 triggered 1
      one_more resolved active active' triggered e h = omega arith

  resolved_lem :
      (now : ℤ) (id : Bytes) (am : AlertManager V) (alert : Alert V)
      → lookup id am.active_alerts ≡ some alert
      → resolve_alert now id am ≡ record {
        active_alerts = delete id am.active_alerts;
        resolved_alerts = keep_last (am.resolved_alerts ++ resolved_at_now now alert ∷ []);
        total_triggered = am.total_triggered;
        total_resolved = add_int64 am.total_resolved 1;
        total_duration = add_int64 am.total_duration (milliseconds (now -ℤ alert.triggered_at));
      }
  unfolding resolve_alert
  resolved_lem now id am alert e = ground arith

  resolved_nothing :
      (now : ℤ) (id : Bytes) (am : AlertManager V)
      → lookup id am.active_alerts ≡ none
      → resolve_alert now id am ≡ am
  unfolding resolve_alert
  resolved_nothing now id am e = ground arith

  resolve_alert-IsRegistry :
      (now : ℤ) (id : Bytes) {am : AlertManager V}
      → IsRegistry am
      → IsRegistry (resolve_alert now id am)
  resolve_alert-IsRegistry now id {am} r = elim (Option-cases (lookup id am.active_alerts)) [
    | inl nothing ↦ rw (resolved_nothing now id am nothing) r
    | inr (alert, found) ↦ rw (resolved_lem now id am alert found) (record {
      distinct = delete-Distinct id am.active_alerts r.distinct;
      bounded = keep_last-le (am.resolved_alerts ++ resolved_at_now now alert ∷ []);
      balanced = moved _ _ _ _ (length-delete id alert am.active_alerts found) r.balanced;
    })
  ]
    where
      moved :
          (resolved active active' triggered : ℕ)
          → suc active' ≡ active
          → add_int64 resolved active ≡ triggered
          → add_int64 (add_int64 resolved 1) active' ≡ triggered
      moved resolved active active' triggered e h = omega arith

  present-trigger :
      (now : ℤ) (alert : Alert V) (am : AlertManager V) (id : Bytes)
      → present (lookup id (trigger_alert now alert am).active_alerts)
        ≡ (if bytes_eq alert.id id then true else present (lookup id am.active_alerts))
  present-trigger now alert am id = elim (Option-cases (lookup alert.id am.active_alerts)) [
    | inl new ↦ rw (triggered_new now alert am new) (
        ground
          (arith, lookup-insert alert.id id (record alert { triggered_at = now }) am.active_alerts))
    | inr (old, found) ↦ rw (triggered_again now alert am old found) (
        ground (
          arith,
          lookup-insert alert.id id
              (record old { current_value = alert.current_value; message = alert.message })
              am.active_alerts,
        ))
  ]

  present-resolve :
      (now : ℤ) (gone : Bytes) {am : AlertManager V}
      → IsRegistry am
      → (id : Bytes)
      → present (lookup id (resolve_alert now gone am).active_alerts)
        ≡ (if bytes_eq gone id then false else present (lookup id am.active_alerts))
  present-resolve now gone {am} r id = elim (Option-cases (lookup gone am.active_alerts)) [
    | inl nothing ↦ rw (resolved_nothing now gone am nothing) (ground (arith, bytes_eq_iff gone id))
    | inr (alert, found) ↦
        rw (resolved_lem now gone am alert found)
          (ground (arith, lookup-delete gone id am.active_alerts r.distinct))
  ]

module _ {T V : Type 0} where
  -- What the rules say of an id: the last of them with this id decides, and without one it stays as it was.
  abbrev pub verdict : T → List (AlertRule T V) → Bytes → Bool → Bool
  verdict latest [] id before = before
  verdict latest (rule ∷ rules) id before =
      verdict latest rules id
        (if bytes_eq rule.id id then present (rule.evaluate latest) else before)

  -- The alerts that a rule gives carry the id of the rule.
  abbrev pub Named : T → List (AlertRule T V) → Type 0
  Named latest [] = Unit
  Named latest (rule ∷ rules) =
      ((alert : Alert V) → rule.evaluate latest ≡ some alert → alert.id ≡ rule.id)
      × Named latest rules

  -- A round over rules whose alerts carry their ids keeps a sound registry sound, and after it
  -- exactly those ids are active whose last rule fires; an id without a rule is active as before.
  pub evaluate_rules-verdict :
      (clock : ℕ → ℤ) (latest : T) (rules : List (AlertRule T V)) {am : AlertManager V}
      → IsRegistry am
      → Named latest rules
      → IsRegistry (evaluate_rules clock latest rules am)
        × ((id : Bytes)
            → present (lookup id (evaluate_rules clock latest rules am).active_alerts)
              ≡ verdict latest rules id (present (lookup id am.active_alerts)))
  evaluate_rules-verdict clock latest [] r named = unfold evaluate_rules in (r, λ id. refl)
  evaluate_rules-verdict clock latest (rule ∷ rules) {am} r named =
      elim (Option-cases (rule.evaluate latest)) [
        | inr (alert, fires) ↦
            let (sound, rest) =
              evaluate_rules-verdict (λ i. clock (i + 1)) latest rules
                (trigger_alert-IsRegistry (clock 0) alert r) named.1 in
            rw (one_fires alert fires) (
              sound,
              λ id.
                  rest id
                  ∙ ap (verdict latest rules id)
                      (present-trigger (clock 0) alert am id ∙ decided alert fires id),
            )
        | inl quiet ↦
            let (sound, rest) =
              evaluate_rules-verdict (λ i. clock (i + 1)) latest rules
                (resolve_alert-IsRegistry (clock 0) rule.id r) named.1 in
            rw (one_quiet quiet) (
              sound,
              λ id.
                  rest id
                  ∙ ap (verdict latest rules id)
                      (present-resolve (clock 0) rule.id r id ∙ rw quiet refl),
            )
      ]
    where
      one_fires :
          (alert : Alert V)
          → rule.evaluate latest ≡ some alert
          → evaluate_rules clock latest (rule ∷ rules) am
            ≡ evaluate_rules (λ i. clock (i + 1)) latest rules (trigger_alert (clock 0) alert am)
      one_fires alert e = unfold evaluate_rules in rw e refl

      one_quiet :
          rule.evaluate latest ≡ none
          → evaluate_rules clock latest (rule ∷ rules) am
            ≡ evaluate_rules (λ i. clock (i + 1)) latest rules (resolve_alert (clock 0) rule.id am)
      one_quiet e = unfold evaluate_rules in rw e refl

      decided :
          (alert : Alert V)
          → rule.evaluate latest ≡ some alert
          → (id : Bytes)
          → (if bytes_eq alert.id id then true else present (lookup id am.active_alerts)) ≡ (
              if bytes_eq rule.id id
              then present (rule.evaluate latest)
              else present (lookup id am.active_alerts))
      decided alert e id = rw (e, named.0 alert e) refl

pub new-IsRegistry : {V : Type 0} → IsRegistry (new_alert_manager {V = V})
new-IsRegistry = record { distinct = tt; bounded = omega arith; balanced = omega arith }
