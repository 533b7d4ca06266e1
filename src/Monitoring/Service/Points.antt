-- ===== src/Monitoring/Service/Points.antt =====
-- The intervals of `GetAggregated` of monitoring/service.go.
use mathlib.Core.Path.{subst}
use distributed_caching_syst.Prelude.{
  ℕ, zero, suc, ◌+◌, ◌≤◌, ◌≡◌, refl, sym, ap, ◌⊎◌, inl, inr, true, false, Option, none, some, List,
  [], ◌∷◌, if◌then◌else◌, map, arith, ltb→lt, Bool-cases, if_cases,
}
use distributed_caching_syst.Prelude.Int.{
  ℤ, pos, pos_part, neg_part, ◌+ℤ◌, ◌-ℤ◌, ◌≤ℤ◌, ◌<ℤ◌, ltb_ℤ, leb_ℤ, +ℤ_parts, -ℤ_parts, eq_of_parts,
  neg_part-eq-zero,
}
use distributed_caching_syst.GoString.{Bytes}
use distributed_caching_syst.Monitoring.Floats.{Floats}
use distributed_caching_syst.Monitoring.Collector.{MetricsCollector}
use distributed_caching_syst.Monitoring.Aggregator.{Aggregator, get_stats}
use distributed_caching_syst.Monitoring.Service.{
  end_before_start, invalid_interval, interval_not_positive, Reply, ok, err, AggregatedDataPoint,
  GetAggregatedRequest, GetAggregatedResponse, data_point, points_loop, get_aggregated, or_minute,
}

-- Spans that follow each other from the start to the end, each of one interval but for the last, which can be shorter.
abbrev pub Tiles : ℤ → ℤ → ℤ → List (ℤ × ℤ) → Type 0
Tiles interval start end [] = start ≡ end
Tiles interval start end ((current, next) ∷ spans) =
    (current ≡ start)
    × (current <ℤ next)
    × ((next ≡ current +ℤ interval) ⊎ ((next ≡ end) × (next ≤ℤ (current +ℤ interval))))
    × Tiles interval next end spans

next_end : (interval end current : ℤ) → ℤ
next_end interval end current = if ltb_ℤ end (current +ℤ interval) then end else current +ℤ interval

module _ (interval end current : ℤ) where
  next-span :
      pos 0 <ℤ interval
      → current <ℤ end
      → (current <ℤ next_end interval end current)
        × (next_end interval end current ≤ℤ end)
        × ((next_end interval end current ≡ current +ℤ interval)
            ⊎ ((next_end interval end current ≡ end)
                × (next_end interval end current ≤ℤ (current +ℤ interval))))
  unfolding next_end
  next-span positive before = elim (Bool-cases (ltb_ℤ end (current +ℤ interval))) [
    | inl e ↦ rw e (before, omega arith, inr (refl, ground (arith, e)))
    | inr e ↦ rw e (omega (arith, +ℤ_parts current interval), ground (arith, e), inl refl)
  ]

difference : (a b : ℤ) → a ≤ℤ b → neg_part (b -ℤ a) ≡ 0
difference a b h = neg_part-eq-zero (b -ℤ a) (omega (arith, -ℤ_parts b a))

closer :
    (fuel : ℕ) (current next end : ℤ)
    → current <ℤ next
    → next ≤ℤ end
    → pos_part (end -ℤ current) ≤ suc fuel
    → pos_part (end -ℤ next) ≤ fuel
closer fuel current next end step within enough = omega (
  arith,
  -ℤ_parts end current,
  -ℤ_parts end next,
  difference current end (omega arith),
  difference next end within,
)

backwards : (start end : ℤ) → start ≤ℤ end → ltb_ℤ end start ≡ true → ⊥
backwards start end within e = ground arith

not_positive : (interval : ℤ) → pos 0 <ℤ interval → leb_ℤ interval (pos 0) ≡ true → ⊥
not_positive interval positive e = ground arith

none_left : (current end : ℤ) → pos_part (end -ℤ current) ≤ 0 → ltb_ℤ current end ≡ true → ⊥
none_left current end enough before = omega (
  arith,
  -ℤ_parts end current,
  ltb→lt (pos_part current + neg_part end) (pos_part end + neg_part current) before,
)

at_end : (current end : ℤ) → current ≤ℤ end → ltb_ℤ current end ≡ false → current ≡ end
at_end current end within e = eq_of_parts current end (ground (arith, e))

module _ {F : Type 0} (floats : Floats F) (parse_duration : Bytes → Option ℤ)
    (mc : MetricsCollector F) (a : Aggregator F) where
  -- What the loop replies are the statistics of spans that tile what is left.
  record Tiled (interval end current : ℤ) (reply : Option (List (AggregatedDataPoint F)))
      : Type 0 where
    spans : List (ℤ × ℤ)
    tiles : Tiles interval current end spans
    points : reply ≡ some (map (data_point floats parse_duration mc a) spans)

  points_loop-Tiled :
      (fuel : ℕ) (interval end current : ℤ)
      → pos 0 <ℤ interval
      → current ≤ℤ end
      → pos_part (end -ℤ current) ≤ fuel
      → Tiled interval end current
          (points_loop floats parse_duration fuel interval end current mc a)
  unfolding points_loop next_end
  points_loop-Tiled zero interval end current positive within enough =
      if_cases (Tiled interval end current) (ltb_ℤ current end) none _
        (λ e. absurd (none_left current end enough e))
        (λ e. record { spans = []; tiles = at_end current end within e; points = refl })
  points_loop-Tiled (suc fuel) interval end current positive within enough =
      if_cases (Tiled interval end current) (ltb_ℤ current end) _ _
        (λ before.
          let (later, within', span) =
            next-span interval end current positive (ground (arith, before)) in
          let rest =
            points_loop-Tiled fuel interval end (next_end interval end current) positive within'
              (closer fuel current (next_end interval end current) end later within' enough) in
          subst
            (λ (o : Option (List (AggregatedDataPoint F))). Tiled interval end current (elim o [
              | none ↦ none
              | some points ↦ some (
                  data_point floats parse_duration mc a (current, next_end interval end current)
                  ∷ points)
            ]))
            (sym rest.points)
            (record {
              spans = (current, next_end interval end current) ∷ rest.spans;
              tiles = (refl, later, span, rest.tiles);
              points = refl;
            }))
        (λ e. record { spans = []; tiles = at_end current end within e; points = refl })

  -- Where the start is not after the end and the interval parses to a positive duration,
  -- `GetAggregated` replies the summary and the points of spans that follow each other from start
  -- to end, each one interval long or cut off at the end.
  pub get_aggregated-Tiles :
      (req : GetAggregatedRequest) (interval : ℤ)
      → req.start_time ≤ℤ req.end_time
      → parse_duration (or_minute req.interval) ≡ some interval
      → pos 0 <ℤ interval
      → (spans : List (ℤ × ℤ)) × Tiles interval req.start_time req.end_time spans
        × (get_aggregated floats parse_duration req mc a
            ≡ some (
                ok (record {
                  data_points = map (data_point floats parse_duration mc a) spans;
                  summary = get_stats floats req.start_time req.end_time mc a;
                })))
  unfolding get_aggregated
  get_aggregated-Tiles req interval within parsed positive =
      let t =
        points_loop-Tiled (pos_part (req.end_time -ℤ req.start_time)) interval req.end_time
          req.start_time positive within (omega arith) in
      let summary = get_stats floats req.start_time req.end_time mc a in
      let finish = λ (o : Option (List (AggregatedDataPoint F))).
        elim o as (λ _. Option (Reply (GetAggregatedResponse F))) [
          | none ↦ none
          | some points ↦ some (ok (record { data_points = points; summary = summary }))
        ] in
      let Replies = λ (r : Option (Reply (GetAggregatedResponse F))).
        r
        ≡ some (
            ok (record {
              data_points = map (data_point floats parse_duration mc a) t.spans;
              summary = summary;
            })) in
      (
        t.spans,
        t.tiles,
        if_cases Replies (ltb_ℤ req.end_time req.start_time) (some (err end_before_start)) _
            (λ e. absurd (backwards req.start_time req.end_time within e))
            (λ _.
              subst
                (λ (o : Option ℤ). Replies (elim o [
                  | none ↦ some (err invalid_interval)
                  | some interval ↦
                      if leb_ℤ interval (pos 0)
                      then some (err interval_not_positive)
                      else finish (
                          points_loop floats parse_duration
                            (pos_part (req.end_time -ℤ req.start_time)) interval req.end_time
                            req.start_time mc a)
                ]))
                (sym parsed)
                (if_cases Replies (leb_ℤ interval (pos 0)) (some (err interval_not_positive)) _
                  (λ e. absurd (not_positive interval positive e)) (λ _. ap finish t.points))),
      )
