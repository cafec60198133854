-- ===== src/Metrics/Insights/Tests.antt =====
-- Half a charge of five kilowatt-hours, and two kilowatts more load than sun.
use intell_api.Prelude.{◌-◌, ◌*◌, true, none, some, ◌≡◌, refl, arith, round_div}
use intell_api.Prelude.Int.{pos}
use intell_api.Exec.{ok}
use intell_api.Common.Enums.{pms}
use intell_api.Metrics.Insights.{Generator, project, generator_of}
use intell_api.Metrics.Insights.Projections.{project_draining}

-- The assumptions without settings.
abbrev assumed : Generator
assumed = record { fuel_type = pms; price = 1350000; rated_power_kw = 2500; rate = 1300 }

assumed_without_settings : generator_of none ≡ ok assumed
unfolding generator_of
assumed_without_settings = refl

lasts_45_minutes :
    (project 50000 3000 1000 (pos 5000) assumed).estimated_depletion_minutes ≡ some 45
unfolding project round_div
lasts_45_minutes = refl

project_draining_example :
    let p = project 50000 3000 1000 (pos 5000) assumed in
    let usable = (50000 - 20000) * 5000 in
    (p.ngn_at_risk ≡ some (round_div (1300 * 1350000 * usable) (1000000000 * 2500)))
    × (p.additional_savings_ngn ≡ p.ngn_at_risk)
    × (p.target_load_kw ≡ 1000)
    × (p.shed_reaches_steady_state ≡ true)
    × (p.estimated_depletion_minutes ≡ some (round_div (60 * usable) (100000 * (3000 - 1000))))
project_draining_example =
    project_draining 50000 3000 1000 5000 assumed (omega arith) (omega arith) (omega arith)
      (omega arith)
