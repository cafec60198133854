-- ===== src/Alerts/Backend.antt =====
-- What the alert code uses of code that is not in the repository: the tables behind the TypeORM
-- repositories, the BullMQ queue and the clock. Every operation but the clock may fail.
use intell_api.Prelude.{ℕ, String, Option, some, ◌≡◌, ◌⊎◌, ◌≢◌}
use intell_api.Common.Enums.{AlertType}
use intell_api.Exec.{Result, Exec, Error, ok, err}
use intell_api.Users.{UserSettings}
use intell_api.Inverters.{Inverter}
use intell_api.Alerts.Entity.{AlertColumns, Alert, AlertJob}

pub record Backend : Type 1 where
  pub World : Type 0
  -- Date.now()
  pub now : World → ℕ
  -- inverterRepo.findOne({ where: { id } })
  pub find_inverter : String → World → Result (Option Inverter)
  -- userSettingsRepo.findOne({ where: { user: { id } } })
  pub find_settings : String → World → Result (Option UserSettings)
  -- alertRepo.findOne({ where: { userId, type }, order: { createdAt: 'DESC' } })
  pub find_latest : String → AlertType → World → Result (Option Alert)
  -- alertRepo.save(alertRepo.create(columns))
  pub insert : AlertColumns → Exec World Alert
  -- alertQueue.add(name, data, options)
  pub enqueue : AlertJob → Exec World (Unit {0})

-- The documented behaviour that the proofs rely on.
pub record BackendLaws (b : Backend) : Type 0 where
  -- A saved entity carries the columns that were given to `create`.
  pub insert_columns :
      (c : AlertColumns) (w w' : b.World) (a : Alert) → b.insert c w ≡ (ok a, w') → a.columns ≡ c
  -- A new row has the newest creation date of its user and type.
  pub insert_latest :
      (c : AlertColumns) (w w' : b.World) (a : Alert)
      → b.insert c w ≡ (ok a, w')
      → b.find_latest c.user_id c.type w' ≡ ok (some a)
  -- A new row is no row of another user or type.
  pub insert_elsewhere :
      (c : AlertColumns) (w w' : b.World) (a : Alert) (u : String) (t : AlertType)
      → b.insert c w ≡ (ok a, w')
      → (u ≢ c.user_id) ⊎ (t ≢ c.type)
      → b.find_latest u t w' ≡ b.find_latest u t w
  -- A save that fails adds no row.
  pub insert_failed :
      (c : AlertColumns) (w w' : b.World) (e : Error) (u : String) (t : AlertType)
      → b.insert c w ≡ (err e, w')
      → b.find_latest u t w' ≡ b.find_latest u t w
  -- Neither the queue nor the table of alerts is the table of settings.
  pub insert_settings :
      (c : AlertColumns) (w : b.World) (u : String)
      → b.find_settings u (b.insert c w).1 ≡ b.find_settings u w
  pub enqueue_settings :
      (j : AlertJob) (w : b.World) (u : String)
      → b.find_settings u (b.enqueue j w).1 ≡ b.find_settings u w
  -- The queue is not the table of alerts.
  pub enqueue_latest :
      (j : AlertJob) (w : b.World) (u : String) (t : AlertType)
      → b.find_latest u t (b.enqueue j w).1 ≡ b.find_latest u t w
