-- ===== src/Alerts/Memory.antt =====
-- A back end that keeps its rows in a list, newest first: an instance of what the alert code asks of
-- its back end.
use intell_api.Prelude.{
  ℕ, ◌≡◌, ◌≢◌, ◌⊎◌, refl, String, ◌&&◌, Option, none, some, List, [], ◌∷◌, arith, if◌then◌else◌,
  str_eq, eq_iff, eq_refl,
}
use intell_api.Common.Enums.{AlertType, type_eq, type_eq_iff}
use intell_api.Exec.{Error, Result, Exec, ok, err}
use intell_api.Alerts.Entity.{AlertColumns, Alert, AlertJob}
use intell_api.Alerts.Backend.{Backend, BackendLaws}

pub record Memory : Type 0 where
  pub time : ℕ
  pub rows : List Alert
  pub queue : List AlertJob

abbrev pub newest : String → AlertType → List Alert → Option Alert
newest u t [] = none
newest u t (a ∷ rows) =
    let rest = newest u t rows in if str_eq a.user_id u && type_eq a.type t then some a else rest

abbrev pub save_row : AlertColumns → Exec Memory Alert
save_row c m =
    let a : Alert = record { id = "alert"; created_at = m.time; columns = c } in
    (ok a, record m { rows = a ∷ m.rows })

abbrev pub memory_backend : Backend
memory_backend = record {
  World = Memory;
  now = λ m. m.time;
  find_inverter = λ id m. ok none;
  find_settings = λ u m. ok none;
  find_latest = λ u t m. ok (newest u t m.rows);
  insert = save_row;
  enqueue = λ j m. (ok tt, record m { queue = j ∷ m.queue });
}

pub save_row-columns :
    (c : AlertColumns) (w w' : Memory) (a : Alert) → save_row c w ≡ (ok a, w') → a.columns ≡ c
save_row-columns c w w' a e = ground arith

pub save_row-newest :
    (c : AlertColumns) (w w' : Memory) (a : Alert)
    → save_row c w ≡ (ok a, w')
    → ◌≡◌ {A = Result (Option Alert)} (ok (newest c.user_id c.type w'.rows)) (ok (some a))
save_row-newest c w w' a e = ground (arith, eq_refl c.user_id)

pub save_row-elsewhere :
    (c : AlertColumns) (w w' : Memory) (a : Alert) (u : String) (t : AlertType)
    → save_row c w ≡ (ok a, w')
    → (u ≢ c.user_id) ⊎ (t ≢ c.type)
    → ◌≡◌ {A = Result (Option Alert)} (ok (newest u t w'.rows)) (ok (newest u t w.rows))
save_row-elsewhere c w w' a u t e ne = ground (arith, eq_iff c.user_id u, type_eq_iff c.type t)

pub save_row-failed :
    (c : AlertColumns) (w w' : Memory) (e : Error) (u : String) (t : AlertType)
    → save_row c w ≡ (err e, w')
    → ◌≡◌ {A = Result (Option Alert)} (ok (newest u t w'.rows)) (ok (newest u t w.rows))
save_row-failed c w w' e u t h = absurd (ground arith)

abbrev pub memory_laws : BackendLaws memory_backend
memory_laws = record {
  insert_columns = save_row-columns;
  insert_latest = save_row-newest;
  insert_elsewhere = save_row-elsewhere;
  insert_failed = save_row-failed;
  insert_settings = λ c w u. refl;
  enqueue_settings = λ j w u. refl;
  enqueue_latest = λ j w u t. refl;
}
