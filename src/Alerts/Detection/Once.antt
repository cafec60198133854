-- ===== src/Alerts/Detection/Once.antt =====
-- At most one alert of a kind: a second evaluation of the same metric changes nothing.
pub mod Evaluation
use intell_api.Prelude.{
  ℕ, ◌≤◌, ◌≡◌, ◌≢◌, inl, inr, refl, String, Bool, true, false, Option, none, some, arith, ◌∙◌,
  Bool-cases,
}
use intell_api.Common.Enums.{AlertType}
use intell_api.Exec.{Error, Result, ok, err}
use intell_api.Exec.Laws.{Result-cases}
use intell_api.Alerts.Entity.{Alert, AlertColumns, AlertJob}
use intell_api.Alerts.Backend.{Backend, BackendLaws}
use intell_api.Alerts.Suppression.{
  DuplicateCheckInput, is_duplicate, judge, severity_order, is_unresolved,
}
use intell_api.Alerts.Detection.{
  AlertParams, columns_of, job_for, deferred_until, quiet_window, is_some, save_and_enqueue,
  save_and_dispatch_alert,
}

abbrev check_of : AlertParams → DuplicateCheckInput
check_of p = record { user_id = p.inverter.user_id; type = p.alert_type; severity = p.severity }

-- The newest alert of the kind is open, and at least as severe as the proposed one.
pub record Covers (p : AlertParams) (a : Alert) : Type 0 where
  pub open_ : is_unresolved a.resolution_status ≡ true
  pub severe : severity_order p.severity ≤ severity_order a.severity

judge-Covers :
    (p : AlertParams) (a : Alert) (now : ℕ)
    → Covers p a
    → (judge (some a) (check_of p) p.cooldown now).is_duplicate ≡ true
unfolding judge
judge-Covers p a now c = ground arith

-- An open alert that suppresses covers the proposed one.
Covers-judge :
    (p : AlertParams) (a : Alert) (now : ℕ)
    → (judge (some a) (check_of p) p.cooldown now).is_duplicate ≡ true
    → is_unresolved a.resolution_status ≡ true
    → Covers p a
unfolding judge
Covers-judge p a now h open_ = ground arith

columns_of-Covers :
    (p : AlertParams) (a : Alert) (time : ℕ) (d : Bool)
    → a.columns ≡ columns_of p time d
    → Covers p a
unfolding columns_of
columns_of-Covers p a time d e = ground arith

module _ (b : Backend) (laws : BackendLaws b) where
  open b use {World, now, find_latest, find_settings, insert, enqueue}

  latest : AlertParams → World → Result (Option Alert)
  latest p = find_latest p.inverter.user_id p.alert_type

  -- the answer of the duplicate check at `w`, for the row that it finds
  answer : AlertParams → Option Alert → World → Bool
  answer p o w = (judge o (check_of p) p.cooldown (now w)).is_duplicate

  save_suppressed :
      (p : AlertParams) (w : World) (o : Option Alert)
      → latest p w ≡ ok o
      → answer p o w ≡ true
      → save_and_dispatch_alert b p w ≡ (ok tt, w)
  unfolding save_and_dispatch_alert is_duplicate latest answer
  save_suppressed p w o e d = rw (e, d)

  save_fresh :
      (p : AlertParams) (w : World) (o : Option Alert)
      → latest p w ≡ ok o
      → answer p o w ≡ false
      → save_and_dispatch_alert b p w ≡ save_and_enqueue b p (now w) w
  unfolding save_and_dispatch_alert is_duplicate latest answer
  save_fresh p w o e d = rw (e, d)

  save_unread :
      (p : AlertParams) (w : World) (x : Error)
      → latest p w ≡ err x
      → save_and_dispatch_alert b p w ≡ (err x, w)
  unfolding save_and_dispatch_alert is_duplicate latest
  save_unread p w x e = rw e

  -- the row that is inserted
  row : AlertParams → ℕ → AlertColumns
  row p time =
      columns_of p time
        (is_some (deferred_until (quiet_window p.settings p.timezone) p.severity time))

  job : AlertParams → ℕ → Alert → AlertJob
  job p time a =
      job_for a (deferred_until (quiet_window p.settings p.timezone) p.severity time) time

  enqueue_ok :
      (p : AlertParams) (time : ℕ) (w : World) (a : Alert)
      → (insert (row p time) w).0 ≡ ok a
      → save_and_enqueue b p time w ≡ enqueue (job p time a) (insert (row p time) w).1
  unfolding save_and_enqueue row job
  enqueue_ok p time w a e = rw e

  enqueue_err :
      (p : AlertParams) (time : ℕ) (w : World) (x : Error)
      → (insert (row p time) w).0 ≡ err x
      → save_and_enqueue b p time w ≡ (err x, (insert (row p time) w).1)
  unfolding save_and_enqueue row
  enqueue_err p time w x e = rw e

  pairing :
      (p : AlertParams) (time : ℕ) (w : World) (r : Result Alert)
      → (insert (row p time) w).0 ≡ r
      → insert (row p time) w ≡ (r, (insert (row p time) w).1)
  pairing p time w r e = λ i. (e i, (insert (row p time) w).1)

  -- Whatever comes of the insertion and the queue, other kinds of alerts are as before.
  enqueue_elsewhere :
      (p : AlertParams) (time : ℕ) (w : World) (u : String) (t : AlertType)
      → t ≢ p.alert_type
      → find_latest u t (save_and_enqueue b p time w).1 ≡ find_latest u t w
  unfolding row columns_of
  enqueue_elsewhere p time w u t ne =
      let w1 = (insert (row p time) w).1 in
      elim (Result-cases (insert (row p time) w).0) [
        | inl (a, e) ↦ rw (enqueue_ok p time w a e) (
            laws.enqueue_latest (job p time a) w1 u t
            ∙ laws.insert_elsewhere (row p time) w w1 a u t (pairing p time w (ok a) e) (inr ne))
        | inr (x, e) ↦
            rw (enqueue_err p time w x e)
              (laws.insert_failed (row p time) w w1 x u t (pairing p time w (err x) e))
      ]

  enqueue_keeps_settings :
      (p : AlertParams) (time : ℕ) (w : World) (u : String)
      → find_settings u (save_and_enqueue b p time w).1 ≡ find_settings u w
  enqueue_keeps_settings p time w u =
      let w1 = (insert (row p time) w).1 in
      elim (Result-cases (insert (row p time) w).0) [
        | inl (a, e) ↦
            rw (enqueue_ok p time w a e)
              (laws.enqueue_settings (job p time a) w1 u ∙ laws.insert_settings (row p time) w u)
        | inr (x, e) ↦ rw (enqueue_err p time w x e) (laws.insert_settings (row p time) w u)
      ]

  -- After a save that succeeds the newest alert of the kind covers the proposed one.
  enqueue-Covers :
      (p : AlertParams) (time : ℕ) (w : World)
      → (save_and_enqueue b p time w).0 ≡ ok tt
      → (a : Alert) × (latest p (save_and_enqueue b p time w).1 ≡ ok (some a)) × Covers p a
  unfolding latest row columns_of
  enqueue-Covers p time w done =
      let w1 = (insert (row p time) w).1 in
      elim (Result-cases (insert (row p time) w).0) [
        | inl (a, e) ↦ (
          a,
          rw (enqueue_ok p time w a e) (
              laws.enqueue_latest (job p time a) w1 p.inverter.user_id p.alert_type
              ∙ laws.insert_latest (row p time) w w1 a (pairing p time w (ok a) e)),
          columns_of-Covers p a time _
              (laws.insert_columns (row p time) w w1 a (pairing p time w (ok a) e)),
        )
        | inr (x, e) ↦ absurd (ground (arith, enqueue_err p time w x e))
      ]

  -- No resolved alert stands in for the kind: the newest one, if any, is open.
  IsOpen : AlertParams → World → Type 0
  IsOpen p w = (a : Alert) → latest p w ≡ ok (some a) → is_unresolved a.resolution_status ≡ true

  IsCovered : AlertParams → World → Type 0
  IsCovered p w = (a : Alert) × (latest p w ≡ ok (some a)) × Covers p a

  answer-some :
      (p : AlertParams) (o : Option Alert) (w : World)
      → answer p o w ≡ true
      → (a : Alert) × (o ≡ some a)
  unfolding answer judge
  answer-some p none w h = cc
  answer-some p (some a) w h = (a, refl)

  save_covers :
      (p : AlertParams) (w : World)
      → IsOpen p w
      → (save_and_dispatch_alert b p w).0 ≡ ok tt
      → IsCovered p (save_and_dispatch_alert b p w).1
  unfolding IsOpen IsCovered
  save_covers p w open_ done = elim (Result-cases (latest p w)) [
    | inr (x, e) ↦ absurd (ground (arith, save_unread p w x e))
    | inl (o, e) ↦ elim (Bool-cases (answer p o w)) [
      | inl d ↦
          let (a, same) = answer-some p o w d in
          rw (save_suppressed p w o e d) (
            a,
            rw same at e,
            Covers-judge p a (now w) (unfold answer in rw same at d) (open_ a (rw same at e)),
          )
      | inr d ↦
          rw (save_fresh p w o e d) (enqueue-Covers p (now w) w (rw (save_fresh p w o e d) at done))
    ]
  ]

  save_elsewhere :
      (p : AlertParams) (w : World) (u : String) (t : AlertType)
      → t ≢ p.alert_type
      → find_latest u t (save_and_dispatch_alert b p w).1 ≡ find_latest u t w
  save_elsewhere p w u t ne = elim (Result-cases (latest p w)) [
    | inr (x, e) ↦ rw (save_unread p w x e)
    | inl (o, e) ↦ elim (Bool-cases (answer p o w)) [
      | inl d ↦ rw (save_suppressed p w o e d)
      | inr d ↦ rw (save_fresh p w o e d) (enqueue_elsewhere p (now w) w u t ne)
    ]
  ]

  save_keeps_settings :
      (p : AlertParams) (w : World) (u : String)
      → find_settings u (save_and_dispatch_alert b p w).1 ≡ find_settings u w
  save_keeps_settings p w u = elim (Result-cases (latest p w)) [
    | inr (x, e) ↦ rw (save_unread p w x e)
    | inl (o, e) ↦ elim (Bool-cases (answer p o w)) [
      | inl d ↦ rw (save_suppressed p w o e d)
      | inr d ↦ rw (save_fresh p w o e d) (enqueue_keeps_settings p (now w) w u)
    ]
  ]

  save_of_IsCovered :
      (p : AlertParams) (w : World) → IsCovered p w → save_and_dispatch_alert b p w ≡ (ok tt, w)
  unfolding IsCovered
  save_of_IsCovered p w (a, e, c) =
      save_suppressed p w (some a) e (unfold answer in judge-Covers p a (now w) c)
