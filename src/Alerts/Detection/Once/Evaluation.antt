-- ===== src/Alerts/Detection/Once/Evaluation.antt =====
-- The three checks of one metric, one after the other, and a second evaluation of the metric.
use intell_api.Prelude.{
  ◌≡◌, ◌≢◌, inl, inr, refl, sym, ◌∙◌, String, true, Option, none, some, arith, subst,
}
use intell_api.Common.Enums.{AlertType, battery_percentage, solar_gen, power}
use intell_api.Exec.{Error, Exec, ok, err, ◌>>◌}
use intell_api.Exec.Laws.{Result-cases, >>-eq-ok}
use intell_api.Users.{UserSettings}
use intell_api.Inverters.{Inverter, NormalisedMetric}
use intell_api.Alerts.Entity.{Alert}
use intell_api.Alerts.Suppression.{is_unresolved}
use intell_api.Alerts.Backend.{Backend, BackendLaws}
use intell_api.Alerts.Detection.{
  AlertParams, battery_params, solar_params, load_params, base_params, save_and_dispatch_alert,
  dispatch_if, evaluate_body, evaluate_inverter,
}
use intell_api.Alerts.Detection.Once.{
  IsOpen, IsCovered, latest, save_covers, save_elsewhere, save_keeps_settings, save_of_IsCovered,
}

-- A check that raises an alert raises it for the inverter's owner, with the check's type.
abbrev IsFor : Inverter → AlertType → Option AlertParams → Type 0
IsFor i t o = (p : AlertParams) → o ≡ some p → (p.inverter ≡ i) × (p.alert_type ≡ t)

module _ (i : Inverter) (s : Option UserSettings) (m : NormalisedMetric) where
  battery_params-IsFor : IsFor i battery_percentage (battery_params i s m)
  unfolding battery_params base_params
  battery_params-IsFor p e = ground arith

  solar_params-IsFor : IsFor i solar_gen (solar_params i s m)
  unfolding solar_params base_params
  solar_params-IsFor p e = ground arith

  load_params-IsFor : IsFor i power (load_params i s m)
  unfolding load_params base_params
  load_params-IsFor p e = ground arith

module _ (b : Backend) (laws : BackendLaws b) where
  open b use {World, find_latest, find_settings}

  -- The newest alert of the inverter's owner and the type, if any, is open.
  AllOpen : Option AlertParams → World → Type 0
  AllOpen o w = (p : AlertParams) → o ≡ some p → IsOpen b laws p w

  AllCovered : Option AlertParams → World → Type 0
  AllCovered o w = (p : AlertParams) → o ≡ some p → IsCovered b laws p w

  check_covers :
      (o : Option AlertParams) (w : World)
      → AllOpen o w
      → (dispatch_if b o w).0 ≡ ok tt
      → AllCovered o (dispatch_if b o w).1
  unfolding AllOpen AllCovered dispatch_if
  check_covers none w h done p e = cc
  check_covers (some q) w h done p e =
      let same : q ≡ p = cc in
      subst (λ r. IsCovered b laws r (save_and_dispatch_alert b q w).1) same
        (save_covers b laws q w (h q refl) done)

  check_elsewhere :
      (i : Inverter) (t u : AlertType) (o : Option AlertParams) (w : World)
      → IsFor i t o
      → u ≢ t
      → find_latest i.user_id u (dispatch_if b o w).1 ≡ find_latest i.user_id u w
  unfolding dispatch_if
  check_elsewhere i t u none w h ne = refl
  check_elsewhere i t u (some p) w h ne =
      save_elsewhere b laws p w i.user_id u (λ e. ne (e ∙ (h p refl).1))

  check_keeps_settings :
      (o : Option AlertParams) (w : World) (u : String)
      → find_settings u (dispatch_if b o w).1 ≡ find_settings u w
  unfolding dispatch_if
  check_keeps_settings none w u = refl
  check_keeps_settings (some p) w u = save_keeps_settings b laws p w u

  check_of_covered :
      (o : Option AlertParams) (w : World) → AllCovered o w → dispatch_if b o w ≡ (ok tt, w)
  unfolding dispatch_if AllCovered
  check_of_covered none w h = refl
  check_of_covered (some p) w h = save_of_IsCovered b laws p w (h p refl)

  move_covered :
      (i : Inverter) (t : AlertType) (o : Option AlertParams) (w w' : World)
      → IsFor i t o
      → find_latest i.user_id t w' ≡ find_latest i.user_id t w
      → AllCovered o w
      → AllCovered o w'
  unfolding AllCovered IsCovered latest
  move_covered i t o w w' for_ same h p e =
      let (a, at, c) = h p e in
      let (owner, type) = for_ p e in (a, rw (owner, type) (same ∙ (rw (owner, type) at at)), c)

  move_open :
      (i : Inverter) (t : AlertType) (o : Option AlertParams) (w w' : World)
      → IsFor i t o
      → find_latest i.user_id t w' ≡ find_latest i.user_id t w
      → AllOpen o w
      → AllOpen o w'
  unfolding AllOpen IsOpen latest
  move_open i t o w w' for_ same h p e a at =
      let (owner, type) = for_ p e in
      h p e a (rw (owner, type) (sym same ∙ (rw (owner, type) at at)))

  all_open :
      (i : Inverter) (t : AlertType) (o : Option AlertParams) (w : World)
      → IsFor i t o
      → ((t : AlertType) (a : Alert)
          → find_latest i.user_id t w ≡ ok (some a)
          → is_unresolved a.resolution_status ≡ true)
      → AllOpen o w
  unfolding AllOpen IsOpen latest
  all_open i t o w for_ h p e a at = let (owner, type) = for_ p e in h t a (rw (owner, type) at at)

  -- The three checks of one evaluation.
  checks : Option AlertParams → Option AlertParams → Option AlertParams → Exec World (Unit {0})
  checks battery solar load = do dispatch_if b battery; dispatch_if b solar; dispatch_if b load

  checks_covered :
      (o1 o2 o3 : Option AlertParams) (w : World)
      → AllCovered o1 w
      → AllCovered o2 w
      → AllCovered o3 w
      → checks o1 o2 o3 w ≡ (ok tt, w)
  unfolding checks
  checks_covered o1 o2 o3 w c1 c2 c3 =
      rw (check_of_covered o1 w c1, check_of_covered o2 w c2) (check_of_covered o3 w c3)

  module _ (i : Inverter) (o1 o2 o3 : Option AlertParams) (w : World)
      (f1 : IsFor i battery_percentage o1) (f2 : IsFor i solar_gen o2) (f3 : IsFor i power o3)
      (p1 : AllOpen o1 w) (p2 : AllOpen o2 w) (p3 : AllOpen o3 w)
      (done : (checks o1 o2 o3 w).0 ≡ ok tt) where
    checks_keep_settings : (u : String) → find_settings u (checks o1 o2 o3 w).1 ≡ find_settings u w
    unfolding checks
    checks_keep_settings u =
        let w1 = (dispatch_if b o1 w).1 in
        let (d1, s1) = >>-eq-ok (dispatch_if b o1) (dispatch_if b o2 >> dispatch_if b o3) w done in
        let w2 = (dispatch_if b o2 w1).1 in
        let (d2, s2) = >>-eq-ok (dispatch_if b o2) (dispatch_if b o3) w1 (rw s1 at done) in
        let whole : checks o1 o2 o3 w ≡ dispatch_if b o3 w2 = s1 ∙ s2 in
        rw whole (
          check_keeps_settings o3 w2 u ∙ check_keeps_settings o2 w1 u ∙ check_keeps_settings o1 w u)

    checks_again : checks o1 o2 o3 (checks o1 o2 o3 w).1 ≡ (ok tt, (checks o1 o2 o3 w).1)
    unfolding checks
    checks_again =
        let w1 = (dispatch_if b o1 w).1 in
        let (d1, s1) = >>-eq-ok (dispatch_if b o1) (dispatch_if b o2 >> dispatch_if b o3) w done in
        let w2 = (dispatch_if b o2 w1).1 in
        let (d2, s2) = >>-eq-ok (dispatch_if b o2) (dispatch_if b o3) w1 (rw s1 at done) in
        let w3 = (dispatch_if b o3 w2).1 in
        let whole : checks o1 o2 o3 w ≡ dispatch_if b o3 w2 = s1 ∙ s2 in
        let at1 = λ (u : AlertType) (ne : u ≢ battery_percentage).
          check_elsewhere i battery_percentage u o1 w f1 ne in
        let at2 =
          λ (u : AlertType) (ne : u ≢ solar_gen). check_elsewhere i solar_gen u o2 w1 f2 ne in
        let at3 = λ (u : AlertType) (ne : u ≢ power). check_elsewhere i power u o3 w2 f3 ne in
        let c1 = move_covered i battery_percentage o1 w2 w3 f1 (at3 battery_percentage (λ e. cc)) (
          move_covered i battery_percentage o1 w1 w2 f1 (at2 battery_percentage (λ e. cc))
            (check_covers o1 w p1 d1)) in
        let c2 =
          move_covered i solar_gen o2 w2 w3 f2 (at3 solar_gen (λ e. cc)) (
            check_covers o2 w1 (move_open i solar_gen o2 w w1 f2 (at1 solar_gen (λ e. cc)) p2)
              d2) in
        let c3 =
          check_covers o3 w2
            (move_open i power o3 w1 w2 f3 (at2 power (λ e. cc))
              (move_open i power o3 w w1 f3 (at1 power (λ e. cc)) p3))
            (rw whole at done) in
        rw whole (checks_covered o1 o2 o3 w3 c1 c2 c3)

  body-checks :
      (i : Inverter) (m : NormalisedMetric) (w : World) (s : Option UserSettings)
      → find_settings i.user_id w ≡ ok s
      → evaluate_body b i m w
        ≡ checks (battery_params i s m) (solar_params i s m) (load_params i s m) w
  unfolding evaluate_body checks
  body-checks i m w s e = rw e

  body_unread :
      (i : Inverter) (m : NormalisedMetric) (w : World) (x : Error)
      → find_settings i.user_id w ≡ err x
      → evaluate_body b i m w ≡ (err x, w)
  unfolding evaluate_body
  body_unread i m w x e = rw e

  -- For a back end that behaves as documented: if the newest alert of the owner, of every type, is
  -- open or there is none, and an evaluation of a metric succeeds, then evaluating the metric once
  -- more succeeds and changes nothing: it saves no alert and queues no job.
  pub evaluate_inverter_once :
      (i : Inverter) (m : NormalisedMetric) (w : World)
      → ((t : AlertType) (a : Alert)
          → find_latest i.user_id t w ≡ ok (some a)
          → is_unresolved a.resolution_status ≡ true)
      → (evaluate_body b i m w).0 ≡ ok tt
      → evaluate_inverter b i m (evaluate_inverter b i m w).1
        ≡ (ok tt, (evaluate_inverter b i m w).1)
  unfolding evaluate_inverter
  evaluate_inverter_once i m w open_ done = elim (Result-cases (find_settings i.user_id w)) [
    | inr (x, e) ↦ absurd (ground (arith, body_unread i m w x e))
    | inl (s, e) ↦
        let o1 = battery_params i s m in
        let o2 = solar_params i s m in
        let o3 = load_params i s m in
        let f1 = battery_params-IsFor i s m in
        let f2 = solar_params-IsFor i s m in
        let f3 = load_params-IsFor i s m in
        let ok_ : (checks o1 o2 o3 w).0 ≡ ok tt = rw (body-checks i m w s e) at done in
        let w3 = (checks o1 o2 o3 w).1 in
        let p1 = all_open i battery_percentage o1 w f1 open_ in
        let p2 = all_open i solar_gen o2 w f2 open_ in
        let p3 = all_open i power o3 w f3 open_ in
        let settled : checks o1 o2 o3 w3 ≡ (ok tt, w3) =
          checks_again i o1 o2 o3 w f1 f2 f3 p1 p2 p3 ok_ in
        let same : find_settings i.user_id w3 ≡ ok s =
          checks_keep_settings i o1 o2 o3 w f1 f2 f3 p1 p2 p3 ok_ i.user_id ∙ e in
        rw (body-checks i m w s e, ok_) (rw (body-checks i m w3 s same, settled))
  ]
