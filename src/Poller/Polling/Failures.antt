-- ===== src/Poller/Polling/Failures.antt =====
-- Consecutive failures of one inverter.
use intell_api.Prelude.{
  ℕ, zero, suc, ◌+◌, ◌≤◌, ◌<◌, ◌≡◌, ◌≢◌, refl, String, false, Option, some, arith, eq_refl, eq_iff,
  ap, ◌∙◌, lt→ltb,
}
use intell_api.Common.Enums.{
  inverter_fault, InverterBrand, victron, growatt, sunsynk, deye, sandbox,
}
use intell_api.Exec.{Error, Result, ok, err, Exec, pure, recover, resume}
use intell_api.Inverters.{Inverter, NormalisedMetric}
use intell_api.Alerts.Entity.{Alert}
use intell_api.Alerts.Backend.{BackendLaws}
use intell_api.Poller.Tracker.{Tracker, set_count, get_array_for_brand}
use intell_api.Poller.Polling.{
  PollerBackend, State, count_of, on_failure, after_offline, after_online, after_fetch, poll_with,
  fire_inverter_offline_alert, offline_alert, offline_job, save_offline_alert, is_recent,
  cooldown_ms, offline_columns, persist_and_publish,
}

module _ (b : PollerBackend) (i : Inverter) where
  open b use {World, now, find_latest, insert, enqueue, mark_online, mark_offline}

  -- So many polls of the inverter, one after the other.
  pub polls : Exec World NormalisedMetric → ℕ → State b → State b
  polls fetch zero s = s
  polls fetch (suc n) s = poll_with b i fetch (polls fetch n s)

  -- A reading fails at every time, and leaves the world as it is.
  unfoldable pub IsDown : Exec World NormalisedMetric → Type 0
  IsDown fetch = (w : World) → (e : Error) × (fetch w ≡ (err e, w))

  count_after : (t : Tracker) (n : Option ℕ) → (set_count i.id n t).failure_counts i.id ≡ n
  unfolding set_count
  count_after t n = rw (eq_refl i.id) refl

  -- The tracked inverters and the counts of the others are as before.
  pub record IsKept (t t' : Tracker) : Type 0 where
    pub arrays :
        (brand : InverterBrand) → get_array_for_brand brand t' ≡ get_array_for_brand brand t
    pub counts : (key : String) → key ≢ i.id → t'.failure_counts key ≡ t.failure_counts key

  set_count-IsKept : (t t' : Tracker) (n : Option ℕ) → IsKept t t' → IsKept t (set_count i.id n t')
  unfolding set_count get_array_for_brand
  set_count-IsKept t t' n kept = record {
    arrays = λ brand.
        elim brand as (λ k. get_array_for_brand k (set_count i.id n t') ≡ get_array_for_brand k t) [
          | victron ↦ kept.arrays victron
          | growatt ↦ kept.arrays growatt
          | sunsynk ↦ kept.arrays sunsynk
          | deye ↦ kept.arrays deye
          | sandbox ↦ kept.arrays sandbox
        ];
    counts = λ key other. ground (arith, eq_iff key i.id, kept.counts key);
  }

  early_failure :
      (t : Tracker) (w : World)
      → count_of (t.failure_counts i.id) < 2
      → on_failure b i (t, w) ≡ (set_count i.id (some (count_of (t.failure_counts i.id) + 1)) t, w)
  unfolding on_failure
  early_failure t w h = ground arith

  late_step :
      (t : Tracker) (w : World)
      → 2 ≤ count_of (t.failure_counts i.id)
      → on_failure b i (t, w)
        ≡ after_offline b i
            (set_count i.id (some (count_of (t.failure_counts i.id) + 1)) t)
            (mark_offline i.id w).0
            (mark_offline i.id w).1
  unfolding on_failure
  late_step t w h = ground arith

  late_failure :
      (t : Tracker) (w w1 : World)
      → 2 ≤ count_of (t.failure_counts i.id)
      → mark_offline i.id w ≡ (ok tt, w1)
      → on_failure b i (t, w) ≡ (
        set_count i.id (some (count_of (t.failure_counts i.id) + 1)) t,
        fire_inverter_offline_alert b i w1,
      )
  unfolding on_failure after_offline
  late_failure t w w1 h e =
      late_step t w h
      ∙ ap
          (λ (r : Result (Unit {0}) × World).
            after_offline b i (set_count i.id (some (count_of (t.failure_counts i.id) + 1)) t) r.0
              r.1)
          e

  down_poll :
      (fetch : Exec World NormalisedMetric) (s : State b)
      → IsDown fetch
      → poll_with b i fetch s ≡ on_failure b i s
  unfolding poll_with after_fetch IsDown
  down_poll fetch (t, w) down =
      let (e, h) = down w in
      ap (λ (r : Result NormalisedMetric × World). after_fetch b i t r.0 r.1) h

  first_two :
      (fetch : Exec World NormalisedMetric) (t : Tracker) (w : World) (n : ℕ)
      → IsDown fetch
      → count_of (t.failure_counts i.id) ≡ 0
      → n ≤ 2
      → let (t', w') = polls fetch n (t, w) in
        (w' ≡ w) × (count_of (t'.failure_counts i.id) ≡ n) × IsKept t t'
  unfolding polls
  first_two fetch t w zero down start h =
      (refl, start, record { arrays = λ brand. refl; counts = λ key other. refl })
  first_two fetch t w (suc n) down start h =
      let before = polls fetch n (t, w) in
      let (same, count, kept) = first_two fetch t w n down start (omega arith) in
      let lt : count_of (before.0.failure_counts i.id) < 2 = omega arith in
      let e = down_poll fetch before down ∙ early_failure before.0 before.1 lt in
      (
        rw e same,
        rw (e, count_after before.0 (some (count_of (before.0.failure_counts i.id) + 1)))
            (omega arith),
        rw e
            (set_count-IsKept t before.0 (some (count_of (before.0.failure_counts i.id) + 1)) kept),
      )

  -- While an inverter is down, starting without earlier failures: the first two polls change
  -- nothing but its count of failures, which is their number; the third marks the inverter offline
  -- and, if that succeeds, fires the offline alert. The tracked inverters and the failure counts of
  -- all others are as before throughout.
  pub polls-IsDown :
      (fetch : Exec World NormalisedMetric) (t : Tracker) (w w1 : World)
      → IsDown fetch
      → count_of (t.failure_counts i.id) ≡ 0
      → mark_offline i.id w ≡ (ok tt, w1)
      → ((n : ℕ)
          → n ≤ 2
          → ((polls fetch n (t, w)).1 ≡ w)
            × (count_of ((polls fetch n (t, w)).0.failure_counts i.id) ≡ n)
            × IsKept t (polls fetch n (t, w)).0)
        × ((polls fetch 3 (t, w)).1 ≡ fire_inverter_offline_alert b i w1)
        × ((polls fetch 3 (t, w)).0.failure_counts i.id ≡ some 3)
        × IsKept t (polls fetch 3 (t, w)).0
  unfolding polls
  polls-IsDown fetch t w w1 down start marked =
      let before = polls fetch 2 (t, w) in
      let (same, count, kept) = first_two fetch t w 2 down start (omega arith) in
      let at_two : mark_offline i.id before.1 ≡ (ok tt, w1) = rw same marked in
      let e =
        down_poll fetch before down ∙ late_failure before.0 before.1 w1 (omega arith) at_two in
      (
        λ n h. first_two fetch t w n down start h,
        rw e refl,
        rw (e, count_after before.0 (some (count_of (before.0.failure_counts i.id) + 1)), count)
            refl,
        rw e
            (set_count-IsKept t before.0 (some (count_of (before.0.failure_counts i.id) + 1)) kept),
      )

  -- A reading that is taken, with the inverter marked online, forgets earlier failures, and its
  -- metric is saved and published.
  pub poll_with-reading :
      (fetch : Exec World NormalisedMetric) (t : Tracker) (w w1 w2 : World) (m : NormalisedMetric)
      → fetch w ≡ (ok m, w1)
      → mark_online i.id w1 ≡ (ok tt, w2)
      → ((poll_with b i fetch (t, w)).0.failure_counts i.id ≡ some 0)
        × ((poll_with b i fetch (t, w)).1 ≡ (persist_and_publish b m w2).1)
  unfolding poll_with after_fetch after_online
  poll_with-reading fetch t w w1 w2 m read marked =
      let e =
        ap (λ (r : Result NormalisedMetric × World). after_fetch b i t r.0 r.1) read
        ∙ ap
            (λ (r : Result (Unit {0}) × World).
              after_online b i m (set_count i.id (some 0) t) r.0 r.1)
            marked in
      (
        ap (λ (s : State b). s.0.failure_counts i.id) e ∙ count_after t (some 0),
        ap (λ (s : State b). s.1) e,
      )

module _ (b : PollerBackend) (laws : BackendLaws b.alerts) where
  open b use {World, now, find_latest, insert, enqueue}

  caught : (r : Result (Unit {0})) (w : World) → (recover r (λ _. pure tt) w).1 ≡ w
  caught (ok _) w = refl
  caught (err e) w = refl

  fire_as : (i : Inverter) (w : World) → fire_inverter_offline_alert b i w ≡ (offline_alert b i w).1
  unfolding fire_inverter_offline_alert
  fire_as i w = caught (offline_alert b i w).0 (offline_alert b i w).1

  alert_fresh :
      (i : Inverter) (w w1 : World) (a : Alert) (o : Option Alert)
      → find_latest i.user_id inverter_fault w ≡ ok o
      → is_recent o (now w) ≡ false
      → insert (offline_columns i (now w)) w ≡ (ok a, w1)
      → offline_alert b i w ≡ enqueue (offline_job b a) w1
  unfolding offline_alert save_offline_alert
  alert_fresh i w w1 a o found old saved =
      rw (found, old) refl
      ∙ ap (λ (r : Result Alert × World). resume r.0 (λ (x : Alert). enqueue (offline_job b x)) r.1)
          saved

  alert_recent :
      (i : Inverter) (w : World) (a : Alert)
      → find_latest i.user_id inverter_fault w ≡ ok (some a)
      → now w < a.created_at + cooldown_ms
      → offline_alert b i w ≡ (ok tt, w)
  unfolding offline_alert is_recent
  alert_recent i w a found h = rw (found, lt→ltb (now w) (a.created_at + cooldown_ms) h) refl

  -- Once an offline alert was saved for a user, no other is raised for an hour after its creation,
  -- for whichever inverter of the same user, and whether or not the first is resolved: as long as
  -- it is the newest of its type, firing changes nothing. The tables and the queue are ones that
  -- behave as documented, and the first firing finds no recent alert.
  pub fire_inverter_offline_alert_once :
      (i j : Inverter) (w w1 later : World) (a : Alert) (o : Option Alert)
      → find_latest i.user_id inverter_fault w ≡ ok o
      → is_recent o (now w) ≡ false
      → insert (offline_columns i (now w)) w ≡ (ok a, w1)
      → j.user_id ≡ i.user_id
      → find_latest i.user_id inverter_fault later
        ≡ find_latest i.user_id inverter_fault (fire_inverter_offline_alert b i w)
      → now later < a.created_at + cooldown_ms
      → fire_inverter_offline_alert b j later ≡ later
  unfolding offline_columns
  fire_inverter_offline_alert_once i j w w1 later a o found old saved same kept soon =
      let job = offline_job b a in
      let world =
        fire_as i w
        ∙ ap (λ (r : Result (Unit {0}) × World). r.1) (alert_fresh i w w1 a o found old saved) in
      let latest : find_latest i.user_id inverter_fault w1 ≡ ok (some a) =
        laws.insert_latest (offline_columns i (now w)) w w1 a saved in
      let still = laws.enqueue_latest job w1 i.user_id inverter_fault in
      let now_latest : find_latest i.user_id inverter_fault later ≡ ok (some a) =
        kept ∙ ap (find_latest i.user_id inverter_fault) world ∙ still ∙ latest in
      let for_j : find_latest j.user_id inverter_fault later ≡ ok (some a) = rw same now_latest in
      fire_as j later
      ∙ ap (λ (r : Result (Unit {0}) × World). r.1) (alert_recent j later a for_j soon)
