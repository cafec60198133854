-- ===== src/Poller/Tracker/Removed.antt =====
-- What is tracked after a deregistration.
use intell_api.Prelude.{
  String, Bool, true, false, not, ◌&&◌, ◌||◌, none, List, [], ◌∷◌, any_of, str_eq, ◌≡◌, ◌≢◌, ◌⊎◌,
  inl, inr, refl, arith, Bool-cases, eq_iff, eq_refl, sym, ap, ◌∙◌,
}
use intell_api.Common.Enums.{InverterBrand, victron, growatt, sunsynk, deye, sandbox}
use intell_api.Poller.Tracker.{
  Tracker, get_array_for_brand, set_array, is_in, without_first, set_count, deregister_from,
  all_brands, handle_inverter_deregistered,
}
use intell_api.Poller.Tracker.Tracked.{
  is_tracked, IsTracker, removed, get_array_for_brand-IsArray, set_array-IsTracker,
  without_first-IsArray,
}

module _ (brand_of : String → InverterBrand) (id : String) where
  -- An id in the array of one brand is in that of no other.
  elsewhere :
      (b c : InverterBrand) (t : Tracker)
      → IsTracker brand_of t
      → is_in id (get_array_for_brand b t) ≡ true
      → b ≢ c
      → is_in id (get_array_for_brand c t) ≡ false
  elsewhere b c t h here ne = elim (Bool-cases (is_in id (get_array_for_brand c t))) [
    | inr no_ ↦ no_
    | inl there ↦ absurd (
        ne (
          sym ((get_array_for_brand-IsArray brand_of b t h).brands id here)
          ∙ (get_array_for_brand-IsArray brand_of c t h).brands id there))
  ]

  -- The tracker after the first inverter with the id was taken from one array.
  dropped : InverterBrand → Tracker → Tracker
  dropped b t = set_array b (without_first id (get_array_for_brand b t)) t

  -- The id alone is no longer tracked.
  Without : Tracker → Tracker → Type 0
  Without t t' = (key : String) → is_tracked key t' ≡ (is_tracked key t && not (str_eq key id))

  one_step :
      (key : String) (x x' y z u : Bool)
      → x' ≡ (x && not (str_eq key id))
      → (str_eq key id ≡ true → (y || (z || u)) ≡ false)
      → (x' || (y || (z || u))) ≡ ((x || (y || (z || u))) && not (str_eq key id))
  one_step key x x' y z u e h = elim (Bool-cases (str_eq key id)) [
    | inl same ↦ rw (e, same, h same) (ground arith)
    | inr other ↦ rw (e, other) (ground arith)
  ]

  gone :
      (key : String) (b c : InverterBrand) (t : Tracker)
      → IsTracker brand_of t
      → is_in id (get_array_for_brand b t) ≡ true
      → b ≢ c
      → str_eq key id ≡ true
      → is_in key (get_array_for_brand c t) ≡ false
  gone key b c t h here ne same = rw ((eq_iff key id).0 same) (elsewhere b c t h here ne)

  dropped-Without :
      (b : InverterBrand) (t : Tracker)
      → IsTracker brand_of t
      → is_in id (get_array_for_brand b t) ≡ true
      → Without t (dropped b t)
  unfolding Without dropped is_tracked get_array_for_brand set_array
  dropped-Without victron t h here key =
      one_step key (is_in key t.victron_inverters) _ (is_in key t.growatt_inverters)
        (is_in key t.sunsynk_inverters) (is_in key t.sandbox_inverters)
        (removed id key t.victron_inverters h.of_victron.once_each)
        (λ same.
          rw
            (
              gone key victron growatt t h here (λ e. cc) same,
              gone key victron sunsynk t h here (λ e. cc) same,
              gone key victron sandbox t h here (λ e. cc) same,
            )
            refl)
  dropped-Without growatt t h here key = ground (
    arith,
    removed id key t.growatt_inverters h.of_growatt.once_each,
    gone key growatt victron t h here (λ e. cc),
    gone key growatt sunsynk t h here (λ e. cc),
    gone key growatt sandbox t h here (λ e. cc),
  )
  dropped-Without sunsynk t h here key = ground (
    arith,
    removed id key t.sunsynk_inverters h.of_sunsynk.once_each,
    gone key sunsynk victron t h here (λ e. cc),
    gone key sunsynk growatt t h here (λ e. cc),
    gone key sunsynk sandbox t h here (λ e. cc),
  )
  dropped-Without sandbox t h here key = ground (
    arith,
    removed id key t.sandbox_inverters h.of_sandbox.once_each,
    gone key sandbox victron t h here (λ e. cc),
    gone key sandbox growatt t h here (λ e. cc),
    gone key sandbox sunsynk t h here (λ e. cc),
  )
  dropped-Without deye t h here key = absurd (ground arith)

  dropped-IsTracker :
      (b : InverterBrand) (t : Tracker) → IsTracker brand_of t → IsTracker brand_of (dropped b t)
  unfolding dropped
  dropped-IsTracker b t h =
      set_array-IsTracker brand_of b (without_first id (get_array_for_brand b t)) t h (
        without_first-IsArray brand_of b (get_array_for_brand b t) id
          (get_array_for_brand-IsArray brand_of b t h))

  counted-IsTracker :
      (t : Tracker) → IsTracker brand_of t → IsTracker brand_of (set_count id none t)
  unfolding set_count
  counted-IsTracker t h = record {
    of_victron = h.of_victron;
    of_growatt = h.of_growatt;
    of_sunsynk = h.of_sunsynk;
    of_sandbox = h.of_sandbox;
  }

  counted-is_tracked :
      (key : String) (t : Tracker) → is_tracked key (set_count id none t) ≡ is_tracked key t
  unfolding set_count is_tracked
  counted-is_tracked key t = refl

  counted-forgotten : (t : Tracker) → (set_count id none t).failure_counts id ≡ none
  unfolding set_count
  counted-forgotten t = rw (eq_refl id) refl

  -- What the loop over the brands leaves.
  record IsLoop (t t' : Tracker) (brands : List InverterBrand) : Type 0 where
    valid : IsTracker brand_of t'
    result :
        (Without t t' × (t'.failure_counts id ≡ none))
        ⊎ ((t' ≡ t) × (any_of (λ b. is_in id (get_array_for_brand b t)) brands ≡ false))

  deregister_from-IsLoop :
      (brands : List InverterBrand) (t : Tracker)
      → IsTracker brand_of t
      → IsLoop t (deregister_from brands id t) brands
  unfolding deregister_from Without dropped
  deregister_from-IsLoop [] t h = record { valid = h; result = inr (refl, refl) }
  deregister_from-IsLoop (b ∷ brands) t h = elim (Bool-cases (is_in id (get_array_for_brand b t))) [
    | inl here ↦ rw here (record {
      valid = counted-IsTracker (dropped b t) (dropped-IsTracker b t h);
      result = inl (
        λ key. counted-is_tracked key (dropped b t) ∙ dropped-Without b t h here key,
        counted-forgotten (dropped b t),
      );
    })
    | inr away ↦
        let rest = deregister_from-IsLoop brands t h in
        rw away (record {
          valid = rest.valid;
          result = elim rest.result [
            | inl r ↦ inl r
            | inr (e, none_) ↦ inr (e, rw (away, none_) refl)
          ];
        })
  ]

  untracked :
      (t : Tracker)
      → any_of (λ b. is_in id (get_array_for_brand b t)) all_brands ≡ false
      → is_tracked id t ≡ false
  unfolding is_tracked get_array_for_brand
  untracked t h = ground arith

  kept_all :
      (key : String) (t : Tracker)
      → is_tracked id t ≡ false
      → is_tracked key t ≡ (is_tracked key t && not (str_eq key id))
  kept_all key t none_ = elim (Bool-cases (str_eq key id)) [
    | inl same ↦ let e = (eq_iff key id).0 same in rw (same, e, none_) refl
    | inr other ↦ rw other (ground arith)
  ]

  -- Deregistering keeps each array free of repetitions and of one brand; afterwards the inverter is
  -- not tracked, all others are as before, and if it was tracked its failures are forgotten.
  pub handle_inverter_deregistered-IsTracker :
      (t : Tracker)
      → IsTracker brand_of t
      → let t' = handle_inverter_deregistered id t in
        IsTracker brand_of t'
        × ((key : String) → is_tracked key t' ≡ (is_tracked key t && not (str_eq key id)))
        × (is_tracked id t ≡ true → t'.failure_counts id ≡ none)
  unfolding handle_inverter_deregistered Without
  handle_inverter_deregistered-IsTracker t h =
      let l = deregister_from-IsLoop all_brands t h in
      elim l.result [
        | inl (w, f) ↦ (l.valid, w, λ _. f)
        | inr (e, none_) ↦
            let off = untracked t none_ in
            (
              l.valid,
              λ key. ap (is_tracked key) e ∙ kept_all key t off,
              λ on. absurd (ground arith),
            )
      ]
