-- ===== src/Poller/Tracker/Tracked.antt =====
-- What is tracked after the messages of the control channel.
use intell_api.Prelude.{
  String, Bool, true, false, not, ◌&&◌, ◌||◌, List, [], ◌∷◌, ◌++◌, str_eq, ◌≡◌, ◌≢◌, inl, inr, refl,
  arith, Bool-cases, eq_iff,
}
use intell_api.Common.Enums.{InverterBrand, victron, growatt, sunsynk, deye, sandbox}
use intell_api.Inverters.{Inverter}
use intell_api.Poller.Tracker.{
  Tracker, get_array_for_brand, set_array, has_id, is_in, without_first, register,
}

-- An inverter is polled if it stands in the array of some brand.
unfoldable pub is_tracked : String → Tracker → Bool
is_tracked id t =
    is_in id t.victron_inverters
    || (is_in id t.growatt_inverters
        || (is_in id t.sunsynk_inverters || is_in id t.sandbox_inverters))

-- No id stands twice in a list.
unfoldable pub once : List Inverter → Bool
once [] = true
once (i ∷ is) = not (is_in i.id is) && once is

in_append :
    (id : String) (is : List Inverter) (i : Inverter)
    → is_in id (is ++ i ∷ []) ≡ (is_in id is || str_eq i.id id)
in_append id [] i = ground arith
in_append id (j ∷ is) i = ground (arith, in_append id is i)

same_id-is_in : (i j : Inverter) (is : List Inverter) → i.id ≡ j.id → is_in i.id is ≡ is_in j.id is
same_id-is_in i j is e = rw e refl

not_twice :
    (i j : Inverter) (is : List Inverter)
    → is_in i.id (j ∷ is) ≡ false
    → is_in j.id is ≡ false
    → is_in j.id (is ++ i ∷ []) ≡ false
not_twice i j is new old =
    rw (in_append j.id is i, old) (ground (arith, eq_iff i.id j.id, eq_iff j.id i.id))

once-append :
    (is : List Inverter) (i : Inverter)
    → once is ≡ true
    → is_in i.id is ≡ false
    → once (is ++ i ∷ []) ≡ true
unfolding once
once-append [] i o new = refl
once-append (j ∷ is) i o new =
    ground (arith, not_twice i j is new, once-append is i (ground arith) (ground arith))

without_other :
    (id key : String) (is : List Inverter)
    → key ≢ id
    → is_in key (without_first id is) ≡ is_in key is
without_other id key [] ne = refl
without_other id key (i ∷ is) ne =
    ground (arith, without_other id key is ne, eq_iff i.id id, eq_iff i.id key)

without_gone :
    (id : String) (is : List Inverter) → once is ≡ true → is_in id (without_first id is) ≡ false
unfolding once
without_gone id [] o = refl
without_gone id (i ∷ is) o = elim (Bool-cases (has_id id i)) [
  | inl same ↦ let e : i.id ≡ id = (eq_iff i.id id).0 same in rw (same, ← e) (ground arith)
  | inr other ↦ rw other (ground (arith, without_gone id is))
]

pub once-without_first :
    (id : String) (is : List Inverter) → once is ≡ true → once (without_first id is) ≡ true
unfolding once
once-without_first id [] o = refl
once-without_first id (i ∷ is) o = elim (Bool-cases (has_id id i)) [
  | inl same ↦ rw same (ground arith)
  | inr other ↦
      let ne : i.id ≢ id = λ e. absurd (ground (arith, (eq_iff i.id id).1 e)) in
      rw (other, without_other id i.id is ne) (ground (arith, once-without_first id is))
]

pub removed :
    (id key : String) (is : List Inverter)
    → once is ≡ true
    → is_in key (without_first id is) ≡ (is_in key is && not (str_eq key id))
removed id key is o = elim (Bool-cases (str_eq key id)) [
  | inl same ↦
      let e : key ≡ id = (eq_iff key id).0 same in rw (same, e, without_gone id is o) (ground arith)
  | inr other ↦
      let ne : key ≢ id = λ e. absurd (ground (arith, (eq_iff key id).1 e)) in
      rw (other, without_other id key is ne) (ground arith)
]

-- A list with each id once, all of them of one brand.
pub record IsArray (brand_of : String → InverterBrand) (brand : InverterBrand) (is : List Inverter)
    : Type 0 where
  pub once_each : once is ≡ true
  pub brands : (id : String) → is_in id is ≡ true → brand_of id ≡ brand

append-IsArray :
    (brand_of : String → InverterBrand) (brand : InverterBrand) (is : List Inverter) (i : Inverter)
    → IsArray brand_of brand is
    → is_in i.id is ≡ false
    → brand_of i.id ≡ brand
    → IsArray brand_of brand (is ++ i ∷ [])
append-IsArray brand_of brand is i a new e = record {
  once_each = once-append is i a.once_each new;
  brands = λ id h. elim (Bool-cases (is_in id is)) [
    | inl old ↦ a.brands id old
    | inr none_ ↦
        let same : i.id ≡ id = (eq_iff i.id id).0 (ground (arith, in_append id is i)) in
        rw (← same) e
  ];
}

pub without_first-IsArray :
    (brand_of : String → InverterBrand) (brand : InverterBrand) (is : List Inverter) (id : String)
    → IsArray brand_of brand is
    → IsArray brand_of brand (without_first id is)
without_first-IsArray brand_of brand is id a = record {
  once_each = once-without_first id is a.once_each;
  brands = λ key h. a.brands key (ground (arith, removed id key is a.once_each));
}

-- Each array holds inverters of its brand, each once. `brand_of` is the brand of a row, which no
-- code changes.
pub record IsTracker (brand_of : String → InverterBrand) (t : Tracker) : Type 0 where
  pub of_victron : IsArray brand_of victron t.victron_inverters
  pub of_growatt : IsArray brand_of growatt t.growatt_inverters
  pub of_sunsynk : IsArray brand_of sunsynk t.sunsynk_inverters
  pub of_sandbox : IsArray brand_of sandbox t.sandbox_inverters

module _ (brand_of : String → InverterBrand) where
  pub get_array_for_brand-IsArray :
      (brand : InverterBrand) (t : Tracker)
      → IsTracker brand_of t
      → IsArray brand_of brand (get_array_for_brand brand t)
  unfolding get_array_for_brand once
  get_array_for_brand-IsArray victron t h = h.of_victron
  get_array_for_brand-IsArray growatt t h = h.of_growatt
  get_array_for_brand-IsArray sunsynk t h = h.of_sunsynk
  get_array_for_brand-IsArray sandbox t h = h.of_sandbox
  get_array_for_brand-IsArray deye t h = record {
    once_each = refl;
    brands = λ id e. absurd (ground arith);
  }

  pub set_array-IsTracker :
      (brand : InverterBrand) (is : List Inverter) (t : Tracker)
      → IsTracker brand_of t
      → IsArray brand_of brand is
      → IsTracker brand_of (set_array brand is t)
  unfolding set_array
  set_array-IsTracker victron is t h a = record {
    of_victron = a;
    of_growatt = h.of_growatt;
    of_sunsynk = h.of_sunsynk;
    of_sandbox = h.of_sandbox;
  }
  set_array-IsTracker growatt is t h a = record {
    of_victron = h.of_victron;
    of_growatt = a;
    of_sunsynk = h.of_sunsynk;
    of_sandbox = h.of_sandbox;
  }
  set_array-IsTracker sunsynk is t h a = record {
    of_victron = h.of_victron;
    of_growatt = h.of_growatt;
    of_sunsynk = a;
    of_sandbox = h.of_sandbox;
  }
  set_array-IsTracker sandbox is t h a = record {
    of_victron = h.of_victron;
    of_growatt = h.of_growatt;
    of_sunsynk = h.of_sunsynk;
    of_sandbox = a;
  }
  set_array-IsTracker deye is t h a = h

  tracked_append :
      (brand : InverterBrand) (key : String) (i : Inverter) (t : Tracker)
      → brand ≢ deye
      → is_tracked key (set_array brand (get_array_for_brand brand t ++ i ∷ []) t)
        ≡ (is_tracked key t || str_eq i.id key)
  unfolding set_array get_array_for_brand is_tracked
  tracked_append victron key i t ne = ground (arith, in_append key t.victron_inverters i)
  tracked_append growatt key i t ne = ground (arith, in_append key t.growatt_inverters i)
  tracked_append sunsynk key i t ne = ground (arith, in_append key t.sunsynk_inverters i)
  tracked_append sandbox key i t ne = ground (arith, in_append key t.sandbox_inverters i)
  tracked_append deye key i t ne = absurd (ne refl)

  pub in_array-is_tracked :
      (brand : InverterBrand) (key : String) (t : Tracker)
      → is_in key (get_array_for_brand brand t) ≡ true
      → is_tracked key t ≡ true
  unfolding get_array_for_brand is_tracked
  in_array-is_tracked victron key t h = ground arith
  in_array-is_tracked growatt key t h = ground arith
  in_array-is_tracked sunsynk key t h = ground arith
  in_array-is_tracked sandbox key t h = ground arith
  in_array-is_tracked deye key t h = absurd (ground arith)

  -- Registering an inverter of a brand that is polled (any but DEYE) keeps each array free of
  -- repetitions and of one brand; afterwards exactly that inverter is tracked besides those that
  -- were tracked before. The inverter's brand is the one that its row has at all times.
  pub register-IsTracker :
      (i : Inverter) (t : Tracker)
      → IsTracker brand_of t
      → brand_of i.id ≡ i.brand
      → i.brand ≢ deye
      → IsTracker brand_of (register i t)
        × ((key : String) → is_tracked key (register i t) ≡ (is_tracked key t || str_eq i.id key))
  unfolding register
  register-IsTracker i t h e ne = elim (Bool-cases (is_in i.id (get_array_for_brand i.brand t))) [
    | inl old ↦ (
      rw old h,
      λ key. rw old (elim (Bool-cases (str_eq i.id key)) [
        | inr other ↦ rw other (ground arith)
        | inl same ↦
            let k : i.id ≡ key = (eq_iff i.id key).0 same in
            rw (same, ← k, in_array-is_tracked i.brand i.id t old) refl
      ]),
    )
    | inr new ↦ (
      rw new (
          set_array-IsTracker i.brand (get_array_for_brand i.brand t ++ i ∷ []) t h (
            append-IsArray brand_of i.brand (get_array_for_brand i.brand t) i
              (get_array_for_brand-IsArray i.brand t h) new e)),
      λ key. rw new (tracked_append i.brand key i t ne),
    )
  ]
