-- ===== src/Inverters/Service/Serials.antt =====
-- Serial numbers stay unique.
use intell_api.Prelude.{
  ℕ, String, Bool, true, false, none, some, List, ◌∷◌, map, any_of, ◌≡◌, inl, inr, refl,
  if◌then◌else◌, str_eq, Bool-cases, ap,
}
use intell_api.Prelude.Distinct.{distinct}
use intell_api.Common.Enums.{InverterBrand, victron, growatt, sunsynk, deye, sandbox}
use intell_api.Exec.{Error, Result, ok, err, Exec, query, ◌>>=◌}
use intell_api.Exec.Laws.{Result-cases}
use intell_api.Inverters.{Inverter}
use intell_api.Poller.Tracker.{ControlMessage}
use intell_api.Inverters.Service.{
  InverterBackend, VerifiedSystem, NewInverter, InverterConnectorDto, Connected, has_serial,
  new_inverter, create_inverter, persist_unless, persist_inverter, sandbox_serial,
  persist_sandbox_unless, persist_sandbox_inverter, connect_verified, connect_sandbox_inverter,
  connect_brand, notify, announce, connect_inverter, find_by_serial_number, registered_message,
}

-- A row after an update.
abbrev pub change : (Inverter → Bool) → (Inverter → Inverter) → Inverter → Inverter
change p f i = if p i then f i else i

-- The documented behaviour that the proofs rely on, over the rows of the table.
pub record InverterLaws (b : InverterBackend) : Type 0 where
  pub rows : b.World → List Inverter
  -- A query that finds no row leaves none that passes its test.
  pub get_none :
      (p : Inverter → Bool) (w : b.World) → b.get p w ≡ ok none → any_of p (rows w) ≡ false
  pub create_rows :
      (c : NewInverter) (w w' : b.World) (i : Inverter)
      → b.create c w ≡ (ok i, w')
      → (i.serial_number ≡ c.serial_number) × (rows w' ≡ i ∷ rows w)
  pub create_failed :
      (c : NewInverter) (w w' : b.World) (e : Error) → b.create c w ≡ (err e, w') → rows w' ≡ rows w
  pub update_rows :
      (p : Inverter → Bool) (f : Inverter → Inverter) (w w' : b.World)
      → b.update p f w ≡ (ok tt, w')
      → rows w' ≡ map (change p f) (rows w)
  pub update_failed :
      (p : Inverter → Bool) (f : Inverter → Inverter) (w w' : b.World) (e : Error)
      → b.update p f w ≡ (err e, w')
      → rows w' ≡ rows w
  -- The brands' services, the cipher and the publisher do not touch the table.
  pub victron_rows : (t : List ℕ) (w : b.World) → rows (b.verify_victron t w).1 ≡ rows w
  pub sandbox_rows : (t : List ℕ) (w : b.World) → rows (b.verify_sandbox t w).1 ≡ rows w
  pub growatt_rows : (t : List ℕ) (w : b.World) → rows (b.verify_growatt t w).1 ≡ rows w
  pub sunsynk_rows : (e p : List ℕ) (w : b.World) → rows (b.verify_sunsynk e p w).1 ≡ rows w
  pub encrypt_rows : (t : List ℕ) (w : b.World) → rows (b.encrypt t w).1 ≡ rows w
  pub publish_rows : (m : ControlMessage) (w : b.World) → rows (b.publish m w).1 ≡ rows w

module _ (b : InverterBackend) (laws : InverterLaws b) where
  open b use {World, get, create, update, encrypt, publish}
  open laws use {rows}

  abbrev pub same_serial : Inverter → Inverter → Bool
  same_serial y x = str_eq y.serial_number x.serial_number

  -- No serial number stands in two rows.
  abbrev pub HasSerials : World → Type 0
  HasSerials w = distinct same_serial (rows w) ≡ true

  Safe : {A : Type 0} → Exec World A → Type 0
  Safe m = (w : World) → HasSerials w → HasSerials (m w).1

  bind-Safe :
      {A B : Type 0} (m : Exec World A) (f : A → Exec World B)
      → Safe m
      → ((a : A) → Safe (f a))
      → Safe (m >>= f)
  unfolding Safe
  bind-Safe m f h k w t = elim (Result-cases (m w).0) [
    | inl (a, e) ↦ rw e (k a (m w).1 (h w t))
    | inr (x, e) ↦ rw e (h w t)
  ]

  query-Safe : {A : Type 0} (f : World → Result A) → Safe (query f)
  unfolding Safe
  query-Safe f w t = t

  quiet-Safe : {A : Type 0} (m : Exec World A) → ((w : World) → rows (m w).1 ≡ rows w) → Safe m
  unfolding Safe
  quiet-Safe m h w t = rw (h w) t

  create_inverter-HasSerials :
      (s : VerifiedSystem) (brand : InverterBrand) (serial : String) (c : List ℕ) (user : String)
      (w : World)
      → HasSerials w
      → any_of (has_serial serial) (rows w) ≡ false
      → HasSerials (create_inverter b s brand serial c user w).1
  unfolding create_inverter new_inverter distinct
  create_inverter-HasSerials s brand serial c user w t free =
      let w1 = (encrypt c w).1 in
      let same = laws.encrypt_rows c w in
      elim (Result-cases (encrypt c w).0) [
        | inr (x, e) ↦ rw (e, same) t
        | inl (text, e) ↦
            let n = new_inverter s brand serial user text in
            let w2 = (create n w1).1 in
            elim (Result-cases (create n w1).0) [
              | inr (x, e') ↦ rw (e, laws.create_failed n w1 w2 x (ap (λ r. (r, w2)) e'), same) t
              | inl (i, e') ↦
                  let (sn, r) = laws.create_rows n w1 w2 i (ap (λ r. (r, w2)) e') in
                  rw (e, r, same, sn, free, t) refl
            ]
      ]

  persist_inverter-Safe :
      (s : VerifiedSystem) (brand : InverterBrand) (c : List ℕ) (user : String)
      → Safe (persist_inverter b s brand c user)
  unfolding persist_inverter persist_unless find_by_serial_number Safe
  persist_inverter-Safe s brand c user w t =
      elim (Result-cases (get (has_serial s.serial_number) w)) [
        | inr (x, e) ↦ rw e t
        | inl (some i, e) ↦ rw e t
        | inl (none, e) ↦ rw e (
            create_inverter-HasSerials s brand s.serial_number c user w t
              (laws.get_none (has_serial s.serial_number) w e))
      ]

  persist_sandbox_inverter-Safe :
      (s : VerifiedSystem) (c : List ℕ) (user : String) → Safe (persist_sandbox_inverter b s c user)
  unfolding persist_sandbox_inverter persist_sandbox_unless find_by_serial_number Safe
  persist_sandbox_inverter-Safe s c user w t =
      let serial = sandbox_serial s user in
      elim (Result-cases (get (has_serial serial) w)) [
        | inr (x, e) ↦ rw e t
        | inl (some i, e) ↦ rw e t
        | inl (none, e) ↦
            let h =
              create_inverter-HasSerials s sandbox serial c user w t
                (laws.get_none (has_serial serial) w e) in
            elim (Result-cases (create_inverter b s sandbox serial c user w).0) [
              | inr (x, e') ↦ rw (e, e') h
              | inl (i, e') ↦ rw (e, e') h
            ]
      ]

  connect_verified-Safe :
      (verify : Exec World VerifiedSystem) (brand : InverterBrand) (c : List ℕ) (user : String)
      → ((w : World) → rows (verify w).1 ≡ rows w)
      → Safe (connect_verified b verify brand c user)
  unfolding connect_verified
  connect_verified-Safe verify brand c user h = bind-Safe verify _ (quiet-Safe verify h) (λ s.
      bind-Safe _ _ (persist_inverter-Safe s brand c user)
        (λ i. query-Safe (λ _. ok (record { inverter = i; created = true }))))

  connect_brand-Safe :
      (brand : InverterBrand) (dto : InverterConnectorDto) (user : String)
      → Safe (connect_brand b brand dto user)
  unfolding connect_brand connect_sandbox_inverter
  connect_brand-Safe victron dto user =
      connect_verified-Safe _ victron _ user (laws.victron_rows dto.victron_access_token)
  connect_brand-Safe growatt dto user =
      connect_verified-Safe _ growatt _ user (laws.growatt_rows dto.growatt_api_token)
  connect_brand-Safe sunsynk dto user =
      connect_verified-Safe _ sunsynk _ user
        (laws.sunsynk_rows dto.solarman_email dto.solarman_password)
  connect_brand-Safe sandbox dto user =
      bind-Safe _ _ (quiet-Safe _ (laws.sandbox_rows dto.sandbox_access_token))
        (λ s. persist_sandbox_inverter-Safe s dto.sandbox_access_token user)
  connect_brand-Safe deye dto user = query-Safe (λ _. err _)

  announce-Safe : (c : Connected) → Safe (announce b c)
  unfolding announce notify Safe
  announce-Safe c w t = elim (Bool-cases c.created) [
    | inl e ↦ rw (e, laws.publish_rows (registered_message c.inverter) w) t
    | inr e ↦ rw e t
  ]

  -- Connecting an inverter of any brand, with whatever end, keeps serial numbers unique, for a
  -- table of inverters that behaves as documented.
  pub connect_inverter-HasSerials :
      (dto : InverterConnectorDto) (user : String) (w : World)
      → HasSerials w
      → HasSerials (connect_inverter b dto user w).1
  unfolding connect_inverter Safe
  connect_inverter-HasSerials dto user =
      bind-Safe (connect_brand b dto.brand dto user) (announce b)
        (connect_brand-Safe dto.brand dto user) announce-Safe
