-- ===== src/Team/Access/Changes.antt =====
-- Invariants of the table of members, and the steps that keep them.
use intell_api.Prelude.{
  String, Bool, true, false, ◌&&◌, Option, List, [], ◌∷◌, map, ◌≡◌, inl, inr, refl, ap, any_of,
  str_eq, arith, Memᴰ, any_of-Memᴰ, eq_iff, sym, ◌∙◌,
}
use mathlib.Core.List.Memᴰ.{head, tail}
use intell_api.Prelude.Distinct.{distinct, distinct-map, any_of-map-false}
use intell_api.Exec.{Result, Exec, query, ◌>>=◌}
use intell_api.Exec.Laws.{Result-cases}
use intell_api.Team.Member.{InverterRole, owner, is_role, MemberColumns, InverterMember}
use intell_api.Team.Backend.{TeamBackend, TeamLaws, change}

abbrev pub is_owner : InverterMember → Bool
is_owner m = is_role m.role owner

-- A change of a row that keeps its identity, and makes nobody an owner.
pub record IsEdit (f : InverterMember → InverterMember) : Type 0 where
  pub id : (m : InverterMember) → (f m).id ≡ m.id
  pub inverter_id : (m : InverterMember) → (f m).inverter_id ≡ m.inverter_id
  pub email : (m : InverterMember) → (f m).email ≡ m.email
  pub role : (m : InverterMember) → is_owner m ≡ false → is_owner (f m) ≡ false

change-IsEdit :
    (p : InverterMember → Bool) (f : InverterMember → InverterMember)
    → IsEdit f
    → IsEdit (change p f)
change-IsEdit p f e = record {
  id = λ m. ground (arith, e.id m);
  inverter_id = λ m. ground (arith, e.inverter_id m);
  email = λ m. ground (arith, e.email m);
  role = λ m h. ground (arith, e.role m h);
}

module _ (b : TeamBackend) (laws : TeamLaws b) where
  open b use {World, random_uuid, email_eq, get, update, update_where, create, send_invite}
  open laws use {rows}

  -- Two rows for one address at one inverter.
  abbrev pub same_key : InverterMember → InverterMember → Bool
  same_key y x = str_eq y.inverter_id x.inverter_id && email_eq y.email x.email

  abbrev pub same_id : InverterMember → InverterMember → Bool
  same_id y x = str_eq y.id x.id

  -- Ids are unique, each address has at most one row at an inverter, and no member is an owner.
  pub record IsTable (ms : List InverterMember) : Type 0 where
    pub ids : distinct same_id ms ≡ true
    pub keys : distinct same_key ms ≡ true
    pub roles : any_of is_owner ms ≡ false

  map-IsTable :
      (g : InverterMember → InverterMember) (ms : List InverterMember)
      → IsEdit g
      → IsTable ms
      → IsTable (map g ms)
  map-IsTable g ms e t = record {
    ids = distinct-map same_id g ms (λ x y. rw (e.id x, e.id y)) ∙ t.ids;
    keys =
        distinct-map same_key g ms
          (λ x y. rw (e.inverter_id x, e.inverter_id y, e.email x, e.email y))
        ∙ t.keys;
    roles = any_of-map-false is_owner is_owner g ms e.role t.roles;
  }

  unfoldable pub Safe : {A : Type 0} → Exec World A → Type 0
  Safe m = (w : World) → IsTable (rows w) → IsTable (rows (m w).1)

  pub update-Safe :
      (p : InverterMember → Bool) (f : InverterMember → InverterMember)
      → IsEdit f
      → Safe (update p f)
  unfolding Safe
  update-Safe p f e w t = elim (Result-cases (update p f w).0) [
    | inl (r, h) ↦
        rw (laws.update_rows p f w (update p f w).1 r (ap (λ x. (x, (update p f w).1)) h))
          (map-IsTable (change p f) (rows w) (change-IsEdit p f e) t)
    | inr (x, h) ↦
        rw (laws.update_failed p f w (update p f w).1 x (ap (λ x. (x, (update p f w).1)) h)) t
  ]

  pub update_where-Safe :
      (p : InverterMember → Bool) (f : InverterMember → InverterMember)
      → IsEdit f
      → Safe (update_where p f)
  unfolding Safe
  update_where-Safe p f e w t = elim (Result-cases (update_where p f w).0) [
    | inl (tt, h) ↦
        rw
          (laws.update_where_rows p f w (update_where p f w).1
            (ap (λ x. (x, (update_where p f w).1)) h))
          (map-IsTable (change p f) (rows w) (change-IsEdit p f e) t)
    | inr (x, h) ↦
        rw
          (laws.update_where_failed p f w (update_where p f w).1 x
            (ap (λ x. (x, (update_where p f w).1)) h))
          t
  ]

  pub send_invite-Safe :
      (to : String) (name : Option String) (inviter inverter : String) (role : InverterRole)
      (token : String)
      → Safe (send_invite to name inviter inverter role token)
  unfolding Safe
  send_invite-Safe to name inviter inverter role token w t =
      rw (laws.send_invite_rows to name inviter inverter role token w) t

  pub query-Safe : {A : Type 0} (f : World → Result A) → Safe (query f)
  unfolding Safe
  query-Safe f w t = t

  pub bind-Safe :
      {A B : Type 0} (m : Exec World A) (f : A → Exec World B)
      → Safe m
      → ((a : A) → Safe (f a))
      → Safe (m >>= f)
  unfolding Safe
  bind-Safe m f h k w t = elim (Result-cases (m w).0) [
    | inl (a, e) ↦ rw e (k a (m w).1 (h w t))
    | inr (x, e) ↦ rw e (h w t)
  ]

  -- A new row for an address that has none at the inverter.
  pub create-IsTable :
      (c : MemberColumns) (w : World)
      → IsTable (rows w)
      → is_role c.role owner ≡ false
      → any_of
          (λ (y : InverterMember). str_eq y.inverter_id c.inverter_id && email_eq y.email c.email)
          (rows w)
        ≡ false
      → IsTable (rows (create c w).1)
  unfolding distinct
  create-IsTable c w t role free = elim (Result-cases (create c w).0) [
    | inl (m, h) ↦
        let (e, r, fresh) =
          laws.create_rows c w (create c w).1 m (ap (λ x. (x, (create c w).1)) h) in
        rw r (record {
          ids = rw (fresh, t.ids) refl;
          keys = rw (e, free, t.keys) refl;
          roles = rw (e, role, t.roles) refl;
        })
    | inr (x, h) ↦ rw (laws.create_failed c w (create c w).1 x (ap (λ x. (x, (create c w).1)) h)) t
  ]

  unique_step :
      (x y m : InverterMember) (ms : List InverterMember)
      → any_of (λ z. same_id z x) ms ≡ false
      → Memᴰ y ms
      → m ≡ x
      → str_eq y.id m.id ≡ true
      → ⊥
  unique_step x y m ms none_ d e same =
      ground (arith, any_of-Memᴰ (λ z. same_id z x) d (rw (← e) same))

  -- Two rows with one id are one row.
  pub distinct_unique :
      (ms : List InverterMember) (y m : InverterMember)
      → distinct same_id ms ≡ true
      → Memᴰ y ms
      → Memᴰ m ms
      → y.id ≡ m.id
      → y ≡ m
  unfolding distinct
  distinct_unique [] y m h d _ same = elim d [ ]
  distinct_unique (x ∷ ms) y m h (head e) (head f) same = e ∙ sym f
  distinct_unique (x ∷ ms) y m h (head e) (tail d) same =
      absurd (unique_step x m y ms (ground arith) d e ((eq_iff m.id y.id).1 (sym same)))
  distinct_unique (x ∷ ms) y m h (tail d) (head f) same =
      absurd (unique_step x y m ms (ground arith) d f ((eq_iff y.id m.id).1 same))
  distinct_unique (x ∷ ms) y m h (tail d) (tail d') same =
      distinct_unique ms y m (ground arith) d d' same
