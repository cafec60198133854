-- ===== src/Team/Tests/Rows.antt =====
-- A table of members that is a list of rows.
use intell_api.Prelude.{
  ℕ, ◌≡◌, inl, inr, refl, String, Bool, true, false, Option, none, some, List, [], ◌∷◌, map, any_of,
  find_first, arith, if◌then◌else◌, str_eq, eq_refl, Memᴰ, Bool-cases, eq_iff, ap, sym,
}
use intell_api.Prelude.Int.{pos}
use mathlib.Core.List.Memᴰ.{head, tail}
use intell_api.Prelude.Names.{fresh_name, fresh_name-any_of}
use intell_api.Common.Enums.{UserRole, growatt}
use intell_api.Exec.{Error, not_found, Result, Exec, ok, err}
use intell_api.Users.{User}
use intell_api.Inverters.{Inverter}
use intell_api.Team.Member.{MemberColumns, InverterMember}
use intell_api.Team.Backend.{TeamBackend, TeamLaws, change}

pub record Store : Type 0 where
  pub members : List InverterMember
  pub time : ℕ

abbrev pub token_of : InverterMember → String
token_of m = m.invite_token

abbrev pub row_id : InverterMember → String
row_id m = m.id

abbrev pub update_rows :
    (InverterMember → Bool) → (InverterMember → InverterMember) → Exec Store (Option InverterMember)
update_rows p f w = (
  ok (elim (find_first p w.members) [ none ↦ none | some m ↦ some (f m) ]),
  record w { members = map (change p f) w.members },
)

abbrev pub create_row : MemberColumns → Exec Store InverterMember
create_row c w =
    let m : InverterMember = record { id = fresh_name row_id w.members; columns = c } in
    (ok m, record w { members = m ∷ w.members })

abbrev pub home : Inverter
home = record {
  id = "home";
  user_id = "ada";
  brand = growatt;
  model = "SPF 5000";
  serial_number = "SN1";
  installation_id = none;
  encrypted_credentials = none;
  is_active = true;
  rated_capacity_kwh = pos 5000;
  panel_capacity_kw = pos 4000;
}

abbrev pub ada : User
ada = record {
  id = "ada";
  email = "ada@example.com";
  first_name = "Ada";
  last_name = "Obi";
  phone_number = none;
  password_hash = none;
  google_id = none;
  email_verified = true;
  inverter_brand = none;
  onboarding_step = some 3;
  onboarding_complete = true;
  is_invited_user = false;
  is_active = true;
  last_login_at = none;
  role = UserRole.user;
  admin_status = none;
  created_at = 0;
}

abbrev pub inverter_of : String → Result Inverter
inverter_of id = if str_eq id "home" then ok home else err (not_found "no inverter")

abbrev pub store_backend : TeamBackend
store_backend = record {
  World = Store;
  now = λ w. w.time;
  random_uuid = λ w. (fresh_name token_of w.members, w);
  email_eq = str_eq;
  get = λ p w. ok (find_first p w.members);
  update = update_rows;
  update_where = λ p f w. (ok tt, record w { members = map (change p f) w.members });
  create = create_row;
  find_page = λ p page limit w. ok w.members;
  find_inverter = λ id w. inverter_of id;
  find_user = λ id w. ok ada;
  find_user_by_email = λ email w. ok none;
  send_invite = λ to name inviter inverter role token w. (ok tt, w);
}

pub find_first-some :
    (p : InverterMember → Bool) (ms : List InverterMember) (m : InverterMember)
    → find_first p ms ≡ some m
    → Memᴰ m ms × (p m ≡ true)
find_first-some p [] m h = absurd (ground arith)
find_first-some p (x ∷ ms) m h = elim (Bool-cases (p x)) [
  | inl yes_ ↦ let e : m ≡ x = ground (arith, h) in (head e, rw e yes_)
  | inr no_ ↦ let (d, t) = find_first-some p ms m (ground (arith, h)) in (tail d, t)
]

pub find_first-none :
    (p : InverterMember → Bool) (ms : List InverterMember)
    → find_first p ms ≡ none
    → any_of p ms ≡ false
find_first-none p [] h = refl
find_first-none p (x ∷ ms) h = ground (arith, find_first-none p ms)

pub ok-injective : {A : Type 0} (x y : A) → ◌≡◌ {A = Result A} (ok x) (ok y) → x ≡ y
ok-injective x y h = cc

pub sym_failed :
    {A B : Type 0} (a : A) (w w' : Store) (e : Error)
    → ◌≡◌ {A = Result A × Store} (ok a, w) (err e, w')
    → {x y : B} → x ≡ y
sym_failed {A = A} a w w' e h = absurd (cc (ap (λ (x : Result A × Store). x.0) h))

pub inverter_of-id : (id : String) (i : Inverter) → inverter_of id ≡ ok i → i.id ≡ id
inverter_of-id id i h = ground (arith, eq_iff id "home")

pub create_row-rows :
    (c : MemberColumns) (w w' : Store) (m : InverterMember)
    → create_row c w ≡ (ok m, w')
    → (m.columns ≡ c)
      × (w'.members ≡ m ∷ w.members)
      × (any_of (λ (x : InverterMember). str_eq x.id m.id) w.members ≡ false)
create_row-rows c w w' m h =
    let m' : InverterMember = record { id = fresh_name row_id w.members; columns = c } in
    let e : m' ≡ m = ok-injective m' m (ap (λ (x : Result InverterMember × Store). x.0) h) in
    let r = ap (λ (x : Result InverterMember × Store). x.1.members) h in
    (rw (← e) refl, rw (← e) (sym r), rw (← e) (fresh_name-any_of row_id w.members))

abbrev pub store_laws : TeamLaws store_backend
store_laws = record {
  rows = λ w. w.members;
  get_some = λ p w m h. find_first-some p w.members m (ok-injective _ _ h);
  get_none = λ p w h. find_first-none p w.members (ok-injective _ _ h);
  update_rows =
      λ p f w w' r h. sym (ap (λ (x : Result (Option InverterMember) × Store). x.1.members) h);
  update_failed = λ p f w w' e h. sym_failed _ _ _ _ h;
  update_where_rows = λ p f w w' h. sym (ap (λ (x : Result (Unit {0}) × Store). x.1.members) h);
  update_where_failed = λ p f w w' e h. sym_failed _ _ _ _ h;
  create_rows = create_row-rows;
  create_failed = λ c w w' e h. sym_failed _ _ _ _ h;
  email_refl = eq_refl;
  uuid_fresh = λ w. fresh_name-any_of token_of w.members;
  find_inverter_id = λ id w i h. inverter_of-id id i h;
  uuid_rows = λ w. refl;
  send_invite_rows = λ to name inviter inverter role token w. refl;
}
