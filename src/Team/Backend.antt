-- ===== src/Team/Backend.antt =====
-- What the team code uses of code outside its module: the model action of the package @hng-sdk/orm
-- over the table of members, the services of inverters and users, the mailer, the clock and
-- crypto.randomUUID.
use intell_api.Prelude.{
  ℕ, String, Bool, true, false, Option, none, some, List, ◌∷◌, map, ◌≡◌, any_of, Memᴰ,
  if◌then◌else◌, str_eq,
}
use intell_api.Exec.{Result, Exec, Error, ok, err}
use intell_api.Users.{User}
use intell_api.Inverters.{Inverter}
use intell_api.Team.Member.{InverterMember, MemberColumns, InverterRole}

-- A query is the test that it makes of a row, and an update payload is the change of a row.
pub record TeamBackend : Type 1 where
  pub World : Type 0
  -- Date.now()
  pub now : World → ℕ
  pub random_uuid : World → String × World
  -- Equality of citext columns.
  pub email_eq : String → String → Bool
  -- this.get({ identifierOptions })
  pub get : (InverterMember → Bool) → World → Result (Option InverterMember)
  -- this.update({ identifierOptions, updatePayload })
  pub update :
      (InverterMember → Bool)
      → (InverterMember → InverterMember)
      → Exec World (Option InverterMember)
  -- repository.createQueryBuilder().update().set(…).where(…).execute()
  pub update_where :
      (InverterMember → Bool) → (InverterMember → InverterMember) → Exec World (Unit {0})
  -- this.create({ createPayload })
  pub create : MemberColumns → Exec World InverterMember
  -- this.find({ findOptions, paginationPayload: { page, limit } })
  pub find_page : (InverterMember → Bool) → ℕ → ℕ → World → Result (List InverterMember)
  -- invertersService.findOne, usersService.findOne and usersService.findByEmail
  pub find_inverter : String → World → Result Inverter
  pub find_user : String → World → Result User
  pub find_user_by_email : String → World → Result (Option User)
  -- The two invitation mails: the address, the name of a user with an account, the names of the
  -- inviter and the inverter, the role and the token.
  pub send_invite :
      String → Option String → String → String → InverterRole → String → Exec World (Unit {0})

-- A row after an update.
abbrev pub change :
    (InverterMember → Bool) → (InverterMember → InverterMember) → InverterMember → InverterMember
change p f m = if p m then f m else m

-- The documented behaviour that the proofs rely on, over the rows of the table.
pub record TeamLaws (b : TeamBackend) : Type 0 where
  pub rows : b.World → List InverterMember
  -- A query finds a row that passes its test, or none if there is no such row.
  pub get_some :
      (p : InverterMember → Bool) (w : b.World) (m : InverterMember)
      → b.get p w ≡ ok (some m)
      → Memᴰ m (rows w) × (p m ≡ true)
  pub get_none :
      (p : InverterMember → Bool) (w : b.World) → b.get p w ≡ ok none → any_of p (rows w) ≡ false
  -- An update changes the rows that pass its test, and nothing if it fails.
  pub update_rows :
      (p : InverterMember → Bool) (f : InverterMember → InverterMember) (w w' : b.World)
      (r : Option InverterMember)
      → b.update p f w ≡ (ok r, w')
      → rows w' ≡ map (change p f) (rows w)
  pub update_failed :
      (p : InverterMember → Bool) (f : InverterMember → InverterMember) (w w' : b.World) (e : Error)
      → b.update p f w ≡ (err e, w')
      → rows w' ≡ rows w
  pub update_where_rows :
      (p : InverterMember → Bool) (f : InverterMember → InverterMember) (w w' : b.World)
      → b.update_where p f w ≡ (ok tt, w')
      → rows w' ≡ map (change p f) (rows w)
  pub update_where_failed :
      (p : InverterMember → Bool) (f : InverterMember → InverterMember) (w w' : b.World) (e : Error)
      → b.update_where p f w ≡ (err e, w')
      → rows w' ≡ rows w
  -- A new row has the given columns and an id that no other row has.
  pub create_rows :
      (c : MemberColumns) (w w' : b.World) (m : InverterMember)
      → b.create c w ≡ (ok m, w')
      → (m.columns ≡ c)
        × (rows w' ≡ m ∷ rows w)
        × (any_of (λ (x : InverterMember). str_eq x.id m.id) (rows w) ≡ false)
  pub create_failed :
      (c : MemberColumns) (w w' : b.World) (e : Error)
      → b.create c w ≡ (err e, w')
      → rows w' ≡ rows w
  -- An address equals itself.
  pub email_refl : (s : String) → b.email_eq s s ≡ true
  -- A new token stands in no row.
  pub uuid_fresh :
      (w : b.World)
      → any_of (λ (x : InverterMember). str_eq x.invite_token (b.random_uuid w).0) (rows w) ≡ false
  -- An inverter that is found by its id has that id.
  pub find_inverter_id :
      (id : String) (w : b.World) (i : Inverter) → b.find_inverter id w ≡ ok i → i.id ≡ id
  -- Neither the generator of tokens nor the mailer touches the table.
  pub uuid_rows : (w : b.World) → rows (b.random_uuid w).1 ≡ rows w
  pub send_invite_rows :
      (to : String) (name : Option String) (inviter inverter : String) (role : InverterRole)
      (token : String) (w : b.World)
      → rows (b.send_invite to name inviter inverter role token w).1 ≡ rows w
