-- ===== src/Team/Access/Edits.antt =====
-- Every update of the service is an edit of rows.
use intell_api.Prelude.{◌≡◌, refl, ℕ, String, false}
use intell_api.Team.Member.{InverterRole, owner, is_role}
use intell_api.Team.Access.{re_invited, refreshed, activated, with_role, revoked}
use intell_api.Team.Access.Changes.{IsEdit}

pub re_invited-IsEdit :
    (r : InverterRole) (t i : String) (e : ℕ)
    → is_role r owner ≡ false
    → IsEdit (re_invited r t i e)
unfolding re_invited
re_invited-IsEdit r t i e h = record {
  id = λ m. refl;
  inverter_id = λ m. refl;
  email = λ m. refl;
  role = λ m _. h;
}

pub refreshed-IsEdit : (t : String) (e : ℕ) → IsEdit (refreshed t e)
unfolding refreshed
refreshed-IsEdit t e = record {
  id = λ m. refl;
  inverter_id = λ m. refl;
  email = λ m. refl;
  role = λ m h. h;
}

pub activated-IsEdit : (u : String) (e : ℕ) → IsEdit (activated u e)
unfolding activated
activated-IsEdit u e = record {
  id = λ m. refl;
  inverter_id = λ m. refl;
  email = λ m. refl;
  role = λ m h. h;
}

pub with_role-IsEdit : (r : InverterRole) → is_role r owner ≡ false → IsEdit (with_role r)
unfolding with_role
with_role-IsEdit r h = record {
  id = λ m. refl;
  inverter_id = λ m. refl;
  email = λ m. refl;
  role = λ m _. h;
}

pub revoked-IsEdit : IsEdit revoked
unfolding revoked
revoked-IsEdit = record {
  id = λ m. refl;
  inverter_id = λ m. refl;
  email = λ m. refl;
  role = λ m h. h;
}
