-- ===== src/Team/Tests.antt =====
-- The team service over a table that is a list of rows.
mod Rows
use intell_api.Prelude.{
  ◌+◌, ◌*◌, ◌∙◌, ◌≡◌, ◌≢◌, ◌⊎◌, refl, ◌||◌, String, true, false, none, some, [], ◌∷◌, arith,
  if◌then◌else◌, ltb, eq_iff, ap, sym,
}
use mathlib.Core.List.Memᴰ.{head}
use intell_api.Exec.{conflict, ok, err}
use intell_api.Inverters.{Inverter}
use intell_api.Team.Member.{admin, technician, viewer, invited, active, InverterMember}
use intell_api.Team.Access.{
  InviteMemberDto, invite_ttl_ms, invite_member, invite, find_by_inverter_id_and_email,
  find_by_token_and_email, find_invite_by_token_and_email, activate_membership, activated,
  revoke_member_access, revoked,
}
use intell_api.Prelude.Distinct.{distinct}
use intell_api.Team.Access.Changes.{IsTable}
use intell_api.Team.Access.Rules.{invite_op, IsValid, run, run-IsTable}
use intell_api.Team.Access.Invites.{find_invite_by_token_and_email-invite_member}
use intell_api.Team.Guard.{can_activate, member_allows, rank_allows}
use intell_api.Team.Guard.Grants.{rank_allows_mono, IsEntitled, can_activate-IsEntitled}
use intell_api.Team.Lifecycle.{
  Only, can_activate-revoke_member_access, can_activate-activate_membership,
}
use intell_api.Team.Tests.Rows.{
  Store, home, store_backend, store_laws, inverter_of, ok-injective, ada,
}

abbrev empty : Store
empty = record { members = []; time = 1000 }

abbrev tunde : InviteMemberDto
tunde = record { email = "tunde@example.com"; role = technician }

abbrev tundes_row : InverterMember
tundes_row = record {
  id = "x";
  columns = record {
    inverter_id = "home";
    user_id = none;
    email = "tunde@example.com";
    role = technician;
    status = invited;
    invited_by_id = some "ada";
    invite_token = "x";
    invite_token_expires_at = some (1000 + invite_ttl_ms);
  };
}

abbrev with_tunde : Store
with_tunde = record { members = tundes_row ∷ []; time = 1000 }

abbrev next_day : Store
next_day = record { members = tundes_row ∷ []; time = 1000 + 24 * 60 * 60 * 1000 }

tunde_is_new :
    find_by_inverter_id_and_email store_backend "home" "tunde@example.com" empty ≡ ok none
unfolding find_by_inverter_id_and_email
tunde_is_new = refl

inviting : invite_member store_backend tunde "home" "ada" empty ≡ (ok tundes_row, with_tunde)
unfolding invite_member
inviting = refl

tunde_found :
    find_by_token_and_email store_backend "x" "tunde@example.com" next_day ≡ ok (some tundes_row)
unfolding find_by_token_and_email
tunde_found = refl

find_invite_by_token_and_email-invite_member_example :
    find_invite_by_token_and_email store_backend "x" "tunde@example.com" next_day ≡ (
      if ltb (1000 + invite_ttl_ms) next_day.time
          then err (conflict "This invite link has expired. Please request a new one.")
          else ok tundes_row,
      next_day,
    )
find_invite_by_token_and_email-invite_member_example =
    find_invite_by_token_and_email-invite_member store_backend store_laws tunde "home" "ada" empty
      with_tunde next_day tundes_row (some tundes_row) tunde_is_new inviting refl tunde_found

empty-IsTable : IsTable store_backend store_laws []
unfolding distinct
empty-IsTable = record { ids = refl; keys = refl; roles = refl }

tunde-IsValid : IsValid (invite_op tunde "home" "ada")
unfolding IsValid
tunde-IsValid = refl

run-IsTable_example :
    IsTable store_backend store_laws
      (run store_backend store_laws (invite_op tunde "home" "ada") empty).members
run-IsTable_example =
    run-IsTable store_backend store_laws (invite_op tunde "home" "ada") empty tunde-IsValid
      empty-IsTable

technicians_pass : rank_allows (some (technician ∷ [])) technician ≡ true
unfolding rank_allows
technicians_pass = refl

rank_allows_mono_example : rank_allows (some (technician ∷ [])) admin ≡ true
rank_allows_mono_example =
    rank_allows_mono (some (technician ∷ [])) technician admin (omega arith) technicians_pass

with_tunde-IsTable : IsTable store_backend store_laws (tundes_row ∷ [])
unfolding distinct
with_tunde-IsTable = record { ids = refl; keys = refl; roles = refl }

abbrev active_row : InverterMember
active_row = record tundes_row {
  columns = record (tundes_row.columns) {
    status = active;
    user_id = some "tunde";
    invite_token_expires_at = some 1000;
  };
}

abbrev with_member : Store
with_member = record { members = active_row ∷ []; time = 1000 }

activating : activate_membership store_backend tundes_row "tunde" with_tunde ≡ (ok tt, with_member)
unfolding activate_membership activated
activating = refl

tunde-Only : Only store_backend store_laws "home" "tunde" "x" with_tunde
unfolding Only
tunde-Only = refl

not_ada : ◌≢◌ {A = String} "tunde" "ada"
not_ada e = absurd (ground (arith, (eq_iff "tunde" "ada").1 e))

can_activate-activate_membership_example :
    can_activate store_backend (some (admin ∷ [])) false (some "home") (some "tunde") with_member
    ≡ (ok (false || rank_allows (some (admin ∷ [])) technician), with_member)
can_activate-activate_membership_example =
    can_activate-activate_membership store_backend store_laws (some (admin ∷ [])) false tundes_row
      "tunde" with_tunde with_member home (some active_row) activating with_tunde-IsTable
      (head refl) tunde-Only refl refl not_ada refl

tunde_passes :
    (can_activate store_backend
      (some (viewer ∷ []))
      false
      (some "home")
      (some "tunde")
      with_member).0
    ≡ ok true
unfolding can_activate member_allows rank_allows
tunde_passes = refl

can_activate-IsEntitled_example :
    (false ≡ true)
    ⊎ ((id : String) × (u : String) × (i : Inverter) × (some "home" ≡ some id)
        × (some "tunde" ≡ some u)
        × (inverter_of id ≡ ok i)
        × ((u ≡ i.user_id)
            ⊎ ((m : InverterMember) × IsEntitled store_backend store_laws
                  (some (viewer ∷ []))
                  id
                  u
                  with_member
                  m)))
can_activate-IsEntitled_example =
    can_activate-IsEntitled store_backend store_laws (some (viewer ∷ [])) false (some "home")
      (some "tunde") with_member tunde_passes

abbrev after_revoke : Store
after_revoke = record { members = revoked active_row ∷ []; time = 1000 }

revoking : revoke_member_access store_backend "home" "x" with_member ≡ (ok tt, after_revoke)
unfolding revoke_member_access
revoking = refl

still-Only : Only store_backend store_laws "home" "tunde" "x" with_member
unfolding Only
still-Only = refl

no_owner : (i : Inverter) → inverter_of "home" ≡ ok i → "tunde" ≢ i.user_id
no_owner i h e = not_ada (e ∙ ap (λ (j : Inverter). j.user_id) (sym (ok-injective home i h)))

can_activate-revoke_member_access_example :
    (can_activate store_backend none false (some "home") (some "tunde") after_revoke).0 ≢ ok true
can_activate-revoke_member_access_example =
    can_activate-revoke_member_access store_backend store_laws none "home" "x" "tunde" with_member
      after_revoke revoking still-Only no_owner
