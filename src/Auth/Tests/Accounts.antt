-- ===== src/Auth/Tests/Accounts.antt =====
-- Sessions, passwords, subscriptions and redirections of the world's accounts.
use intell_api.Prelude.{◌≤◌, none, some, ◌≡◌, refl, arith, str_eq, ◌==◌, ◌&&◌}
use intell_api.Exec.{ok}
use intell_api.Common.Enums.{plan_place}
use intell_api.Common.Enums.SubscriptionPlan.{free}
use intell_api.Users.Sessions.{has_id, find_session_by_id, found_session, validate_session}
use intell_api.Users.Sessions.Lifetime.{IsLive, find_session_by_id-eq-ok}
use intell_api.Users.Rows.{is_current}
use intell_api.Users.Service.{create_free_subscription}
use intell_api.Users.Service.Subscriptions.{create_free_subscription-HasOnePlan}
use intell_api.Users.Admins.{QuerySuperAdminUsersDto, is_listed, is_listed_with_plan}
use intell_api.Users.Admins.Filters.{is_listed_with_plan-is_listed}
use intell_api.Database.Laws.{count}
use intell_api.Database.Memory.{memory_laws, find_first-none, ok-injective}
use intell_api.Auth.Tests.Store.{store, accounts, ada, session}

read_session : (find_session_by_id accounts "s1" store).0 ≡ ok session
unfolding find_session_by_id found_session validate_session
read_session = refl

find_session_by_id-eq-ok_example :
    (accounts.sessions.get (has_id "s1") store ≡ ok (some session))
    × (find_session_by_id accounts "s1" store ≡ (ok session, store))
    × IsLive session (accounts.now store)
find_session_by_id-eq-ok_example = find_session_by_id-eq-ok accounts "s1" store session read_session

-- A search that finds Ada.
abbrev wanted_users : QuerySuperAdminUsersDto
wanted_users = record {
  page = none;
  limit = none;
  search = some "Ada";
  plan = some free;
  status = none;
  state = none;
}

is_listed_with_plan-is_listed_example :
    is_listed_with_plan str_eq wanted_users free ada none free
    ≡ (is_listed str_eq wanted_users (some "Ada") ada none && plan_place free == plan_place free)
is_listed_with_plan-is_listed_example =
    is_listed_with_plan-is_listed str_eq wanted_users free free ada none

create_free_subscription-HasOnePlan_example :
    count (is_current "ada") (create_free_subscription accounts "ada" store).1.subscriptions ≤ 1
create_free_subscription-HasOnePlan_example =
    create_free_subscription-HasOnePlan accounts (λ w. w.subscriptions)
      (memory_laws (λ w. w.subscriptions) (λ rs w. record w { subscriptions = rs }) (λ s. s.id)
        (λ rs w. refl))
      (λ w. w.users)
      (memory_laws (λ w. w.users) (λ rs w. record w { users = rs }) (λ s. s.id) (λ rs w. refl))
      (λ p w h. find_first-none p w.subscriptions (ok-injective h)) "ada" store
      (λ user_id. omega arith) "ada"
