-- ===== src/Users/Admins/Filters.antt =====
-- The two ways in which a list of users is filtered.
use intell_api.Prelude.{String, Bool, Option, none, some, ◌≡◌, ◌&&◌, arith, ◌==◌}
use intell_api.Common.Enums.{SubscriptionPlan, plan_place}
use intell_api.Users.{User, UserSettings}
use intell_api.Users.Admins.{QuerySuperAdminUsersDto, is_base, is_listed, is_listed_with_plan}

-- The alternatives that the repository is given and the conditions that the query builder joins
-- accept the same users: with a plan filter a user is listed exactly if the one without accepts
-- the user, and the plan is the wanted one.
pub is_listed_with_plan-is_listed :
    (ilike : String → String → Bool) (q : QuerySuperAdminUsersDto) (wanted plan : SubscriptionPlan)
    (u : User) (s : Option UserSettings)
    → is_listed_with_plan ilike q wanted u s plan
      ≡ (is_listed ilike q q.search u s && plan_place plan == plan_place wanted)
unfolding is_listed is_listed_with_plan is_base
is_listed_with_plan-is_listed ilike q wanted plan u s = by_search q.search
  where
    by_search :
        (t : Option String)
        → is_listed_with_plan ilike (record q { search = t }) wanted u s plan ≡ (
            is_listed ilike (record q { search = t }) t u s && plan_place plan == plan_place wanted)
    by_search none = ground arith
    by_search (some t) = ground arith
