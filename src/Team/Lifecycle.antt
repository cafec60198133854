-- ===== src/Team/Lifecycle.antt =====
-- What the guard makes of an activated and of a revoked membership.
use intell_api.Prelude.{
  ℕ, ◌≡◌, ◌≢◌, inl, inr, refl, String, Bool, true, false, not, ◌&&◌, ◌||◌, Option, none, some, List,
  map, any_of, arith, str_eq, eq_refl, eq_iff, Memᴰ, any_of-Memᴰ, sym, ap, ◌∙◌, Bool-cases,
}
use mathlib.Core.List.Memᴰ as Memᴰ
use intell_api.Exec.{Result, ok}
use intell_api.Exec.Laws.{Result-cases}
use intell_api.Inverters.{Inverter}
use intell_api.Team.Member.{InverterRole, InverterMember, active}
use intell_api.Team.Backend.{TeamBackend, TeamLaws, change}
use intell_api.Team.Access.{
  activate_membership, activated, revoke_member_access, revoked, get_member, required, has_id,
}
use intell_api.Prelude.Distinct.{any_of-map-false}
use intell_api.Team.Access.Changes.{distinct_unique, IsTable}
use intell_api.Team.Guard.{
  can_activate, with_inverter_id, with_user, check_user, member_allows, is_active_member,
  rank_allows,
}
use intell_api.Team.Guard.Grants.{can_activate-IsEntitled}

not_same : (s t : String) → s ≢ t → str_eq s t ≡ false
not_same s t ne = ground (arith, eq_iff s t)

module _ (b : TeamBackend) (laws : TeamLaws b) where
  open b use {World, get, update, find_inverter, now}
  open laws use {rows}

  revoked_rows :
      (inverter_id member_id : String) (w w' : World)
      → revoke_member_access b inverter_id member_id w ≡ (ok tt, w')
      → rows w' ≡ map (change (has_id member_id) revoked) (rows w)
  unfolding revoke_member_access get_member required
  revoked_rows inverter_id member_id w w' h =
      let p = λ (m : InverterMember). str_eq m.inverter_id inverter_id && has_id member_id m in
      elim (Result-cases (get p w)) [
        | inr (x, e) ↦ absurd (ground (arith, e))
        | inl (none, e) ↦ absurd (ground (arith, e))
        | inl (some m, e) ↦
            let (_, test) = laws.get_some p w m e in
            let same : m.id ≡ member_id = ground (arith, eq_iff m.id member_id) in
            elim (Result-cases (update (has_id m.id) revoked w).0) [
              | inr (x, e') ↦ absurd (ground (arith, e, e'))
              | inl (r, e') ↦
                  let w1 = (update (has_id m.id) revoked w).1 in
                  let moved =
                    laws.update_rows (has_id m.id) revoked w w1 r (ap (λ x. (x, w1)) e') in
                  let h' = rw (e, e') at h in
                  rw (← same) (rw (ap (λ (x : Result (Unit {0}) × World). x.1) (sym h')) moved)
            ]
      ]

  -- No other active row of the user at the inverter.
  unfoldable pub Only : String → String → String → World → Type 0
  Only inverter_id user member_id w =
      any_of (λ m. is_active_member inverter_id user m && not (has_id member_id m)) (rows w) ≡ false

  active_test :
      (inverter_id user : String) (m : InverterMember)
      → m.inverter_id ≡ inverter_id
      → m.user_id ≡ some user
      → m.status ≡ active
      → is_active_member inverter_id user m ≡ true
  active_test i u m ei eu es = rw (ei, eu, es, eq_refl i, eq_refl u) refl

  revoked_inactive :
      (inverter_id user : String) (m : InverterMember)
      → is_active_member inverter_id user (revoked m) ≡ false
  unfolding revoked
  revoked_inactive i u m = ground arith

  change_inactive :
      (inverter_id user member_id : String) (m : InverterMember)
      → (is_active_member inverter_id user m && not (has_id member_id m)) ≡ false
      → is_active_member inverter_id user (change (has_id member_id) revoked m) ≡ false
  change_inactive i u id m h = elim (Bool-cases (has_id id m)) [
    | inl e ↦ rw e (revoked_inactive i u m)
    | inr e ↦ rw e (and_true (is_active_member i u m) (has_id id m) h e)
  ]
    where
      and_true : (x y : Bool) → (x && not y) ≡ false → y ≡ false → x ≡ false
      and_true x y h e = ground arith

  -- A user whose only active membership of an inverter is revoked, and who does not own the
  -- inverter, is not let through by the guard any more to a handler that is not open to outsiders,
  -- whatever the roles that it needs. The table behaves as documented.
  pub can_activate-revoke_member_access :
      (needed : Option (List InverterRole)) (inverter_id member_id user : String) (w w' : World)
      → revoke_member_access b inverter_id member_id w ≡ (ok tt, w')
      → Only inverter_id user member_id w
      → ((i : Inverter) → find_inverter inverter_id w' ≡ ok i → user ≢ i.user_id)
      → (can_activate b needed false (some inverter_id) (some user) w').0 ≢ ok true
  unfolding Only
  can_activate-revoke_member_access needed inverter_id member_id user w w' done only stranger
        passed =
      let gone =
        any_of-map-false (λ m. is_active_member inverter_id user m && not (has_id member_id m))
          (is_active_member inverter_id user) (change (has_id member_id) revoked) (rows w)
          (change_inactive inverter_id user member_id) only in
      elim (can_activate-IsEntitled b laws needed false (some inverter_id) (some user) w' passed) [
        | inl open_ ↦ absurd (ground (arith, open_))
        | inr (id, u, i, ei, eu, found, inl own) ↦
            absurd (stranger i (ground (arith, ei, found)) (ground (arith, eu, own)))
        | inr (id, u, i, ei, eu, found, inr (m, e)) ↦
            let row = rw (revoked_rows inverter_id member_id w w' done) at e.row in
            let test =
              active_test inverter_id user m (ground (arith, e.inverter, ei))
                (ground (arith, e.user_id, eu)) e.status in
            absurd (ground (arith, gone, any_of-Memᴰ (is_active_member inverter_id user) row test))
      ]

  activated_rows :
      (m : InverterMember) (user : String) (w w' : World)
      → activate_membership b m user w ≡ (ok tt, w')
      → rows w' ≡ map (change (has_id m.id) (activated user (now w))) (rows w)
  unfolding activate_membership required
  activated_rows m user w w' h =
      let f = activated user (now w) in
      let w1 = (update (has_id m.id) f w).1 in
      elim (Result-cases (update (has_id m.id) f w).0) [
        | inr (x, e) ↦ absurd (ground (arith, e))
        | inl (none, e) ↦ absurd (ground (arith, e))
        | inl (some r, e) ↦
            let moved = laws.update_rows (has_id m.id) f w w1 (some r) (ap (λ x. (x, w1)) e) in
            let h' = rw e at h in rw (ap (λ (x : Result (Unit {0}) × World). x.1) (sym h')) moved
      ]

  activated_active :
      (user : String) (time : ℕ) (m : InverterMember)
      → is_active_member m.inverter_id user (activated user time m) ≡ true
  unfolding activated
  activated_active user time m = rw (eq_refl m.inverter_id, eq_refl user) refl

  change_self :
      (user : String) (time : ℕ) (m : InverterMember)
      → change (has_id m.id) (activated user time) m ≡ activated user time m
  change_self user time m = rw (eq_refl m.id) refl

  -- The active rows of the user at the inverter after the activation.
  activated-Only :
      (user : String) (time : ℕ) (m x : InverterMember) (w : World)
      → IsTable b laws (rows w)
      → Memᴰ m (rows w)
      → Only m.inverter_id user m.id w
      → Memᴰ x (map (change (has_id m.id) (activated user time)) (rows w))
      → is_active_member m.inverter_id user x ≡ true
      → x ≡ activated user time m
  unfolding Only
  activated-Only user time m x w table row only d test =
      let g = change (has_id m.id) (activated user time) in
      let (y, dy, e) = Memᴰ.of_map g (rows w) d in
      elim (Bool-cases (has_id m.id y)) [
        | inl same ↦
            let one =
              distinct_unique b laws (rows w) y m table.ids dy row ((eq_iff y.id m.id).0 same) in
            sym e ∙ rw one (change_self user time m)
        | inr other ↦
            let p = λ (z : InverterMember).
              is_active_member m.inverter_id user z && not (has_id m.id z) in
            let kept : x ≡ y = sym e ∙ rw other refl in
            let test' = rw kept at test in
            absurd (ground (arith, only, any_of-Memᴰ p dy (rw (test', other) refl)))
      ]

  -- Activating a membership gives its user the access of its role: the guard answers yes where the
  -- handler is open to outsiders, and as the role's rank says where it is not. The membership is a
  -- row of a table with unique ids, one row at most for each address at an inverter, and no member
  -- with an owner's role; the id of its inverter is not empty; the user does not own the inverter
  -- and has no other active membership of it; the inverter and the membership can be read
  -- afterwards; the table behaves as documented.
  pub can_activate-activate_membership :
      (needed : Option (List InverterRole)) (is_outsider : Bool) (m : InverterMember)
      (user : String) (w w' : World) (i : Inverter) (r : Option InverterMember)
      → activate_membership b m user w ≡ (ok tt, w')
      → IsTable b laws (rows w)
      → Memᴰ m (rows w)
      → Only m.inverter_id user m.id w
      → str_eq m.inverter_id "" ≡ false
      → find_inverter m.inverter_id w' ≡ ok i
      → user ≢ i.user_id
      → get (is_active_member m.inverter_id user) w' ≡ ok r
      → can_activate b needed is_outsider (some m.inverter_id) (some user) w'
        ≡ (ok (is_outsider || rank_allows needed m.role), w')
  unfolding can_activate with_inverter_id with_user check_user member_allows activated
  can_activate-activate_membership needed true m user w w' i r done table row only named found other
        read =
      refl
  can_activate-activate_membership needed false m user w w' i none done table row only named found
        other read =
      let g = change (has_id m.id) (activated user (now w)) in
      let d' : Memᴰ (g m) (map g (rows w)) = Memᴰ.map g row in
      let d = rw (change_self user (now w) m) at d' in
      let q = is_active_member m.inverter_id user in
      let free = laws.get_none q w' read in
      let missing = rw (activated_rows m user w w' done) at free in
      absurd (
        ground (
          arith,
          missing,
          any_of-Memᴰ (is_active_member m.inverter_id user) d (activated_active user (now w) m),
        ))
  can_activate-activate_membership needed false m user w w' i (some x) done table row only named
        found other read =
      let (d, test) = laws.get_some (is_active_member m.inverter_id user) w' x read in
      let e =
        activated-Only user (now w) m x w table row only (rw (activated_rows m user w w' done) at d)
          test in
      let stranger = not_same user i.user_id other in rw (named, found, stranger, read, e) refl
