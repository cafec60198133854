-- ===== src/Database/Memory.antt =====
-- A table that is a list of rows inside a state: it satisfies the laws.
use intell_api.Prelude.{
  ℕ, Bool, true, false, not, String, Option, none, some, List, [], ◌∷◌, map, ◌≡◌, refl, ap, sym,
  ◌∙◌, inl, inr, arith, any_of, find_first, keep, Memᴰ, Bool-cases, str_eq,
}
use mathlib.Core.List.Memᴰ.{head, tail}
use intell_api.Prelude.Names.{fresh_name, fresh_name-any_of}
use intell_api.Exec.{Result, ok}
use intell_api.Database.{Table}
use intell_api.Database.Laws.{TableLaws, change, count}

module _ {A : Type 0} where
  pub find_first-some :
      (p : A → Bool) (xs : List A) (x : A) → find_first p xs ≡ some x → Memᴰ x xs × (p x ≡ true)
  find_first-some p [] x h = absurd (ground arith)
  find_first-some p (y ∷ xs) x h = elim (Bool-cases (p y)) [
    | inl passed ↦ let e : x ≡ y = ground (arith, h) in (head e, rw e passed)
    | inr failed ↦ let (d, t) = find_first-some p xs x (ground (arith, h)) in (tail d, t)
  ]

  pub find_first-none : (p : A → Bool) (xs : List A) → find_first p xs ≡ none → any_of p xs ≡ false
  find_first-none p [] h = refl
  find_first-none p (x ∷ xs) h = ground (arith, find_first-none p xs)

  change-none :
      (p : A → Bool) (f : A → A) (xs : List A) → any_of p xs ≡ false → map (change p f) xs ≡ xs
  change-none p f [] h = refl
  change-none p f (x ∷ xs) h = ground (arith, change-none p f xs)

  pub value_of :
      (W : Type 0) {r s : Result A} {v w : W} → ◌≡◌ {A = Result A × W} (r, v) (s, w) → r ≡ s
  value_of W h = ap (λ (x : Result A × W). x.0) h

  pub state_of :
      (W : Type 0) {r s : Result A} {v w : W} → ◌≡◌ {A = Result A × W} (r, v) (s, w) → v ≡ w
  state_of W h = ap (λ (x : Result A × W). x.1) h

  pub ok-injective : {x y : A} → ◌≡◌ {A = Result A} (ok x) (ok y) → x ≡ y
  ok-injective h = cc

module _ {W Row : Type 0} (rows : W → List Row) (put : List Row → W → W) (id : Row → String)
    (rows-put : (rs : List Row) (w : W) → rows (put rs w) ≡ rs) where
  abbrev pub first_changed : (Row → Row) → Option Row → Option Row
  first_changed f none = none
  first_changed f (some r) = some (f r)

  -- Rows are created at time 0.
  abbrev pub memory_table : Table W Row
  memory_table = record {
    get = λ p w. ok (find_first p (rows w));
    find = λ p page limit w. ok (keep p (rows w));
    update =
        λ p f w. (ok (first_changed f (find_first p (rows w))), put (map (change p f) (rows w)) w);
    update_where = λ p f w. (ok (count p (rows w)), put (map (change p f) (rows w)) w);
    create = λ mk w. let r = mk (fresh_name id (rows w)) 0 in (ok r, put (r ∷ rows w) w);
    delete = λ p w. (ok tt, put (keep (λ r. not (p r)) (rows w)) w);
  }

  pub update_none-rows :
      (p : Row → Bool) (f : Row → Row) (w w' : W)
      → memory_table.update p f w ≡ (ok none, w')
      → (rows w' ≡ rows w) × (any_of p (rows w) ≡ false)
  update_none-rows p f w w' h =
      let gone =
        find_first-none p (rows w)
          (missing (find_first p (rows w)) (ok-injective (value_of W h))) in
      (
        rw (← state_of W h)
            (rows-put (map (change p f) (rows w)) w ∙ change-none p f (rows w) gone),
        gone,
      )
    where
      missing : (o : Option Row) → first_changed f o ≡ none → o ≡ none
      missing none h = refl
      missing (some r) h = cc

  pub create_row-rows :
      (mk : String → ℕ → Row) (w w' : W) (r : Row)
      → memory_table.create mk w ≡ (ok r, w')
      → (key : String) × (time : ℕ) × (r ≡ mk key time)
        × (rows w' ≡ r ∷ rows w)
        × (any_of (λ (x : Row). str_eq (id x) key) (rows w) ≡ false)
  create_row-rows mk w w' r h =
      let key = fresh_name id (rows w) in
      let made = sym (ok-injective (value_of W h)) in
      (
        key,
        0,
        made,
        rw (← state_of W h, made) (rows-put (mk key 0 ∷ rows w) w),
        fresh_name-any_of id (rows w),
      )

  pub memory_laws : TableLaws memory_table rows id
  memory_laws = record {
    get_some = λ p w r h. find_first-some p (rows w) r (ok-injective h);
    get_none = λ p w h. find_first-none p (rows w) (ok-injective h);
    update_some = λ p f w w' r h. rw (← state_of W h) (rows-put (map (change p f) (rows w)) w);
    update_none = update_none-rows;
    update_failed = λ p f w w' e h. absurd (cc (value_of W h));
    update_where_rows = λ p f w w' n h. (
      rw (← state_of W h) (rows-put (map (change p f) (rows w)) w),
      sym (ok-injective (value_of W h)),
    );
    update_where_failed = λ p f w w' e h. absurd (cc (value_of W h));
    create_rows = create_row-rows;
    create_failed = λ mk w w' e h. absurd (cc (value_of W h));
    delete_rows = λ p w w' h. rw (← state_of W h) (rows-put (keep (λ r. not (p r)) (rows w)) w);
    delete_failed = λ p w w' e h. absurd (cc (value_of W h));
  }
