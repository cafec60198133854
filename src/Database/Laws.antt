-- ===== src/Database/Laws.antt =====
-- The documented behaviour of a table over its rows.
use intell_api.Prelude.{
  ℕ, ◌+◌, Bool, true, false, String, none, some, List, [], ◌∷◌, map, ◌≡◌, any_of, Memᴰ,
  if◌then◌else◌, str_eq, not, keep, ◌≤◌, ◌++◌, refl, arith, ◌⊎◌, inl, inr, ap, sym, ◌∙◌, Bool-cases,
}
use intell_api.Exec.{Error, ok, err}
use intell_api.Exec.Laws.{Result-cases}
use intell_api.Database.{Table}

module _ {Row : Type 0} where
  -- A row after an update.
  abbrev pub change : (Row → Bool) → (Row → Row) → Row → Row
  change p f r = if p r then f r else r

  -- The rows that pass a test.
  abbrev pub count : (Row → Bool) → List Row → ℕ
  count p [] = 0
  count p (r ∷ rs) = (if p r then 1 else 0) + count p rs

module _ {W Row : Type 0} where
  pub record TableLaws (t : Table W Row) (rows : W → List Row) (id : Row → String) : Type 0 where
    -- A query finds a row that passes its test, or none if there is no such row.
    pub get_some :
        (p : Row → Bool) (w : W) (r : Row)
        → t.get p w ≡ ok (some r)
        → Memᴰ r (rows w) × (p r ≡ true)
    pub get_none : (p : Row → Bool) (w : W) → t.get p w ≡ ok none → any_of p (rows w) ≡ false
    -- An update changes the rows that pass its test and gives one of them back, or gives none if
    -- no row passes; it changes nothing if it fails.
    pub update_some :
        (p : Row → Bool) (f : Row → Row) (w w' : W) (r : Row)
        → t.update p f w ≡ (ok (some r), w')
        → rows w' ≡ map (change p f) (rows w)
    pub update_none :
        (p : Row → Bool) (f : Row → Row) (w w' : W)
        → t.update p f w ≡ (ok none, w')
        → (rows w' ≡ rows w) × (any_of p (rows w) ≡ false)
    pub update_failed :
        (p : Row → Bool) (f : Row → Row) (w w' : W) (e : Error)
        → t.update p f w ≡ (err e, w')
        → rows w' ≡ rows w
    pub update_where_rows :
        (p : Row → Bool) (f : Row → Row) (w w' : W) (n : ℕ)
        → t.update_where p f w ≡ (ok n, w')
        → (rows w' ≡ map (change p f) (rows w)) × (n ≡ count p (rows w))
    pub update_where_failed :
        (p : Row → Bool) (f : Row → Row) (w w' : W) (e : Error)
        → t.update_where p f w ≡ (err e, w')
        → rows w' ≡ rows w
    -- A new row is what the payload makes of an id that no other row has.
    pub create_rows :
        (mk : String → ℕ → Row) (w w' : W) (r : Row)
        → t.create mk w ≡ (ok r, w')
        → (key : String) × (time : ℕ) × (r ≡ mk key time)
          × (rows w' ≡ r ∷ rows w)
          × (any_of (λ (x : Row). str_eq (id x) key) (rows w) ≡ false)
    pub create_failed :
        (mk : String → ℕ → Row) (w w' : W) (e : Error)
        → t.create mk w ≡ (err e, w')
        → rows w' ≡ rows w
    pub delete_rows :
        (p : Row → Bool) (w w' : W)
        → t.delete p w ≡ (ok tt, w')
        → rows w' ≡ keep (λ (x : Row). not (p x)) (rows w)
    pub delete_failed :
        (p : Row → Bool) (w w' : W) (e : Error) → t.delete p w ≡ (err e, w') → rows w' ≡ rows w

-- Counts of the rows of a table that has been changed.
module _ {Row : Type 0} where
  module _ (q p : Row → Bool) (f : Row → Row) where
    pub count-change_add : (rs : List Row) → count q (map (change p f) rs) ≤ count q rs + count p rs
    count-change_add [] = omega arith
    count-change_add (r ∷ rs) = ground (arith, count-change_add rs)

    pub count-change_le :
        (rs : List Row)
        → ((r : Row) → q (f r) ≡ true → q r ≡ true)
        → count q (map (change p f) rs) ≤ count q rs
    count-change_le [] h = omega arith
    count-change_le (r ∷ rs) h = ground (arith, h r, count-change_le rs h)

    -- A change that takes every changed row out of the count.
    pub count-change_out :
        (rs : List Row)
        → ((r : Row) → q (f r) ≡ false)
        → ((r : Row) → p r ≡ true → q r ≡ true)
        → count q (map (change p f) rs) + count p rs ≡ count q rs
    count-change_out [] h k = omega arith
    count-change_out (r ∷ rs) h k = ground (arith, h r, k r, count-change_out rs h k)

  pub count_mono :
      (p q : Row → Bool) (rs : List Row)
      → ((r : Row) → p r ≡ true → q r ≡ true)
      → count p rs ≤ count q rs
  count_mono p q [] h = omega arith
  count_mono p q (r ∷ rs) h = ground (arith, h r, count_mono p q rs h)

  pub count-any_of : (p : Row → Bool) (rs : List Row) → any_of p rs ≡ false → count p rs ≡ 0
  count-any_of p [] h = refl
  count-any_of p (r ∷ rs) h = ground (arith, count-any_of p rs)

  pub count-append :
      (p : Row → Bool) (rs ss : List Row) → count p (rs ++ ss) ≡ count p rs + count p ss
  count-append p [] ss = omega arith
  count-append p (r ∷ rs) ss = omega (arith, count-append p rs ss)

module _ {W Row : Type 0} (t : Table W Row) {rows : W → List Row} {id : Row → String}
    (laws : TableLaws t rows id) where
  -- What an update leaves, whatever its end.
  pub update_cases :
      (p : Row → Bool) (f : Row → Row) (w : W)
      → (rows (t.update p f w).1 ≡ rows w) ⊎ (rows (t.update p f w).1 ≡ map (change p f) (rows w))
  update_cases p f w = elim (Result-cases (t.update p f w).0) [
    | inr (e, eq) ↦ inl (laws.update_failed p f w _ e (ap (λ r. (r, (t.update p f w).1)) eq))
    | inl (none, eq) ↦ inl (laws.update_none p f w _ (ap (λ r. (r, (t.update p f w).1)) eq)).0
    | inl (some r, eq) ↦ inr (laws.update_some p f w _ r (ap (λ r. (r, (t.update p f w).1)) eq))
  ]

  pub update_where_cases :
      (p : Row → Bool) (f : Row → Row) (w : W)
      → (rows (t.update_where p f w).1 ≡ rows w)
        ⊎ (rows (t.update_where p f w).1 ≡ map (change p f) (rows w))
  update_where_cases p f w = elim (Result-cases (t.update_where p f w).0) [
    | inr (e, eq) ↦
        inl (laws.update_where_failed p f w _ e (ap (λ r. (r, (t.update_where p f w).1)) eq))
    | inl (n, eq) ↦
        inr (laws.update_where_rows p f w _ n (ap (λ r. (r, (t.update_where p f w).1)) eq)).0
  ]

pub count-Memᴰ :
    {Row : Type 0} (p : Row → Bool) {r : Row} {rs : List Row}
    → Memᴰ r rs
    → p r ≡ true
    → 1 ≤ count p rs
count-Memᴰ p (Memᴰ.head e) h = ground (arith, ap p e)
count-Memᴰ p (Memᴰ.tail m) h = ground (arith, count-Memᴰ p m h)

-- A row of a changed table that passes the test is a changed one, if the change keeps the test.
pub Memᴰ-change :
    {Row : Type 0} (p : Row → Bool) (f : Row → Row) (rs : List Row) {s : Row}
    → ((r : Row) → p (f r) ≡ p r)
    → Memᴰ s (map (change p f) rs)
    → p s ≡ true
    → (r : Row) × (s ≡ f r)
Memᴰ-change p f [] k m h = elim m [ ]
Memᴰ-change p f (r ∷ rs) k (Memᴰ.tail m) h = Memᴰ-change p f rs k m h
Memᴰ-change p f (r ∷ rs) k (Memᴰ.head e) h = elim (Bool-cases (p r)) [
  | inl hit ↦ (r, e ∙ rw hit refl)
  | inr miss ↦ absurd (cc (sym h ∙ ap p (e ∙ rw miss refl) ∙ miss))
]
