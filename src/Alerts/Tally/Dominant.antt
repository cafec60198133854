-- ===== src/Alerts/Tally/Dominant.antt =====
-- The dominant key is one of the most frequent ones.
use intell_api.Prelude.{
  ℕ, ◌+◌, ◌≤◌, ◌<◌, Bool, true, false, Option-cases, subst, ◌∙◌, none, some, List, [], ◌∷◌,
  if◌then◌else◌, ◌≡◌, ◌↔◌, ◌⊎◌, inl, inr, refl, arith, Bool-cases,
}
use intell_api.Alerts.Tally.{better, bump, tally, pick_max, first_max, dominant, count}

module _ {K : Type 0} (eq : K → K → Bool) (eq_iff : (a b : K) → (eq a b ≡ true) ↔ (a ≡ b)) where
  -- The count that the entries hold for a key.
  value : K → List (K × ℕ) → ℕ
  value k [] = 0
  value k ((j, n) ∷ rest) = if eq j k then n else value k rest

  value-bump :
      (k j : K) (m : List (K × ℕ)) → value j (bump eq k m) ≡ (if eq k j then 1 else 0) + value j m
  unfolding value bump
  value-bump k j [] = ground arith
  value-bump k j ((i, n) ∷ m) = ground (arith, value-bump k j m, eq_iff i k, eq_iff i j, eq_iff k j)

  value-tally :
      (j : K) (acc : List (K × ℕ)) (ks : List K)
      → value j (tally eq acc ks) ≡ count eq j ks + value j acc
  unfolding tally
  value-tally j acc [] = omega arith
  value-tally j acc (k ∷ ks) = omega (arith, value-tally j (bump eq k acc) ks, value-bump k j acc)

  -- No key before has the key k.
  Fresh : K → List (K × ℕ) → Type 0
  Fresh k [] = Unit
  Fresh k ((j, n) ∷ rest) = (eq j k ≡ false) × Fresh k rest

  Distinct : List (K × ℕ) → Type 0
  Distinct [] = Unit
  Distinct ((j, n) ∷ rest) = Fresh j rest × Distinct rest

  Fresh-bump : (j k : K) (m : List (K × ℕ)) → eq k j ≡ false → Fresh j m → Fresh j (bump eq k m)
  unfolding Fresh bump
  Fresh-bump j k [] ne f = (ne, tt)
  Fresh-bump j k ((i, n) ∷ m) ne (d, f) = elim (Bool-cases (eq i k)) [
    | inl same ↦ rw same (d, f)
    | inr other ↦ rw other (d, Fresh-bump j k m ne f)
  ]

  Distinct-bump : (k : K) (m : List (K × ℕ)) → Distinct m → Distinct (bump eq k m)
  unfolding Distinct bump
  Distinct-bump k [] d = (unfold Fresh in tt, tt)
  Distinct-bump k ((i, n) ∷ m) (f, d) = elim (Bool-cases (eq i k)) [
    | inl same ↦ rw same (f, d)
    | inr other ↦
        rw other (Fresh-bump i k m (ground (arith, eq_iff i k, eq_iff k i)) f, Distinct-bump k m d)
  ]

  Distinct-tally : (acc : List (K × ℕ)) (ks : List K) → Distinct acc → Distinct (tally eq acc ks)
  unfolding tally
  Distinct-tally acc [] d = d
  Distinct-tally acc (k ∷ ks) d = Distinct-tally (bump eq k acc) ks (Distinct-bump k acc d)

  better-ge : (a b : K × ℕ) → (a.1 ≤ (better eq a b).1) × (b.1 ≤ (better eq a b).1)
  unfolding better
  better-ge a b = (ground arith, ground arith)

  pick_max-ge : (a : K × ℕ) (m : List (K × ℕ)) → a.1 ≤ (pick_max eq a m).1
  unfolding pick_max
  pick_max-ge a [] = omega arith
  pick_max-ge a (b ∷ m) = omega (arith, pick_max-ge (better eq a b) m, (better-ge a b).0)

  rest-pick_max : (k : K) (a : K × ℕ) (m : List (K × ℕ)) → value k m ≤ (pick_max eq a m).1
  unfolding pick_max value
  rest-pick_max k a [] = omega arith
  rest-pick_max k a (b ∷ m) =
      ground
        (arith, rest-pick_max k (better eq a b) m, pick_max-ge (better eq a b) m, (better-ge a b).1)

  value-pick_max : (k : K) (a : K × ℕ) (m : List (K × ℕ)) → value k (a ∷ m) ≤ (pick_max eq a m).1
  unfolding value
  value-pick_max k a m = ground (arith, rest-pick_max k a m, pick_max-ge a m)

  In : K × ℕ → List (K × ℕ) → Type 0
  In p [] = ⊥
  In p (e ∷ m) = (p ≡ e) ⊎ In p m

  better-cases : (a b : K × ℕ) → (better eq a b ≡ a) ⊎ (better eq a b ≡ b)
  unfolding better
  better-cases a b = ground arith

  pick_max-In : (a : K × ℕ) (m : List (K × ℕ)) → In (pick_max eq a m) (a ∷ m)
  unfolding pick_max In
  pick_max-In a [] = inl refl
  pick_max-In a (b ∷ m) = elim (pick_max-In (better eq a b) m) [
    | inl e ↦ elim (better-cases a b) [ inl f ↦ inl (e ∙ f) | inr f ↦ inr (inl (e ∙ f)) ]
    | inr later ↦ inr (inr later)
  ]

  Fresh-In : (k : K) (p : K × ℕ) (m : List (K × ℕ)) → Fresh k m → In p m → eq p.0 k ≡ false
  unfolding Fresh In
  Fresh-In k p [] f h = absurd h
  Fresh-In k p ((j, n) ∷ m) (d, f) (inl e) = rw e d
  Fresh-In k p ((j, n) ∷ m) (d, f) (inr h) = Fresh-In k p m f h

  value-In : (p : K × ℕ) (m : List (K × ℕ)) → Distinct m → In p m → value p.0 m ≡ p.1
  unfolding Distinct In value
  value-In p [] d h = absurd h
  value-In p ((j, n) ∷ m) (f, d) (inl e) = ground (arith, eq_iff j j)
  value-In p ((j, n) ∷ m) (f, d) (inr h) =
      ground (arith, value-In p m d h, Fresh-In j p m f h, eq_iff j p.0, eq_iff p.0 j)

  -- No key is more frequent than the dominant one.
  abbrev pub IsDominant : K → List K → Type 0
  IsDominant k ks = (0 < count eq k ks) × ((j : K) → count eq j ks ≤ count eq k ks)

  first_max-IsDominant :
      (m : List (K × ℕ)) (k : K)
      → Distinct m
      → first_max eq m ≡ some k
      → (j : K) → value j m ≤ value k m
  unfolding first_max
  first_max-IsDominant [] k d h j = cc
  first_max-IsDominant (a ∷ m) k d h j =
      let p = pick_max eq a m in
      let top : value p.0 (a ∷ m) ≡ p.1 = value-In p (a ∷ m) d (pick_max-In a m) in
      let same : p.0 ≡ k = cc in
      subst (λ x. value j (a ∷ m) ≤ value x (a ∷ m)) same (rw top (value-pick_max j a m))

  tally-value : (j : K) (ks : List K) → value j (tally eq [] ks) ≡ count eq j ks
  unfolding value
  tally-value j ks = omega (arith, value-tally j [] ks)

  count_pos : (x : K) (xs : List K) → 0 < count eq x (x ∷ xs)
  count_pos x xs = ground (arith, eq_iff x x)

  most_frequent :
      (k : K) (ks : List K) → dominant eq ks ≡ some k → (j : K) → count eq j ks ≤ count eq k ks
  unfolding dominant
  most_frequent k ks h j =
      rw (← tally-value j ks, ← tally-value k ks)
        (first_max-IsDominant (tally eq [] ks) k (Distinct-tally [] ks (unfold Distinct in tt)) h j)

  none_of : (j : K) (m : List (K × ℕ)) → first_max eq m ≡ none → value j m ≡ 0
  unfolding first_max value
  none_of j [] h = refl
  none_of j (e ∷ m) h = absurd (ground arith)

  -- A list that is not empty has a dominant key, which stands in it as often as any key does; the
  -- empty list has none.
  pub dominant_lem :
      (ks : List K)
      → ((dominant eq ks ≡ none) × (ks ≡ []))
        ⊎ ((k : K) × (dominant eq ks ≡ some k) × IsDominant k ks)
  dominant_lem [] = inl (unfold dominant in refl, refl)
  dominant_lem (x ∷ xs) = elim (Option-cases (dominant eq (x ∷ xs))) [
    | inl e ↦ absurd (
        omega (
          arith,
          count_pos x xs,
          tally-value x (x ∷ xs),
          none_of x (tally eq [] (x ∷ xs)) (unfold dominant in e),
        ))
    | inr (k, e) ↦
        let top = most_frequent k (x ∷ xs) e in
        inr (k, e, (omega (arith, count_pos x xs, top x), top))
  ]
