-- ===== src/Stream/PubSub/Entries.antt =====
-- The map of callbacks and the channels of Redis after a change.
use intell_api.Prelude.{
  ℕ, String, true, false, not, Option, none, some, List, [], ◌∷◌, ◌++◌, keep, ◌≡◌, ◌≢◌, inl, inr,
  refl, ap, sym, ◌∙◌, arith, str_eq, eq_iff, ◌==◌, ◌&&◌, ◌||◌, Bool-cases,
}
use intell_api.Stream.PubSub.{
  callbacks_of, without_entry, change_entry, is_in, with_callback, without_callback, is_subscribed,
  joined, is_empty,
}

abbrev pub map_some : (List ℕ → List ℕ) → Option (List ℕ) → Option (List ℕ)
map_some f none = none
map_some f (some cbs) = some (f cbs)

pub changed_here :
    (k : String) (f : List ℕ → List ℕ) (es : List (String × List ℕ))
    → callbacks_of k (change_entry k f es) ≡ map_some f (callbacks_of k es)
unfolding callbacks_of change_entry
changed_here k f [] = refl
changed_here k f ((j, cbs) ∷ es) = elim (Bool-cases (str_eq j k)) [
  | inl hit ↦ rw (hit, hit) refl
  | inr miss ↦ rw (miss, miss) (changed_here k f es)
]

pub changed_there :
    (k c : String) (f : List ℕ → List ℕ) (es : List (String × List ℕ))
    → str_eq k c ≡ false
    → callbacks_of c (change_entry k f es) ≡ callbacks_of c es
unfolding callbacks_of change_entry
changed_there k c f [] h = refl
changed_there k c f ((j, cbs) ∷ es) h = elim (Bool-cases (str_eq j k)) [
  | inl hit ↦
      let other : str_eq j c ≡ false = rw (← (eq_iff j k).0 hit) at h in rw (hit, other) refl
  | inr miss ↦ rw miss (ground (arith, changed_there k c f es h))
]

pub gone_here :
    (k : String) (es : List (String × List ℕ)) → callbacks_of k (without_entry k es) ≡ none
unfolding callbacks_of without_entry
gone_here k [] = refl
gone_here k ((j, cbs) ∷ es) = elim (Bool-cases (str_eq j k)) [
  | inl hit ↦ rw hit (gone_here k es)
  | inr miss ↦ rw (miss, miss) (gone_here k es)
]

pub gone_there :
    (k c : String) (es : List (String × List ℕ))
    → str_eq k c ≡ false
    → callbacks_of c (without_entry k es) ≡ callbacks_of c es
unfolding callbacks_of without_entry
gone_there k c [] h = refl
gone_there k c ((j, cbs) ∷ es) h = elim (Bool-cases (str_eq j k)) [
  | inl hit ↦
      let other : str_eq j c ≡ false = rw (← (eq_iff j k).0 hit) at h in
      rw (hit, other) (gone_there k c es h)
  | inr miss ↦ rw miss (ground (arith, gone_there k c es h))
]

pub is_in-append : (cb x : ℕ) (cbs : List ℕ) → is_in cb (cbs ++ x ∷ []) ≡ (x == cb || is_in cb cbs)
is_in-append cb x [] = ground arith
is_in-append cb x (y ∷ cbs) = ground (arith, is_in-append cb x cbs)

pub is_in-with_callback :
    (cb x : ℕ) (cbs : List ℕ) → is_in cb (with_callback x cbs) ≡ (x == cb || is_in cb cbs)
unfolding with_callback
is_in-with_callback cb x cbs = elim (Bool-cases (is_in x cbs)) [
  | inr new ↦ rw new (is_in-append cb x cbs)
  | inl old ↦ elim (Bool-cases (x == cb)) [
    | inr other ↦ rw (old, other) refl
    | inl same ↦ let e : x ≡ cb = ground (arith, same) in rw (old, same) (rw e at old)
  ]
]

pub is_in-without_callback :
    (cb x : ℕ) (cbs : List ℕ) → is_in cb (without_callback x cbs) ≡ (is_in cb cbs && not (x == cb))
unfolding without_callback
is_in-without_callback cb x [] = refl
is_in-without_callback cb x (y ∷ cbs) = ground (arith, is_in-without_callback cb x cbs)

pub is_subscribed-left :
    (c k : String) (cs : List String)
    → is_subscribed c (keep (λ x. not (str_eq x k)) cs) ≡ (is_subscribed c cs && not (str_eq k c))
is_subscribed-left c k [] = refl
is_subscribed-left c k (j ∷ cs) = elim (Bool-cases (str_eq j k)) [
  | inl hit ↦
      let same : str_eq j c ≡ str_eq k c = ap (λ s. str_eq s c) ((eq_iff j k).0 hit) in
      rw hit (ground (arith, same, is_subscribed-left c k cs))
  | inr miss ↦ rw miss (ground (arith, apart, is_subscribed-left c k cs))
]
  where
    apart : str_eq j c ≡ true → str_eq k c ≡ true → str_eq j k ≡ true
    apart h g = (eq_iff j k).1 ((eq_iff j c).0 h ∙ sym ((eq_iff k c).0 g))

pub is_subscribed-joined :
    (c k : String) (cs : List String)
    → is_subscribed c (joined k cs) ≡ (str_eq k c || is_subscribed c cs)
is_subscribed-joined c k cs = elim (Bool-cases (is_subscribed k cs)) [
  | inr new ↦ rw new refl
  | inl old ↦ elim (Bool-cases (str_eq k c)) [
    | inr other ↦ rw (old, other) refl
    | inl same ↦ let e : k ≡ c = (eq_iff k c).0 same in rw (old, same) (rw e at old)
  ]
]

pub is_in-is_empty : (cb : ℕ) (cbs : List ℕ) → is_empty cbs ≡ true → is_in cb cbs ≡ false
is_in-is_empty cb [] h = refl
is_in-is_empty cb (x ∷ cbs) h = absurd (ground (arith, h))

pub with_callback-ne : (x : ℕ) (cbs : List ℕ) → with_callback x cbs ≢ []
with_callback-ne x cbs h = absurd (ground (arith, is_in-with_callback x x cbs, ap (is_in x) h))
