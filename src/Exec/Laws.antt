-- ===== src/Exec/Laws.antt =====
-- Facts that proofs about actions share.
use intell_api.Prelude.{◌≡◌, ◌⊎◌, inl, inr, refl, sym, ap, ◌∙◌}
use intell_api.Exec.{Error, Result, Exec, ok, err, resume, ◌>>◌, ◌>>=◌}

pub Result-cases {ℓ} :
    {A : Type ℓ} (r : Result A) → ((a : A) × (r ≡ ok a)) ⊎ ((e : Error) × (r ≡ err e))
Result-cases (ok a) = inl (a, refl)
Result-cases (err e) = inr (e, refl)

module _ {ℓ} {W B : Type ℓ} (m : Exec W (Unit {ℓ})) (n : Exec W B) (w : W) where
  -- A sequence that succeeds ran its first part with success, and is its second part from there.
  pub >>-eq-ok : {b : B} → ((m >> n) w).0 ≡ ok b → ((m w).0 ≡ ok tt) × ((m >> n) w ≡ n (m w).1)
  >>-eq-ok h = elim (Result-cases (m w).0) [
    | inl (_, e) ↦ (e, rw e)
    | inr (x, e) ↦ absurd (cc (sym h ∙ ap (λ r. (resume r (λ _. n) (m w).1).0) e))
  ]

  pub >>-of_ok : (m w).0 ≡ ok tt → (m >> n) w ≡ n (m w).1
  >>-of_ok e = rw e

-- A chain that succeeds ran its first part with success, and goes on from where that ended.
pub >>=-eq-ok {ℓ} :
    {W A B : Type ℓ} (m : Exec W A) (f : A → Exec W B) (w w' : W) {b : B}
    → (m >>= f) w ≡ (ok b, w')
    → (a : A) × (m w ≡ (ok a, (m w).1)) × (f a (m w).1 ≡ (ok b, w'))
>>=-eq-ok {W = W} {A = A} {B = B} m f w w' {b} h = by_result (m w).0 (m w).1 refl h
  where
    by_result :
        (r : Result A) (w1 : W)
        → m w ≡ (r, w1)
        → resume r f w1 ≡ (ok b, w')
        → (a : A) × (m w ≡ (ok a, (m w).1)) × (f a (m w).1 ≡ (ok b, w'))
    by_result (ok a) w1 e h =
        (a, e ∙ ap (λ (x : W). (ok a, x)) (sym (ap (λ (p : Result A × W). p.1) e)), rw e h)
    by_result (err x) w1 e h = absurd (cc (ap (λ (p : Result B × W). p.0) h))
