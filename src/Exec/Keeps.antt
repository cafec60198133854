-- ===== src/Exec/Keeps.antt =====
-- Actions that keep a property of the state, whether they return or throw.
use intell_api.Exec.{Exec}

abbrev pub Keeps : {W A : Type 0} → (W → Type 0) → Exec W A → Type 0
Keeps {W} P m = (w : W) → P w → P (m w).1
