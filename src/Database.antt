-- ===== src/Database.antt =====
-- The model action of the package @hng-sdk/orm over one table: AbstractModelAction and the query
-- builder, as a record of operations that the services take.
pub mod Laws
pub mod Memory
use intell_api.Prelude.{ℕ, Bool, String, Option, List}
use intell_api.Exec.{Result, Exec}

-- A query is the test that it makes of a row, an update payload is the change of a row, and a
-- create payload is the row that it makes of the id and the time that the database gives.
pub record Table (W Row : Type 0) : Type 0 where
  -- this.get({ identifierOptions })
  pub get : (Row → Bool) → W → Result (Option Row)
  -- this.find and this.list, by page and limit
  pub find : (Row → Bool) → ℕ → ℕ → W → Result (List Row)
  -- this.update({ identifierOptions, updatePayload })
  pub update : (Row → Bool) → (Row → Row) → Exec W (Option Row)
  -- repository.createQueryBuilder().update().set(…).where(…).execute(), with result.affected
  pub update_where : (Row → Bool) → (Row → Row) → Exec W ℕ
  -- this.create({ createPayload })
  pub create : (String → ℕ → Row) → Exec W Row
  -- this.delete({ identifierOptions })
  pub delete : (Row → Bool) → Exec W (Unit {0})
