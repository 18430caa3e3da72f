-- ===== src/Db/Order.antt =====
-- `ORDER BY` over rows that stand in the order of their insertion.
use go_fintech_microservices.Prelude.{ℕ, List, [], ◌∷◌, leb, if◌then◌else◌}

module _ {A : Type 0} (key : A → ℕ) where
  -- A row goes before the rows whose key is not smaller.
  unfoldable pub insert_by : A → List A → List A
  insert_by a [] = a ∷ []
  insert_by a (row ∷ rows) =
      let rest = insert_by a rows in if leb (key a) (key row) then a ∷ row ∷ rows else row ∷ rest

  -- `ORDER BY … ASC`
  unfoldable pub order_by : List A → List A
  unfolding insert_by
  order_by [] = []
  order_by (a ∷ rows) = insert_by a (order_by rows)
