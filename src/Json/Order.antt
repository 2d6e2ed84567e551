-- ===== src/Json/Order.antt =====
-- Sorting by key forgets the order in which the fields were written.
use ttp_protocol.Common.{◌≡◌, ◌≢◌, String, Bool, List, [], ◌∷◌, arith}
use ttp_protocol.Json.{IsKeyOrder, insert}

module _ {le : String → String → Bool} (o : IsKeyOrder le) where
  pub insert_comm :
      (k j t u : String) (l : List (String × String))
      → k ≢ j
      → insert le k t (insert le j u l) ≡ insert le j u (insert le k t l)
  unfolding insert
  insert_comm k j t u [] ne = ground (arith, o.total k j, o.antisym k j)
  insert_comm k j t u ((i, v) ∷ l) ne =
      ground
        (arith, o.total k j, o.antisym k j, o.trans j k i, o.trans k j i, insert_comm k j t u l)
