-- ===== src/Examples/Scopes.antt =====
-- Containers with one scope.
use dlinear.Base.{ℕ, ◌-◌, ◌≡◌, some, [], ◌∷◌, take, ◌==◌, ==_iff, if◌then◌else◌, arith}
use dlinear.Scoped.Vector as Vector
use dlinear.Scoped.Table as Table
use dlinear.Scoped.Collection as Collection

abbrev vector : Vector.ScopedVector ℕ
vector = record { vector = 5 ∷ 6 ∷ []; scopes = 1 ∷ [] }

abbrev table : Table.ScopedMap ℕ ℕ
table = record { actions = Table.inserted 1 10 ∷ []; stack = 0 ∷ []; map = (1, 10) ∷ [] }

abbrev collection : Collection.ScopedSet ℕ
collection = record { actions = 1 ∷ []; stack = 0 ∷ []; set = 1 ∷ [] }

pop_lem_example :
    Vector.pop {A = ℕ} (record { vector = 5 ∷ 6 ∷ 7 ∷ []; scopes = 1 ∷ [] })
    ≡ some (record { vector = take 1 (5 ∷ 6 ∷ 7 ∷ []); scopes = [] }, 3 - 1)
pop_lem_example = Vector.pop_lem (5 ∷ 6 ∷ 7 ∷ []) 1 [] (omega arith)

pop-push_back_all-push_example :
    Vector.pop (Vector.push_back_all (7 ∷ 8 ∷ []) (Vector.push vector)) ≡ some (vector, 2)
pop-push_back_all-push_example = Vector.pop-push_back_all-push (7 ∷ 8 ∷ []) vector

pop-insert_all-push_example :
    Table.pop
      (λ i j. i == j)
      (Table.insert_all
        (λ i j. i == j)
        ((1, 11) ∷ (2, 20) ∷ (1, 12) ∷ [])
        (Table.push (λ i j. i == j) table))
    ≡ some table
pop-insert_all-push_example =
    Table.pop-insert_all-push (λ i j. i == j) ==_iff ((1, 11) ∷ (2, 20) ∷ (1, 12) ∷ []) table

at-insert_example :
    Table.at (λ i j. i == j) (Table.insert (λ i j. i == j) 1 11 table) 1
    ≡ (if 1 == 1 then some 11 else Table.at (λ i j. i == j) table 1)
at-insert_example = Table.at-insert (λ i j. i == j) ==_iff 1 1 11 table

pop_restores_example :
    Collection.pop
      (λ i j. i == j)
      (Collection.insert_all
        (λ i j. i == j)
        (1 ∷ 2 ∷ [])
        (Collection.push (λ i j. i == j) collection))
    ≡ some collection
pop_restores_example = Collection.pop_restores (λ i j. i == j) ==_iff (1 ∷ 2 ∷ []) collection
