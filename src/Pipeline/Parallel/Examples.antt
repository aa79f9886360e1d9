-- ===== src/Pipeline/Parallel/Examples.antt =====
-- berlue/pipeline/parallel.py: three tasks, the second of which raises, on two threads.
use berlue.Base.{
  ℕ, ◌*◌, ◌≡◌, List, [], ◌∷◌, Result, ok, err, value_error, map_result, ◌==◌, nat_eq, if◌then◌else◌,
}
use berlue.Pipeline.Parallel.{Move, start, finish, map_parallele}
use berlue.Pipeline.Parallel.Order.{map_parallele-sequential}

abbrev tenfold : ℕ → Result ℕ
tenfold n = if n == 2 then err (value_error "two") else ok (n * 10)

abbrev numbers : List ℕ
numbers = 1 ∷ 2 ∷ 3 ∷ []

-- The second task ends first.
abbrev moves : List Move
moves = start ∷ start ∷ finish 1 ∷ start ∷ finish 2 ∷ []

map_parallele-sequential_example :
    map_parallele moves tenfold numbers 2 ≡ map_result tenfold numbers
map_parallele-sequential_example = map_parallele-sequential tenfold moves numbers 2
