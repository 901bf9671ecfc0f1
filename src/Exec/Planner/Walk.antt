-- ===== src/Exec/Planner/Walk.antt =====
-- exec/src/planner.cpp, `TransitionPlanner::Order`: a depth-first walk that lists the units of a
-- set after their dependencies. Each call that does work marks one more unit of the set as visited,
-- so one more than the number of units is fuel enough.
pub mod Members
pub mod Topology
use openvehicleframework.Base.{
  ℕ, zero, suc, Bool, not, ◌||◌, Option, some, none, List, [], ◌∷◌, ◌++◌, if◌then◌else◌, length,
  contains, insert, sort, reverse,
}
use openvehicleframework.Exec.Types.{ExecutionModel}
use openvehicleframework.Exec.Model.{find_unit}

-- What `visit` captures: the list and the set that it fills.
pub record Walk : Type 0 where
  pub ordered : List ℕ
  pub visited : List ℕ

-- The dependencies of a unit. A unit that is not defined, which the source would read through a
-- null pointer, has none.
unfoldable pub dependencies_of : ExecutionModel → ℕ → List ℕ
dependencies_of m u = elim (find_unit m u) [ none ↦ [] | some d ↦ d.dependencies ]

-- The loop over the dependencies.
unfoldable pub visit_each : (ℕ → Walk → Walk) → List ℕ → Walk → Walk
visit_each f [] w = w
visit_each f (d ∷ ds) w = visit_each f ds (f d w)

unfoldable pub visit : ExecutionModel → List ℕ → ℕ → ℕ → Walk → Walk
visit m units zero u w = w
visit m units (suc fuel) u w =
    let seen = record w { visited = insert u w.visited } in
    let rest = visit_each (visit m units fuel) (sort (dependencies_of m u)) seen in
    if not (contains units u) || contains w.visited u
    then w
    else record rest { ordered = rest.ordered ++ u ∷ [] }

-- The walk over the whole set, in ascending order of the identifiers.
unfoldable pub walk : ExecutionModel → List ℕ → Walk
walk m units =
    visit_each (visit m units (suc (length units))) (sort units)
      (record { ordered = []; visited = [] })

-- `Order`.
unfoldable pub order : ExecutionModel → List ℕ → Bool → List ℕ
order m units backwards =
    let ordered = (walk m units).ordered in if backwards then reverse ordered else ordered
