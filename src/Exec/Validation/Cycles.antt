-- ===== src/Exec/Validation/Cycles.antt =====
-- exec/src/model.cpp, `InspectDependencyCycles`: a depth-first search with three colours. Each nested
-- call marks one more unit as active, so one more than the number of units is fuel enough.
pub mod Acyclic
use openvehicleframework.Base.{
  ℕ, zero, suc, Bool, true, false, Option, some, none, List, [], ◌∷◌, ◌++◌, Table, find, assign,
  if◌then◌else◌, ◌==◌, length, contains, insert,
}
use openvehicleframework.Exec.Types.{ExecutionUnitDefinition}
use openvehicleframework.Exec.Validation.Names.{dependency_cycle, Segment, in_units, ModelIssue}

abbrev pub unit_path : ExecutionUnitDefinition → List Segment
unit_path u = in_units u.id ∷ []

pub data Visit : Type 0 where
  unseen active complete : Visit

-- What the search captures.
pub record Search : Type 0 where
  pub visits : Table Visit
  pub stack : List ℕ
  pub reported : List ℕ
  pub issues : List ModelIssue

-- `visits[id]`: a new entry is unseen.
abbrev pub colour : ℕ → Table Visit → Visit
colour id t = elim (find id t) [ none ↦ unseen | some v ↦ v ]

-- The part of the stack from the first place of the identifier on.
abbrev pub stack_from : ℕ → List ℕ → List ℕ
stack_from id [] = []
stack_from id (x ∷ xs) = if x == id then x ∷ xs else stack_from id xs

-- `pop_back`.
abbrev pub pop : List ℕ → List ℕ
pop [] = []
pop (x ∷ []) = []
pop (x ∷ y ∷ xs) = x ∷ pop (y ∷ xs)

-- A dependency that is being visited closes a cycle, which is reported once for each dependency.
unfoldable pub report : ExecutionUnitDefinition → ℕ → Search → Search
report u d s = if contains s.reported d then s else record s {
  reported = insert d s.reported;
  issues =
      s.issues
      ++ record {
        code = dependency_cycle;
        path = unit_path u;
        cycle = stack_from d s.stack ++ d ∷ [];
      }
        ∷ [];
}

-- A dependency that is defined, by its colour.
pub visit_coloured :
    (ExecutionUnitDefinition → Search → Search)
    → ExecutionUnitDefinition
    → ℕ
    → ExecutionUnitDefinition
    → Visit
    → Search
    → Search
unfolding report
visit_coloured call u d v unseen s = call v s
visit_coloured call u d v active s = report u d s
visit_coloured call u d v complete s = s

-- One dependency of a unit.
pub visit_dependency :
    (ExecutionUnitDefinition → Search → Search)
    → ExecutionUnitDefinition
    → ℕ
    → Option ExecutionUnitDefinition
    → Search
    → Search
unfolding visit_coloured
visit_dependency call u d none s = s
visit_dependency call u d (some v) s = visit_coloured call u d v (colour d s.visits) s

pub visit_dependencies :
    (ExecutionUnitDefinition → Search → Search)
    → Table ExecutionUnitDefinition
    → ExecutionUnitDefinition
    → List ℕ
    → Search
    → Search
unfolding visit_dependency
visit_dependencies call apps u [] s = s
visit_dependencies call apps u (d ∷ ds) s =
    visit_dependencies call apps u ds (visit_dependency call u d (find d apps) s)

abbrev pub enter : ExecutionUnitDefinition → Search → Search
enter u s = record s { visits = assign u.id active s.visits; stack = s.stack ++ u.id ∷ [] }

abbrev pub leave : ExecutionUnitDefinition → Search → Search
leave u s = record s { visits = assign u.id complete s.visits; stack = pop s.stack }

pub visit : Table ExecutionUnitDefinition → ℕ → ExecutionUnitDefinition → Search → Search
unfolding visit_dependencies
visit apps zero u s = s
visit apps (suc fuel) u s =
    leave u (visit_dependencies (visit apps fuel) apps u u.dependencies (enter u s))

abbrev pub is_unseen : Visit → Bool
is_unseen unseen = true
is_unseen _ = false

-- One unit of the loop over the units, by its colour.
pub search_unit :
    Table ExecutionUnitDefinition → ℕ → ExecutionUnitDefinition → Visit → Search → Search
unfolding visit
search_unit apps fuel u unseen s = visit apps fuel u s
search_unit apps fuel u _ s = s

pub search_units :
    Table ExecutionUnitDefinition → ℕ → List ExecutionUnitDefinition → Search → Search
unfolding search_unit
search_units apps fuel [] s = s
search_units apps fuel (u ∷ us) s =
    search_units apps fuel us (search_unit apps fuel u (colour u.id s.visits) s)

abbrev pub no_search : Search
no_search = record { visits = []; stack = []; reported = []; issues = [] }

-- `InspectDependencyCycles`.
unfoldable pub inspect_dependency_cycles :
    Table ExecutionUnitDefinition → List ExecutionUnitDefinition → List ModelIssue
unfolding search_units
inspect_dependency_cycles apps us = (search_units apps (suc (length us)) us no_search).issues
