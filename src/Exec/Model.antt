-- ===== src/Exec/Model.antt =====
-- exec/src/model.cpp, the lookups of a validated model (`BuildIndex`, `FindUnit`, `FindDomain`,
-- `FindMode`). `emplace` keeps the first definition of an identifier.
pub mod Lookup
pub mod Examples
use openvehicleframework.Base.{
  ℕ, suc, Option, some, none, List, [], ◌∷◌, Table, find, emplace, if◌then◌else◌, get_elem?,
}
use openvehicleframework.Exec.Types.{
  ExecutionModel, ExecutionUnitDefinition, DomainDefinition, ModeDefinition, ModeRef, same_ref,
}

-- `units_.emplace(id, index)` for each unit, from an index on.
index_units : List ExecutionUnitDefinition → ℕ → Table ℕ → Table ℕ
index_units [] i t = t
index_units (u ∷ us) i t = index_units us (suc i) (emplace u.id i t)

index_domains : List DomainDefinition → ℕ → Table ℕ → Table ℕ
index_domains [] i t = t
index_domains (d ∷ ds) i t = index_domains ds (suc i) (emplace d.id i t)

-- The map from mode references.
abbrev pub ModeTable : Type 0
ModeTable = List (ModeRef × ModeDefinition)

abbrev pub find_ref : ModeRef → ModeTable → Option ModeDefinition
find_ref r [] = none
find_ref r ((s, m) ∷ t) = if same_ref s r then some m else find_ref r t

abbrev pub emplace_ref : ModeRef → ModeDefinition → ModeTable → ModeTable
emplace_ref r m [] = (r, m) ∷ []
emplace_ref r m ((s, n) ∷ t) = if same_ref s r then (s, n) ∷ t else (s, n) ∷ emplace_ref r m t

index_domain_modes : ℕ → List ModeDefinition → ModeTable → ModeTable
index_domain_modes d [] t = t
index_domain_modes d (m ∷ ms) t =
    index_domain_modes d ms (emplace_ref (record { domain = d; mode = m.id }) m t)

index_modes : List DomainDefinition → ModeTable → ModeTable
unfolding index_domain_modes
index_modes [] t = t
index_modes (d ∷ ds) t = index_modes ds (index_domain_modes d.id d.modes t)

-- The element that an index entry points at.
abbrev pointee {ℓ} : {A : Type ℓ} → List A → Option ℕ → Option A
pointee xs none = none
pointee xs (some i) = get_elem? xs i

unfoldable pub find_unit : ExecutionModel → ℕ → Option ExecutionUnitDefinition
unfolding index_units
find_unit m id = pointee m.units (find id (index_units m.units 0 []))

unfoldable pub find_domain : ExecutionModel → ℕ → Option DomainDefinition
unfolding index_domains
find_domain m id = pointee m.domains (find id (index_domains m.domains 0 []))

unfoldable pub find_mode : ExecutionModel → ModeRef → Option ModeDefinition
unfolding index_modes
find_mode m r = find_ref r (index_modes m.domains [])
