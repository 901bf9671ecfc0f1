-- ===== src/Exec/Model/Lookup.antt =====
-- The lookups of exec/src/model.cpp against the definitions in the order of the model.
use openvehicleframework.Base.{
  ℕ, suc, ◌≡◌, refl, ap, ◌∙◌, Option, some, none, List, [], ◌∷◌, Table, find, emplace, find-emplace,
  if◌then◌else◌, ◌==◌, arith, sym,
}
use openvehicleframework.Exec.Types.{
  ExecutionModel, ExecutionUnitDefinition, DomainDefinition, ModeDefinition, ModeRef, same_ref,
}
use openvehicleframework.Exec.Model.{
  index_units, index_domains, index_domain_modes, index_modes, ModeTable, find_ref, emplace_ref,
  pointee, find_unit, find_domain, find_mode,
}

-- The first of two results that is there.
abbrev or_else {ℓ} : {A : Type ℓ} → Option A → Option A → Option A
or_else none o = o
or_else (some a) o = some a

abbrev pub first_unit : ℕ → List ExecutionUnitDefinition → Option ExecutionUnitDefinition
first_unit id [] = none
first_unit id (u ∷ us) = if u.id == id then some u else first_unit id us

abbrev pub first_domain : ℕ → List DomainDefinition → Option DomainDefinition
first_domain id [] = none
first_domain id (u ∷ us) = if u.id == id then some u else first_domain id us

abbrev unit_at : ℕ → List ExecutionUnitDefinition → ℕ → Option ℕ
unit_at id [] i = none
unit_at id (u ∷ us) i = if u.id == id then some i else unit_at id us (suc i)

abbrev domain_at : ℕ → List DomainDefinition → ℕ → Option ℕ
domain_at id [] i = none
domain_at id (u ∷ us) i = if u.id == id then some i else domain_at id us (suc i)

abbrev up : Option ℕ → Option ℕ
up none = none
up (some i) = some (suc i)

unit_at-suc :
    (id : ℕ) (us : List ExecutionUnitDefinition) (i : ℕ)
    → unit_at id us (suc i) ≡ up (unit_at id us i)
unit_at-suc id [] i = refl
unit_at-suc id (u ∷ us) i = ground (arith, unit_at-suc id us (suc i))

domain_at-suc :
    (id : ℕ) (us : List DomainDefinition) (i : ℕ) → domain_at id us (suc i) ≡ up (domain_at id us i)
domain_at-suc id [] i = refl
domain_at-suc id (u ∷ us) i = ground (arith, domain_at-suc id us (suc i))

pointee-up {ℓ} :
    {A : Type ℓ} (x : A) (xs : List A) (o : Option ℕ) → pointee (x ∷ xs) (up o) ≡ pointee xs o
pointee-up x xs none = refl
pointee-up x xs (some i) = refl

pointee-unit_at :
    (id : ℕ) (us : List ExecutionUnitDefinition) → pointee us (unit_at id us 0) ≡ first_unit id us
pointee-unit_at id [] = refl
pointee-unit_at id (u ∷ us) =
    ground (arith, unit_at-suc id us 0, pointee-up u us (unit_at id us 0), pointee-unit_at id us)

pointee-domain_at :
    (id : ℕ) (us : List DomainDefinition) → pointee us (domain_at id us 0) ≡ first_domain id us
pointee-domain_at id [] = refl
pointee-domain_at id (u ∷ us) =
    ground
      (arith, domain_at-suc id us 0, pointee-up u us (domain_at id us 0), pointee-domain_at id us)

find-index_units :
    (id : ℕ) (us : List ExecutionUnitDefinition) (i : ℕ) (t : Table ℕ)
    → find id (index_units us i t) ≡ or_else (find id t) (unit_at id us i)
unfolding index_units
find-index_units id [] i t = ground arith
find-index_units id (u ∷ us) i t =
    ground (arith, find-index_units id us (suc i) (emplace u.id i t), find-emplace u.id id i t)

find-index_domains :
    (id : ℕ) (us : List DomainDefinition) (i : ℕ) (t : Table ℕ)
    → find id (index_domains us i t) ≡ or_else (find id t) (domain_at id us i)
unfolding index_domains
find-index_domains id [] i t = ground arith
find-index_domains id (u ∷ us) i t =
    ground (arith, find-index_domains id us (suc i) (emplace u.id i t), find-emplace u.id id i t)

-- Looking a unit up through the index gives the first definition with the identifier, in the order
-- of the model, and nothing where there is none.
pub find_unit-first_unit : (m : ExecutionModel) (id : ℕ) → find_unit m id ≡ first_unit id m.units
unfolding find_unit
find_unit-first_unit m id =
    ap (pointee m.units) (find-index_units id m.units 0 []) ∙ pointee-unit_at id m.units

-- Looking a domain up through the index gives the first definition with the identifier, and nothing
-- where there is none.
pub find_domain-first_domain :
    (m : ExecutionModel) (id : ℕ) → find_domain m id ≡ first_domain id m.domains
unfolding find_domain
find_domain-first_domain m id =
    ap (pointee m.domains) (find-index_domains id m.domains 0 []) ∙ pointee-domain_at id m.domains

first_unit-id :
    (id : ℕ) (us : List ExecutionUnitDefinition) {u : ExecutionUnitDefinition}
    → first_unit id us ≡ some u
    → u.id ≡ id
first_unit-id id [] h = cc
first_unit-id id (v ∷ us) {u = u} h = ground (arith, first_unit-id id us {u = u})

pub find_unit-id :
    (m : ExecutionModel) (id : ℕ) {u : ExecutionUnitDefinition}
    → find_unit m id ≡ some u
    → u.id ≡ id
find_unit-id m id h = first_unit-id id m.units (sym (find_unit-first_unit m id) ∙ h)

-- The first mode of a domain with the identifier.
abbrev pub first_mode : ℕ → List ModeDefinition → Option ModeDefinition
first_mode id [] = none
first_mode id (n ∷ ns) = if n.id == id then some n else first_mode id ns

-- The first mode with the identifier in any definition of the domain.
abbrev pub first_ref : ModeRef → List DomainDefinition → Option ModeDefinition
first_ref r [] = none
first_ref r (d ∷ ds) =
    if d.id == r.domain
    then or_else (first_mode r.mode d.modes) (first_ref r ds)
    else first_ref r ds

find_ref-emplace_ref :
    (r s : ModeRef) (n : ModeDefinition) (t : ModeTable)
    → find_ref r (emplace_ref s n t)
      ≡ or_else (find_ref r t) (if same_ref s r then some n else none)
find_ref-emplace_ref r s n [] = ground arith
find_ref-emplace_ref r s n ((q, k) ∷ t) = ground (arith, find_ref-emplace_ref r s n t)

find_ref-index_domain_modes :
    (r : ModeRef) (d : ℕ) (ns : List ModeDefinition) (t : ModeTable)
    → find_ref r (index_domain_modes d ns t)
      ≡ or_else (find_ref r t) (if d == r.domain then first_mode r.mode ns else none)
unfolding index_domain_modes
find_ref-index_domain_modes r d [] t = ground arith
find_ref-index_domain_modes r d (n ∷ ns) t =
    let s : ModeRef = record { domain = d; mode = n.id } in
    ground
      (arith, find_ref-index_domain_modes r d ns (emplace_ref s n t), find_ref-emplace_ref r s n t)

find_ref-index_modes :
    (r : ModeRef) (ds : List DomainDefinition) (t : ModeTable)
    → find_ref r (index_modes ds t) ≡ or_else (find_ref r t) (first_ref r ds)
unfolding index_modes
find_ref-index_modes r [] t = ground arith
find_ref-index_modes r (d ∷ ds) t =
    find_ref-index_modes r ds (index_domain_modes d.id d.modes t)
    ∙ ground (arith, find_ref-index_domain_modes r d.id d.modes t)

-- Looking a mode up through the index gives the first mode with the identifier among the modes of
-- the domain, and nothing where there is none.
pub find_mode-first_ref : (m : ExecutionModel) (r : ModeRef) → find_mode m r ≡ first_ref r m.domains
unfolding find_mode
find_mode-first_ref m r = find_ref-index_modes r m.domains []
