-- ===== src/Exec/Scheduler/Invariant.antt =====
-- exec/src/scheduler.cpp: what holds of the scheduler after any calls of any threads.
use openvehicleframework.Base.{
  ℕ, ◌≡◌, refl, sym, subst, ap, ◌∙◌, inl, inr, true, false, not, ◌&&◌, Option, some, none, List, [],
  ◌∷◌, Table, find, has_key, keys, emplace, remove, if◌then◌else◌, ◌==◌, contains, distinct,
  find-emplace, find-remove, contains-keys, arith, Bool-cases, Option-cases, Result, ok, err,
  ==_iff,
}
use openvehicleframework.Exec.Scheduler.{
  TransitionResources, State, initial, available, claim, release_owned, all_available,
  check_request, grant, release, Move, releases, acquires, try_acquire, apply, wait_until,
  grant_if_free,
}

pub find-claim :
    (ids : List ℕ) (owner x : ℕ) (t : Table ℕ)
    → find x (claim ids owner t)
      ≡ (if has_key x t then find x t else if contains ids x then some owner else none)
find-claim [] owner x t = ground arith
find-claim (id ∷ ids) owner x t =
    find-claim ids owner x (emplace id owner t) ∙ ground (arith, find-emplace id x owner t)

distinct-keys-emplace :
    (id owner : ℕ) (t : Table ℕ)
    → distinct (keys t) ≡ true
    → distinct (keys (emplace id owner t)) ≡ true
distinct-keys-emplace id owner [] d = refl
distinct-keys-emplace id owner ((j, o) ∷ t) d = ground (
  arith,
  distinct-keys-emplace id owner t,
  contains-keys j t,
  contains-keys j (emplace id owner t),
  find-emplace id j owner t,
)

pub distinct-keys-claim :
    (ids : List ℕ) (owner : ℕ) (t : Table ℕ)
    → distinct (keys t) ≡ true
    → distinct (keys (claim ids owner t)) ≡ true
distinct-keys-claim [] owner t d = d
distinct-keys-claim (id ∷ ids) owner t d =
    distinct-keys-claim ids owner (emplace id owner t) (distinct-keys-emplace id owner t d)

-- The owner of an entry, unless it is the one that goes.
abbrev pub unless : ℕ → Option ℕ → Option ℕ
unless owner none = none
unless owner (some o) = if o == owner then none else some o

pub find-release_owned :
    (owner x : ℕ) (t : Table ℕ)
    → distinct (keys t) ≡ true
    → find x (release_owned owner t) ≡ unless owner (find x t)
find-release_owned owner x [] d = refl
find-release_owned owner x ((j, o) ∷ t) d = ground (
  arith,
  find-release_owned owner x t,
  contains-keys j t,
  ==_iff j x,
  ap (λ k. contains (keys t) k),
  contains-keys x t,
)

distinct-keys-release_owned :
    (owner : ℕ) (t : Table ℕ)
    → distinct (keys t) ≡ true
    → distinct (keys (release_owned owner t)) ≡ true
distinct-keys-release_owned owner [] d = refl
distinct-keys-release_owned owner ((j, o) ∷ t) d = ground (
  arith,
  distinct-keys-release_owned owner t,
  contains-keys j t,
  contains-keys j (release_owned owner t),
  find-release_owned owner j t,
)

pub available-find :
    (ids : List ℕ) (t : Table ℕ) (x : ℕ)
    → available ids t ≡ true
    → contains ids x ≡ true
    → find x t ≡ none
available-find [] t x a c = cc
available-find (id ∷ ids) t x a c =
    ground (arith, available-find ids t x, ==_iff id x, ap (λ k. find k t))

-- One kind of resource: a key is owned by a lease exactly if that lease names it.
module _ (part : TransitionResources → List ℕ) where
  pub record Owned (leases : Table TransitionResources) (owners : Table ℕ) : Type 0 where
    pub single : distinct (keys owners) ≡ true
    pub held :
        (o x : ℕ) (r : TransitionResources)
        → find o leases ≡ some r
        → contains (part r) x ≡ true
        → find x owners ≡ some o
    pub leased :
        (o x : ℕ)
        → find x owners ≡ some o
        → (r : TransitionResources) × (find o leases ≡ some r) × (contains (part r) x ≡ true)

  Owned-grant :
      (leases : Table TransitionResources) (owners : Table ℕ) (owner : ℕ) (r : TransitionResources)
      → Owned leases owners
      → has_key owner leases ≡ false
      → available (part r) owners ≡ true
      → Owned (emplace owner r leases) (claim (part r) owner owners)
  Owned-grant leases owners owner r v new free = record {
    single = distinct-keys-claim (part r) owner owners v.single;
    held = λ o x q e c. elim (Bool-cases (owner == o)) [
      | inl same ↦
          let same_resources : r ≡ q = ground (arith, find-emplace owner o r leases) in
          let named = subst (λ k. contains (part k) x ≡ true) (sym same_resources) c in
          ground
            (arith, find-claim (part r) owner x owners, available-find (part r) owners x free named)
      | inr other ↦
          ground
            (arith, find-emplace owner o r leases, v.held o x q, find-claim (part r) owner x owners)
    ];
    leased = λ o x e. elim (Option-cases (find x owners)) [
      | inr (o', e') ↦
          let (q, lease, named) = v.leased o' x e' in
          let same : o' ≡ o = ground (arith, find-claim (part r) owner x owners) in
          (q, rw (← same) (ground (arith, find-emplace owner o' r leases)), named)
      | inl e' ↦ (
        r,
        ground (arith, find-emplace owner o r leases, find-claim (part r) owner x owners),
        ground (arith, find-claim (part r) owner x owners),
      )
    ];
  }

  Owned-release :
      (leases : Table TransitionResources) (owners : Table ℕ) (owner : ℕ)
      → Owned leases owners
      → Owned (remove owner leases) (release_owned owner owners)
  Owned-release leases owners owner v = record {
    single = distinct-keys-release_owned owner owners v.single;
    held = λ o x q e c.
        ground (arith, find-remove owner o leases, v.held o x q, find-release_owned owner x owners);
    leased = λ o x e. elim (Option-cases (find x owners)) [
      | inl e' ↦ ground (arith, find-release_owned owner x owners v.single)
      | inr (o', e') ↦
          let (q, lease, named) = v.leased o' x e' in
          let same : o' ≡ o = ground (arith, find-release_owned owner x owners v.single) in
          (
            q,
            rw (← same) (
                ground
                  (arith, find-remove owner o' leases, find-release_owned owner x owners v.single)),
            named,
          )
    ];
  }

pub record Inv (s : State) : Type 0 where
  pub domains : Owned (λ r. r.domains) s.leases s.domains
  pub units : Owned (λ r. r.units) s.leases s.units
  pub exclusive : Owned (λ r. r.exclusive_resources) s.leases s.exclusive_resources

pub initial-Inv : Inv initial
unfolding initial
initial-Inv = record {
  domains = record { single = refl; held = λ o x r e c. cc; leased = λ o x e. cc };
  units = record { single = refl; held = λ o x r e c. cc; leased = λ o x e. cc };
  exclusive = record { single = refl; held = λ o x r e c. cc; leased = λ o x e. cc };
}

pub grant-Inv :
    (owner : ℕ) (r : TransitionResources) (s : State)
    → Inv s
    → has_key owner s.leases ≡ false
    → all_available r s ≡ true
    → Inv (grant owner r s)
unfolding grant all_available
grant-Inv owner r s v new free = record {
  domains = Owned-grant (λ q. q.domains) s.leases s.domains owner r v.domains new (ground arith);
  units = Owned-grant (λ q. q.units) s.leases s.units owner r v.units new (ground arith);
  exclusive =
      Owned-grant (λ q. q.exclusive_resources) s.leases s.exclusive_resources owner r v.exclusive
        new (ground arith);
}

pub release-Inv : (owner : ℕ) (s : State) → Inv s → Inv (release owner s)
unfolding release
release-Inv owner s v = elim (Bool-cases (has_key owner s.leases)) [
  | inr e ↦ rw e v
  | inl e ↦ rw e (record {
    domains = Owned-release (λ q. q.domains) s.leases s.domains owner v.domains;
    units = Owned-release (λ q. q.units) s.leases s.units owner v.units;
    exclusive =
        Owned-release (λ q. q.exclusive_resources) s.leases s.exclusive_resources owner v.exclusive;
  })
]

grant_if_free-Inv :
    (owner : ℕ) (s : State) (c : Result TransitionResources) → Inv s → Inv (grant_if_free owner s c)
unfolding grant_if_free
grant_if_free-Inv owner s (err e) v = v
grant_if_free-Inv owner s (ok q) v =
    elim (Bool-cases (not (has_key owner s.leases) && all_available q s)) [
      | inr e ↦ rw e v
      | inl e ↦ rw e (grant-Inv owner q s v (ground arith) (ground arith))
    ]

apply-Inv : (move : Move) (s : State) → Inv s → Inv (apply move s)
unfolding apply try_acquire
apply-Inv (releases o) s v = release-Inv o s v
apply-Inv (acquires o r) s v = grant_if_free-Inv o s (check_request o r) v

pub wait_until-Inv :
    (r : TransitionResources) (s : State) (moves : List Move)
    → Inv s
    → Inv (wait_until r s moves).0
      × ((wait_until r s moves).1 ≡ true → all_available r (wait_until r s moves).0 ≡ true)
unfolding wait_until
wait_until-Inv r s [] v = (v, λ h. h)
wait_until-Inv r s (move ∷ moves) v = elim (Bool-cases (all_available r s)) [
  | inl e ↦ rw e (v, λ _. e)
  | inr e ↦ rw e (wait_until-Inv r (apply move s) moves (apply-Inv move s v))
]
