-- ===== src/Per/Memory/Writes.antt =====
-- per/backends/memory.cpp: what a transaction reads after it has written, and what others read after
-- it has committed.
use openvehicleframework.Base.{
  ℕ, ◌≤◌, Bool, true, false, not, some, none, ◌==◌, ==_refl, ==_iff, ltb, arith, ◌≡◌, subst, refl,
  sym, ◌∙◌, ap, inl, inr, Bool-cases, if◌then◌else◌, length, find, find-emplace, find-assign,
  has_key, is_some,
}
use openvehicleframework.Per.Bytes.{Bytes, bytes_equal, Values, value_at, put_value, erase_value}
use openvehicleframework.Per.Bytes.Order.{ascend, value_at-put_value, value_at-erase_value}
use openvehicleframework.Per.Types.{Status, Reply, done, refused, view, Durability, CommitResult}
use openvehicleframework.Per.Memory.{
  Backend, Transaction, StoreHandle, store_at, set_store, StoreData, incremented,
}
use openvehicleframework.Per.Memory.Transactions.{
  open_transaction, begin_read, open_writer, get, put, put_in, erase, set_values, commit, commit_of,
  finish, begin, begin_on, begin_at,
}

-- What `Get` answers on an open transaction with those values.
abbrev answer : Bytes → ℕ → Values → Reply Bytes
answer key room values = elim (value_at key values) [
  | none ↦ refused Status.not_found
  | some v ↦ if ltb room (length v) then refused Status.buffer_too_small else done v
]

get-answer :
    (h : ℕ) (key : Bytes) (room : ℕ) (t : Transaction) (b : Backend)
    → open_transaction h b ≡ some t
    → (length key == 0) ≡ false
    → get h (view key) (some room) b ≡ answer key room t.values
unfolding get
get-answer h key room t b e k = rw (k, get) (rw e refl)

open_writer-open :
    (h : ℕ) (t : Transaction) (b : Backend)
    → open_writer h b ≡ some t
    → open_transaction h b ≡ some t
unfolding open_writer
open_writer-open h t b e = ground arith

open_transaction-set_values :
    (h : ℕ) (t : Transaction) (vs : Values) (b : Backend)
    → open_writer h b ≡ some t
    → open_transaction h (set_values h t vs b) ≡ some (record t { values = vs })
unfolding open_writer open_transaction set_values
open_transaction-set_values h t vs b e =
    ground (arith, find-assign h h (record t { values = vs }) b.transactions, ==_refl h)

put_done :
    (h : ℕ) (k v : Bytes) (t : Transaction) (b : Backend)
    → open_writer h b ≡ some t
    → (put h (view k) (view v) b).0 ≡ done tt
    → (put h (view k) (view v) b).1 ≡ set_values h t (put_value k v t.values) b
unfolding put put_in
put_done h k v t b e d = ground arith

erase_done :
    (h : ℕ) (k : Bytes) (t : Transaction) (b : Backend)
    → open_writer h b ≡ some t
    → (length k == 0) ≡ false
    → erase h (view k) b
      ≡ (done (is_some (value_at k t.values)), set_values h t (erase_value k t.values) b)
unfolding erase
erase_done h k t b e n = rw (n, erase) (rw e refl)

-- A write transaction reads what it has written: after a `Put` that succeeds, `Get` on the
-- transaction answers the value for that key, and for every other key what it answered before;
-- after an `Erase`, which tells whether the key was there, it answers that there is no such key.
pub get-put :
    (h : ℕ) (k v i : Bytes) (room : ℕ) (t : Transaction) (b : Backend)
    → open_writer h b ≡ some t
    → ascend t.values ≡ true
    → (length k == 0) ≡ false
    → (length i == 0) ≡ false
    → length v ≤ room
    → ((put h (view k) (view v) b).0 ≡ done tt
        → get h (view i) (some room) (put h (view k) (view v) b).1
          ≡ (if bytes_equal k i then done v else get h (view i) (some room) b))
      × ((erase h (view k) b).0 ≡ done (is_some (value_at k t.values)))
      × (get h (view i) (some room) (erase h (view k) b).1
          ≡ (if bytes_equal k i then refused Status.not_found else get h (view i) (some room) b))
get-put h k v i room t b w a n m l =
    let before = get-answer h i room t b (open_writer-open h t b w) m in
    let written = λ (vs : Values).
      get-answer h i room _ (set_values h t vs b) (open_transaction-set_values h t vs b w) m in
    let e = erase_done h k t b w n in
    (
      λ d. rw (put_done h k v t b w d) (
          ground
            (arith, before, written (put_value k v t.values), value_at-put_value k v i t.values a)),
      ap (λ (r : Reply Bool × Backend). r.0) e,
      rw e (
          ground
            (arith, before, written (erase_value k t.values), value_at-erase_value k i t.values a)),
    )

-- The two ends of `Commit`.
committed : Transaction → StoreData → StoreData
committed t s = record s {
  values = t.values;
  generation = incremented s.generation;
  successful_commits = incremented s.successful_commits;
  writer_active = false;
}

commit_of_done :
    (h : ℕ) (t : Transaction) (r : CommitResult) (b : Backend)
    → (commit_of h t b).0 ≡ done r
    → ((commit_of h t b).1 ≡ finish h t (set_store t.store (committed t (store_at t.store b)) b))
      × (r.generation ≡ incremented (store_at t.store b).generation)
unfolding commit_of committed
commit_of_done h t r b d =
    elim (Bool-cases (not ((store_at t.store b).generation == t.base_generation))) [
      | inl e ↦ absurd (conflicts e d)
      | inr e ↦ (rw (e, commit_of) refl, agrees e d)
    ]
  where
    conflicts :
        not ((store_at t.store b).generation == t.base_generation) ≡ true
        → (commit_of h t b).0 ≡ done r
        → ⊥
    conflicts e = rw (e, commit_of) (λ p. cc)

    agrees :
        not ((store_at t.store b).generation == t.base_generation) ≡ false
        → (commit_of h t b).0 ≡ done r
        → r.generation ≡ incremented (store_at t.store b).generation
    agrees e = rw (e, commit_of) (λ p. ground arith)

-- After a commit, a transaction that begins reads what the writer read.
commit-store :
    (h : ℕ) (t : Transaction) (b : Backend)
    → store_at t.store (finish h t (set_store t.store (committed t (store_at t.store b)) b))
      ≡ committed t (store_at t.store b)
unfolding finish store_at set_store
commit-store h t b =
    ground (
      arith,
      find-assign t.store t.store (committed t (store_at t.store b)) b.heap,
      ==_refl t.store,
    )

begin_at-get :
    (h : StoreHandle) (d : Durability) (i : Bytes) (room : ℕ) (b : Backend)
    → has_key b.next_handle b.transactions ≡ false
    → (length i == 0) ≡ false
    → get b.next_handle (view i) (some room) (begin_at h d false b).1
      ≡ answer i room (store_at h.store b).values
unfolding begin_at open_transaction
begin_at-get h d i room b f n =
    let t : Transaction = record {
      store = h.store;
      values = (store_at h.store b).values;
      base_generation = (store_at h.store b).generation;
      durability = d;
      write = false;
      finished = false;
    } in
    let b' = (begin_at h d false b).1 in
    let e : open_transaction b.next_handle b' ≡ some t =
      ground
        (arith, find-emplace b.next_handle b.next_handle t b.transactions, ==_refl b.next_handle) in
    get-answer b.next_handle i room t b' e n

begin_on_done :
    (sh : StoreHandle) (d : Durability) (b : Backend) (n g : ℕ)
    → (begin_on sh d false none b).0 ≡ done (n, g)
    → (begin_on sh d false none b ≡ begin_at sh d false b)
      × (n ≡ b.next_handle)
      × (g ≡ (store_at sh.store b).generation)
unfolding begin_on begin_at
begin_on_done sh d b n g e = ground arith

finish-fresh :
    (h : ℕ) (t : Transaction) (b : Backend)
    → open_writer h b ≡ some t
    → has_key b.next_handle b.transactions ≡ false
    → has_key b.next_handle
        (finish h t (set_store t.store (committed t (store_at t.store b)) b)).transactions
      ≡ false
unfolding finish set_store open_writer open_transaction
finish-fresh h t b w f = ground (
  arith,
  find-assign h b.next_handle (record t { finished = true }) b.transactions,
  ==_iff h b.next_handle,
)

commit-open :
    (h : ℕ) (t : Transaction) (b : Backend)
    → open_writer h b ≡ some t
    → commit h b ≡ commit_of h t b
unfolding commit
commit-open h t b w = rw (w, commit) refl

handle_begin :
    (s : ℕ) (sh : StoreHandle) (t : Transaction) (h : ℕ) (b : Backend)
    → find s b.store_handles ≡ some sh
    → begin s Durability.buffered false none
        (finish h t (set_store t.store (committed t (store_at t.store b)) b))
      ≡ begin_on sh Durability.buffered false none
          (finish h t (set_store t.store (committed t (store_at t.store b)) b))
unfolding begin finish set_store
handle_begin s sh t h b f = rw (f, begin) refl

-- A commit publishes what the writer wrote: after a `Commit` that succeeds, a read transaction that
-- begins on any handle of the store has the generation that the commit returned, and `Get` on it
-- answers for every key what it answered on the writer before the commit.
pub get-commit :
    (h s n g room : ℕ) (i : Bytes) (t : Transaction) (sh : StoreHandle) (r : CommitResult)
    (b : Backend)
    → open_writer h b ≡ some t
    → find s b.store_handles ≡ some sh
    → sh.store ≡ t.store
    → has_key b.next_handle b.transactions ≡ false
    → (length i == 0) ≡ false
    → (commit h b).0 ≡ done r
    → (begin_read s (commit h b).1).0 ≡ done (n, g)
    → (g ≡ r.generation)
      × (get n (view i) (some room) (begin_read s (commit h b).1).1 ≡ get h (view i) (some room) b)
unfolding begin_read finish set_store committed
get-commit h s n g room i t sh r b w f q fresh m d e =
    let b' = finish h t (set_store t.store (committed t (store_at t.store b)) b) in
    let c : commit h b ≡ commit_of h t b = commit-open h t b w in
    let o = commit_of_done h t r b (ap (λ (x : Reply CommitResult × Backend). x.0) (sym c) ∙ d) in
    let p : (commit h b).1 ≡ b' = ap (λ (x : Reply CommitResult × Backend). x.1) c ∙ o.0 in
    let e' : (begin s Durability.buffered false none b').0 ≡ done (n, g) =
      subst (λ y. (begin s Durability.buffered false none y).0 ≡ done (n, g)) p e in
    let k : begin s Durability.buffered false none b'
        ≡ begin_on sh Durability.buffered false none b' =
      handle_begin s sh t h b f in
    let u =
      begin_on_done sh Durability.buffered b' n g
        (ap (λ (x : Reply (ℕ × ℕ) × Backend). x.0) (sym k) ∙ e') in
    let st : store_at sh.store b' ≡ committed t (store_at t.store b) =
      ap (λ a. store_at a b') q ∙ commit-store h t b in
    let v = begin_at-get sh Durability.buffered i room b' (finish-fresh h t b w fresh) m in
    let before = get-answer h i room t b (open_writer-open h t b w) m in
    (
      u.2 ∙ ap (λ (x : StoreData). x.generation) st ∙ sym o.1,
      ap (λ y. get n (view i) (some room) (begin s Durability.buffered false none y).1) p
          ∙ ap (λ (x : Reply (ℕ × ℕ) × Backend). get n (view i) (some room) x.1) (k ∙ u.0)
          ∙ ap (λ y. get y (view i) (some room) (begin_at sh Durability.buffered false b').1) u.1
          ∙ v
          ∙ ap (λ (x : StoreData). answer i room x.values) (st)
          ∙ sym before,
    )
