-- ===== src/Per/Memory/Prefixes.antt =====
-- per/backends/memory.cpp: what a cursor enumerates.
use openvehicleframework.Base.{
  ℕ, zero, suc, ◌<◌, Bool, true, false, ◌&&◌, Option, some, none, [], ◌∷◌, leb, arith, ◌≡◌, refl,
  inl, inr, Bool-cases, ==_refl, ◌∙◌, ap, if◌then◌else◌, length, all_of, find, find-emplace,
  find-assign, has_key, get_elem?, emplace, assign,
}
use openvehicleframework.Per.Bytes.{Bytes, bytes_less, Values, starts_with, lower_bound}
use openvehicleframework.Per.Bytes.Order.{bytes_less_trans, all_above, ascend}
use openvehicleframework.Per.Types.{Status, done, refused, view}
use openvehicleframework.Per.Memory.{Backend, Cursor, Transaction}
use openvehicleframework.Per.Memory.Transactions.{open_transaction}
use openvehicleframework.Per.Memory.Cursors.{
  while_prefixed, prefixed, add_cursor, open_cursor, next_cursor,
}

-- The entries whose key starts with a prefix.
unfoldable pub with_prefix : Bytes → Values → Values
with_prefix p [] = []
with_prefix p ((k, v) ∷ t) =
    let rest = with_prefix p t in if starts_with p k then (k, v) ∷ rest else rest

starts_with-not-less : (p k : Bytes) → starts_with p k ≡ true → bytes_less k p ≡ false
starts_with-not-less [] k s = ground arith
starts_with-not-less (x ∷ p) [] s = cc
starts_with-not-less (x ∷ p) (y ∷ k) s = ground (arith, starts_with-not-less p k)

-- Between the prefix and a key that has it, all keys have it.
starts_with_between :
    (p k j : Bytes)
    → bytes_less k p ≡ false
    → bytes_less k j ≡ true
    → starts_with p j ≡ true
    → starts_with p k ≡ true
starts_with_between [] k j l m s = refl
starts_with_between (x ∷ p) k [] l m s = cc
starts_with_between (x ∷ p) [] (z ∷ j) l m s = cc
starts_with_between (x ∷ p) (y ∷ k) (z ∷ j) l m s = ground (arith, starts_with_between p k j)

-- After a key beyond the prefix that does not have it, no key has it.
with_prefix_beyond :
    (p k : Bytes) (t : Values)
    → bytes_less k p ≡ false
    → starts_with p k ≡ false
    → all_above k t ≡ true
    → with_prefix p t ≡ []
unfolding with_prefix
with_prefix_beyond p k [] l n a = refl
with_prefix_beyond p k ((j, v) ∷ t) l n a =
    ground (arith, with_prefix_beyond p k t, starts_with_between p k j)

not_less_above :
    (p k j : Bytes) → bytes_less k p ≡ false → bytes_less k j ≡ true → bytes_less j p ≡ false
not_less_above p k j l m = ground (arith, bytes_less_trans k j p)

while_prefixed-with_prefix :
    (p k v : Bytes) (t : Values)
    → bytes_less k p ≡ false
    → all_above k t ≡ true
    → ascend t ≡ true
    → while_prefixed p ((k, v) ∷ t) ≡ with_prefix p ((k, v) ∷ t)
unfolding while_prefixed with_prefix
while_prefixed-with_prefix p k v [] l a s = refl
while_prefixed-with_prefix p k v ((j, w) ∷ t) l a s = ground (
  arith,
  while_prefixed-with_prefix p j w t,
  not_less_above p k j,
  with_prefix_beyond p k ((j, w) ∷ t),
)

lower_bound-with_prefix :
    (p : Bytes) (t : Values)
    → ascend t ≡ true
    → while_prefixed p (lower_bound p t) ≡ with_prefix p t
unfolding lower_bound with_prefix while_prefixed
lower_bound-with_prefix p [] s = refl
lower_bound-with_prefix p ((k, v) ∷ t) s = elim (Bool-cases (bytes_less k p)) [
  | inl e ↦
      rw (e, lower_bound)
        (lower_bound-with_prefix p t (ground arith) ∙ ground (arith, starts_with-not-less p k))
  | inr e ↦ rw (e, lower_bound) (while_prefixed-with_prefix p k v t e (ground arith) (ground arith))
]

prefixed-with_prefix : (p : Bytes) (t : Values) → ascend t ≡ true → prefixed p t ≡ with_prefix p t
unfolding prefixed
prefixed-with_prefix p t s = lower_bound-with_prefix p t s

abbrev pub preceded_by : Bytes × Bytes → Values × Option Status → Values × Option Status
preceded_by e (es, s) = (e ∷ es, s)

-- `NextCursor` called so often, with buffers of those sizes, up to the first refusal: the entries,
-- and the status of the refusal, if there was one.
unfoldable pub enumerate : ℕ → ℕ → ℕ → ℕ → Backend → Values × Option Status
enumerate zero h key_room value_room b = ([], none)
enumerate (suc n) h key_room value_room b =
    let (reply, b') = next_cursor h (some key_room) (some value_room) b in
    let rest = enumerate n h key_room value_room b' in
    elim reply [ done e ↦ preceded_by e rest | refused s ↦ ([], some s) ]

-- The buffers have room for the entry.
abbrev pub fits : ℕ → ℕ → Bytes × Bytes → Bool
fits key_room value_room (k, v) = leb (length k) key_room && leb (length v) value_room

skip : ℕ → Values → Values
skip zero es = es
skip (suc n) [] = []
skip (suc n) (e ∷ es) = skip n es

get_elem?-skip :
    (n : ℕ) (es : Values) → get_elem? es n ≡ (elim (skip n es) [ [] ↦ none | e ∷ r ↦ some e ])
unfolding skip
get_elem?-skip zero [] = refl
get_elem?-skip zero (e ∷ es) = refl
get_elem?-skip (suc n) [] = refl
get_elem?-skip (suc n) (e ∷ es) = get_elem?-skip n es

skip-suc : (n : ℕ) (es r : Values) (e : Bytes × Bytes) → skip n es ≡ e ∷ r → skip (suc n) es ≡ r
unfolding skip
skip-suc zero [] r e p = ground arith
skip-suc zero (d ∷ es) r e p = ground arith
skip-suc (suc n) [] r e p = ground arith
skip-suc (suc n) (d ∷ es) r e p = skip-suc n es r e p

next_cursor_end :
    (h x y : ℕ) (c : Cursor) (b : Backend)
    → find h b.cursors ≡ some c
    → get_elem? c.entries c.position ≡ none
    → next_cursor h (some x) (some y) b ≡ (refused Status.not_found, b)
unfolding next_cursor
next_cursor_end h x y c b f g = rw (f, next_cursor) (rw g refl)

next_cursor_entry :
    (h x y : ℕ) (k v : Bytes) (c : Cursor) (b : Backend)
    → find h b.cursors ≡ some c
    → get_elem? c.entries c.position ≡ some (k, v)
    → fits x y (k, v) ≡ true
    → next_cursor h (some x) (some y) b ≡ (
      done (k, v),
      record b { cursors = assign h (record c { position = suc c.position }) b.cursors },
    )
unfolding next_cursor
next_cursor_entry h x y k v c b f g a = rw (f, next_cursor) (rw g (ground arith))

-- A cursor enumerates what lies after its position.
enumerate-skip :
    (n h key_room value_room : ℕ) (rest : Values) (c : Cursor) (b : Backend)
    → find h b.cursors ≡ some c
    → skip c.position c.entries ≡ rest
    → all_of (fits key_room value_room) rest ≡ true
    → length rest < n
    → enumerate n h key_room value_room b ≡ (rest, some Status.not_found)
unfolding enumerate
enumerate-skip zero h x y rest c b f s a l = absurd (omega arith)
enumerate-skip (suc n) h x y [] c b f s a l =
    let g = get_elem?-skip c.position c.entries ∙ rw s refl in
    let e : next_cursor h (some x) (some y) b ≡ (refused Status.not_found, b) =
      next_cursor_end h x y c b f g in
    rw (e, enumerate) refl
enumerate-skip (suc n) h x y ((k, v) ∷ rest) c b f s a l =
    let g = get_elem?-skip c.position c.entries ∙ rw s refl in
    let c' = record c { position = suc c.position } in
    let b' = record b { cursors = assign h c' b.cursors } in
    let e : next_cursor h (some x) (some y) b ≡ (done (k, v), b') =
      next_cursor_entry h x y k v c b f g (ground arith) in
    let f' : find h b'.cursors ≡ some c' =
      ground (arith, find-assign h h c' b.cursors, ==_refl h) in
    let a' : all_of (fits x y) rest ≡ true = ground arith in
    let l' : length rest < n = omega arith in
    let ih =
      enumerate-skip n h x y rest c' b' f' (skip-suc c.position c.entries rest (k, v) s) a' l' in
    rw (e, enumerate) (rw e (ap (preceded_by (k, v)) ih))

-- A cursor on a read transaction enumerates, in the order of the keys, exactly the entries of the
-- transaction whose key starts with the prefix, and is then refused as not found, where the buffers
-- are large enough for the entries.
pub enumerate-open_cursor :
    (n j key_room value_room : ℕ) (p : Bytes) (t : Transaction) (b : Backend)
    → open_transaction j b ≡ some t
    → t.write ≡ false
    → ascend t.values ≡ true
    → has_key b.next_handle b.cursors ≡ false
    → all_of (fits key_room value_room) (with_prefix p t.values) ≡ true
    → length (with_prefix p t.values) < n
    → ((open_cursor j (view p) b).0 ≡ done b.next_handle)
      × (enumerate n b.next_handle key_room value_room (open_cursor j (view p) b).1
          ≡ (with_prefix p t.values, some Status.not_found))
unfolding add_cursor open_cursor skip
enumerate-open_cursor n j x y p t b o w s f a l =
    let e : open_cursor j (view p) b ≡ add_cursor (prefixed p t.values) b =
      rw (o, open_cursor) (rw w refl) in
    let c : Cursor = record { entries = prefixed p t.values; position = 0 } in
    let g : find b.next_handle (emplace b.next_handle c b.cursors) ≡ some c =
      ground (arith, find-emplace b.next_handle b.next_handle c b.cursors, ==_refl b.next_handle) in
    (
      rw e refl,
      rw e (
          enumerate-skip n b.next_handle x y (with_prefix p t.values) c _ g
            (prefixed-with_prefix p t.values s) a l),
    )
