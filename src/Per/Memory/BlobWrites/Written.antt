-- ===== src/Per/Memory/BlobWrites/Written.antt =====
-- per/backends/memory.cpp: a blob operation while its pieces are written.
use openvehicleframework.Base.{
  ℕ, ◌+◌, ◌-◌, ◌≤◌, true, false, not, ◌||◌, some, List, [], ◌∷◌, ◌++◌, ◌==◌, ==_refl, ltb, arith,
  ◌≡◌, sym, ◌∙◌, ap, length, length-append, find, find-assign, assign, Table,
}
use openvehicleframework.Per.Bytes.{Bytes, drop, zeros}
use openvehicleframework.Per.Bytes.Pieces.{
  length-zeros, take-append, drop-append, drop-zeros, join, append_assoc, append_nil,
}
use openvehicleframework.Per.Types.{Reply, done, view}
use openvehicleframework.Per.Memory.{Backend, BlobOperation}
use openvehicleframework.Per.Memory.Blobs.{overwrite, write_blob}

-- Pieces written one after the other, from an offset on.
unfoldable pub write_pieces : ℕ → ℕ → List Bytes → Backend → Backend
write_pieces h offset [] b = b
write_pieces h offset (p ∷ ps) b =
    write_pieces h (offset + length p) ps (write_blob h offset (view p) b).1

pub overwrite_lem :
    (w p : Bytes) (m : ℕ) → overwrite (length w) p (w ++ zeros m) ≡ w ++ p ++ zeros (m - length p)
overwrite_lem w p m =
    ap (λ l. l ++ p ++ drop (length w + length p) (w ++ zeros m)) (take-append w (zeros m))
    ∙ ap (λ l. w ++ p ++ l) (drop-append w (zeros m) (length p) ∙ drop-zeros (length p) m)

-- The operation with what it has written, and so many bytes to come.
abbrev pub with_written : BlobOperation → Bytes → ℕ → BlobOperation
with_written o w m = record o { value = w ++ zeros m; written = length w }

-- The backend with that operation.
abbrev pub with_blob : ℕ → BlobOperation → Backend → Backend
with_blob h o b = record b { blobs = assign h o b.blobs }

pub write_blob-with_written :
    (h : ℕ) (o : BlobOperation) (w p : Bytes) (m : ℕ) (b : Backend)
    → length p ≤ m
    → find h b.blobs ≡ some (with_written o w m)
    → o.write ≡ true
    → o.finished ≡ false
    → write_blob h (length w) (view p) b
      ≡ (done tt, with_blob h (with_written o (w ++ p) (m - length p)) b)
unfolding write_blob
write_blob-with_written h o w p m b l f r n =
    let c : (not o.write
          || o.finished
          || not (length w == length w)
          || ltb (length (w ++ zeros m) - length w) (length p))
        ≡ false =
      ground (arith, ==_refl (length w), length-append w (zeros m), length-zeros m) in
    let v = overwrite_lem w p m in
    let s = sym (length-append w p) in
    rw (f, write_blob)
      (rw c (
        ap (λ y. (done tt, with_blob h (record o { value = y; written = length w + length p }) b)) v
        ∙ ap
            (λ y. (
              done tt,
              with_blob h (record o { value = (w ++ p) ++ zeros (m - length p); written = y }) b,
            ))
            s))

pub find-with_blob :
    (h : ℕ) (o : BlobOperation) (b : Backend) → find h (with_blob h o b).blobs ≡ some o
find-with_blob h o b = ground (arith, find-assign h h o b.blobs, ==_refl h)

pub assign-twice :
    (h : ℕ) (o p : BlobOperation) (t : Table BlobOperation)
    → assign h p (assign h o t) ≡ assign h p t
assign-twice h o p [] = ground (arith, ==_refl h)
assign-twice h o p ((j, q) ∷ t) = ground (arith, assign-twice h o p t)

pub assign-same :
    (h : ℕ) (o : BlobOperation) (t : Table BlobOperation) → find h t ≡ some o → assign h o t ≡ t
assign-same h o [] e = cc
assign-same h o ((j, q) ∷ t) e = ground (arith, assign-same h o t)

pub write_pieces-with_written :
    (h : ℕ) (o : BlobOperation) (w : Bytes) (ps : List Bytes) (b : Backend)
    → find h b.blobs ≡ some (with_written o w (length (join ps)))
    → o.write ≡ true
    → o.finished ≡ false
    → write_pieces h (length w) ps b ≡ with_blob h (with_written o (w ++ join ps) 0) b
unfolding write_pieces
write_pieces-with_written h o w [] b f r n =
    ap (λ t. record b { blobs = t }) (sym (assign-same h (with_written o w 0) b.blobs f))
    ∙ ap (λ y. with_blob h (with_written o y 0) b) (sym (append_nil w))
write_pieces-with_written h o w (p ∷ ps) b f r n =
    let m = length (p ++ join ps) in
    let l : length p ≤ m = omega (arith, length-append p (join ps)) in
    let z : m - length p ≡ length (join ps) = omega (arith, length-append p (join ps)) in
    let e = write_blob-with_written h o w p m b l f r n in
    let q = with_written o (w ++ p) (m - length p) in
    let b' = with_blob h q b in
    let f' : find h b'.blobs ≡ some (with_written o (w ++ p) (length (join ps))) =
      find-with_blob h q b ∙ ap (λ k. some (with_written o (w ++ p) k)) z in
    let ih = write_pieces-with_written h o (w ++ p) ps b' f' r n in
    ap (λ (x : Reply (Unit {0}) × Backend). write_pieces h (length w + length p) ps x.1) e
    ∙ ap (λ (k : ℕ). write_pieces h k ps b') (sym (length-append w p))
    ∙ ih
    ∙ ap (λ t. record b { blobs = t })
        (assign-twice h q (with_written o ((w ++ p) ++ join ps) 0) b.blobs)
    ∙ ap (λ y. with_blob h (with_written o y 0) b) (append_assoc w p (join ps))
