-- ===== src/Exec/FileJournal/Replay.antt =====
-- exec/src/file_journal.cpp: Replay of what Append wrote.
use openvehicleframework.Base.{
  ℕ, suc, ◌+◌, ◌-◌, ◌^◌, ◌<◌, ◌≤◌, Bool, true, false, ◌&&◌, List, [], ◌∷◌, ◌++◌, map, ltb, leb,
  is_empty, length, length-append, all_of, arith, ◌≡◌, refl, ap, sym, ◌∙◌, Result, ok, fail,
  persistence_error, Bool-cases, inl, inr,
}
use openvehicleframework.Exec.FileJournal.{Event}
use openvehicleframework.Exec.FileJournal.Events.{put_event, encode}
use openvehicleframework.Exec.FileJournal.Events.RoundTrip.{valid_event, stored}
use openvehicleframework.Exec.FileJournal.Frames.Reading.{
  read_frame-frame, read_frame-torn, length-frame,
}
use openvehicleframework.Exec.FileJournal.Frames.{
  frame, first, Outcome, append, read_frame, replay_from, replay,
}

-- The file that holds these events.
unfoldable pub journal : List Event → List ℕ
journal [] = []
journal (e ∷ es) = frame (put_event e) ++ journal es

-- The event fits the types of its fields, and the limit of the journal.
abbrev pub storable : ℕ → Event → Bool
storable m e = valid_event e && leb (length (put_event e)) m

and_both : (a b : Bool) → (a && b) ≡ true → (a ≡ true) × (b ≡ true)
and_both a b e = (ground arith, ground arith)

append_assoc {ℓ} : {A : Type ℓ} (xs ys zs : List A) → (xs ++ ys) ++ zs ≡ xs ++ (ys ++ zs)
append_assoc [] ys zs = refl
append_assoc (x ∷ xs) ys zs = ap (λ l. x ∷ l) (append_assoc xs ys zs)

append_nil {ℓ} : {A : Type ℓ} (xs : List A) → xs ++ [] ≡ xs
append_nil [] = refl
append_nil (x ∷ xs) = ap (λ l. x ∷ l) (append_nil xs)

replay_from-journal :
    (m n : ℕ) (r u : Bool) (file tail : List ℕ) (es events : List Event)
    → all_of (storable m) es ≡ true
    → m < 2 ^ 32
    → replay_from (length es + n) m r u file (journal es ++ tail) events
      ≡ replay_from n m r u file tail (events ++ map stored es)
unfolding journal replay_from
replay_from-journal m n r u file tail [] events s b =
    let q : 0 + n ≡ n = omega arith in
    ap (λ i. replay_from i m r u file tail events) q
    ∙ ap (λ l. replay_from n m r u file tail l) (sym (append_nil events))
replay_from-journal m n r u file tail (e ∷ es) events s b =
    let q : suc (length es) + n ≡ suc (length es + n) = omega arith in
    let v : valid_event e ≡ true = ground arith in
    let l : length (put_event e) ≤ m = ground arith in
    let f = read_frame-frame m e (journal es ++ tail) v l b in
    ap (λ i. replay_from i m r u file ((frame (put_event e) ++ journal es) ++ tail) events) q
    ∙ ap (λ t. replay_from (suc (length es + n)) m r u file t events)
        (append_assoc (frame (put_event e)) (journal es) tail)
    ∙ rw (f, replay_from)
        (replay_from-journal m n r u file tail es (events ++ stored e ∷ []) (ground arith) b
          ∙ ap (λ l. replay_from n m r u file tail l)
              (append_assoc events (stored e ∷ []) (map stored es)))

length-journal : (es : List Event) → length es ≤ length (journal es)
unfolding journal
length-journal [] = omega arith
length-journal (e ∷ es) = omega (
  arith,
  length-journal es,
  length-append (frame (put_event e)) (journal es),
  length-frame (put_event e),
)

first-append : (xs ys : List ℕ) → first (length xs) (xs ++ ys) ≡ xs
unfolding first
first-append [] [] = refl
first-append [] (y ∷ ys) = refl
first-append (x ∷ xs) ys = ap (λ l. x ∷ l) (first-append xs ys)

empty_lem : (xs : List ℕ) → is_empty xs ≡ true → xs ≡ []
empty_lem [] e = refl
empty_lem (x ∷ xs) e = cc

-- The end of the file.
replay_from-tail :
    (m n k : ℕ) (es events : List Event) (payload : List ℕ)
    → length payload ≤ m
    → m < 2 ^ 32
    → k < length (frame payload)
    → replay_from
        (suc n)
        m
        true
        false
        (journal es ++ first k (frame payload))
        (first k (frame payload))
        events
      ≡ (ok events, journal es)
unfolding replay_from read_frame
replay_from-tail m n k es events payload l b s =
    elim (Bool-cases (is_empty (first k (frame payload)))) [
      | inl e ↦
          rw (e, replay_from)
            (ap (λ t. (ok events, journal es ++ t)) (empty_lem (first k (frame payload)) e)
              ∙ ap (λ t. (ok events, t)) (append_nil (journal es)))
      | inr e ↦
          let t = first k (frame payload) in
          let q : length (journal es ++ t) - length t ≡ length (journal es) =
            omega (arith, length-append (journal es) t) in
          rw (read_frame-torn m k payload l b s e, replay_from)
            (ap (λ i. (ok events, first i (journal es ++ t))) q
              ∙ ap (λ x. (ok events, x)) (first-append (journal es) t))
    ]

replay-torn :
    (m k : ℕ) (es : List Event) (payload : List ℕ)
    → all_of (storable m) es ≡ true
    → length payload ≤ m
    → m < 2 ^ 32
    → k < length (frame payload)
    → replay m true false (journal es ++ first k (frame payload)) ≡ (ok (map stored es), journal es)
unfolding replay
replay-torn m k es payload s l b c =
    let file = journal es ++ first k (frame payload) in
    let q : suc (length file) ≡ length es + suc (length file - length es) =
      omega (arith, length-journal es, length-append (journal es) (first k (frame payload))) in
    ap (λ i. replay_from i m true false file file []) q
    ∙ replay_from-journal m (suc (length file - length es)) true false file
        (first k (frame payload)) es [] s b
    ∙ replay_from-tail m (length file - length es) k es (map stored es) payload l b c

journal-append :
    (es : List Event) (e : Event) → journal es ++ frame (put_event e) ≡ journal (es ++ e ∷ [])
unfolding journal
journal-append [] e = sym (append_nil (frame (put_event e)))
journal-append (d ∷ es) e =
    append_assoc (frame (put_event d)) (journal es) (frame (put_event e))
    ∙ ap (λ l. frame (put_event d) ++ l) (journal-append es e)

all_of-append_one :
    (m : ℕ) (es : List Event) (e : Event)
    → all_of (storable m) es ≡ true
    → storable m e ≡ true
    → all_of (storable m) (es ++ e ∷ []) ≡ true
all_of-append_one m [] e s t = rw t refl
all_of-append_one m (d ∷ es) e s t =
    let a = and_both (storable m d) (all_of (storable m) es) s in
    rw a.0 (all_of-append_one m es e a.1 t)

storable-length : (m : ℕ) (e : Event) → storable m e ≡ true → length (put_event e) ≤ m
storable-length m e t =
    let a = (and_both (valid_event e) (leb (length (put_event e)) m) t).1 in ground (arith, a)

encode_lem : (m : ℕ) (e : Event) → length (put_event e) ≤ m → encode m e ≡ ok (put_event e)
unfolding encode
encode_lem m e l =
    let c : ltb m (length (put_event e)) ≡ false = ground arith in rw (c, encode) refl

append-written :
    (m : ℕ) (y : Bool) (e : Event) (file : List ℕ)
    → length (put_event e) ≤ m
    → append m y e (Outcome.written true) file ≡ (ok tt, file ++ frame (put_event e))
unfolding append
append-written m true e file l = rw (encode_lem m e l, append) refl
append-written m false e file l = rw (encode_lem m e l, append) refl

append-torn_after :
    (m n : ℕ) (y : Bool) (e : Event) (file : List ℕ)
    → length (put_event e) ≤ m
    → append m y e (Outcome.torn_after n) file
      ≡ (fail persistence_error, file ++ first n (frame (put_event e)))
unfolding append
append-torn_after m n y e file l = rw (encode_lem m e l, append) refl

replay-journal :
    (m : ℕ) (es : List Event) (payload : List ℕ)
    → all_of (storable m) es ≡ true
    → length payload ≤ m
    → m < 2 ^ 32
    → replay m true false (journal es) ≡ (ok (map stored es), journal es)
unfolding first
replay-journal m es payload s l b =
    ap (λ t. replay m true false t) (sym (append_nil (journal es)))
    ∙ replay-torn m 0 es payload s l b (omega (arith, length-frame payload))

-- A journal survives a write that is torn: where the events of a journal and one more fit the types
-- of their fields and the limit of the journal, `Replay` after an `Append` that succeeds gives all
-- the events and leaves the file; after an `Append` that fails with its frame written in part, it
-- gives the events from before, and cuts the file back to them. Of each event all is given back but
-- the state in the evidence of a failure.
pub replay-append :
    (m n : ℕ) (synchronize : Bool) (es : List Event) (e : Event)
    → all_of (storable m) es ≡ true
    → storable m e ≡ true
    → m < 2 ^ 32
    → n < length (frame (put_event e))
    → (append m synchronize e (Outcome.written true) (journal es) ≡ (ok tt, journal (es ++ e ∷ [])))
      × (replay m true false (journal (es ++ e ∷ []))
          ≡ (ok (map stored (es ++ e ∷ [])), journal (es ++ e ∷ [])))
      × ((append m synchronize e (Outcome.torn_after n) (journal es)).0 ≡ fail persistence_error)
      × (replay m true false (append m synchronize e (Outcome.torn_after n) (journal es)).1
          ≡ (ok (map stored es), journal es))
replay-append m n y es e s t b c =
    let l = storable-length m e t in
    let w = append-torn_after m n y e (journal es) l in
    (
      append-written m y e (journal es) l ∙ ap (λ x. (ok tt, x)) (journal-append es e),
      replay-journal m (es ++ e ∷ []) (put_event e) (all_of-append_one m es e s t) l b,
      ap (λ (x : Result (Unit {0}) × List ℕ). x.0) w,
      ap (λ (x : Result (Unit {0}) × List ℕ). replay m true false x.1) w
          ∙ replay-torn m n es (put_event e) s l b c,
    )
