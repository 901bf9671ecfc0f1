-- ===== src/Exec/FileJournal/Frames/Reading.antt =====
-- exec/src/file_journal.cpp: what Replay finds at a whole frame, and at a part of one.
use openvehicleframework.Base.{
  ℕ, zero, suc, ◌+◌, ◌-◌, ◌/◌, ◌%◌, ◌^◌, ◌<◌, ◌≤◌, true, false, Option, some, none, List, [], ◌∷◌,
  ◌++◌, ltb, ==_refl, is_empty, length, arith, ◌≡◌, refl, ap, ◌∙◌, ok, Bool-cases, Option-cases,
  inl, inr,
}
use openvehicleframework.Exec.FileJournal.{Event}
use openvehicleframework.Exec.FileJournal.Codec.{put_integer, goes_on, take_integer, take_bytes}
use openvehicleframework.Exec.FileJournal.Codec.RoundTrip.{
  fits, step, fits_4, take_integer-put_integer, take_bytes-append,
}
use openvehicleframework.Exec.FileJournal.Events.{put_event, decode}
use openvehicleframework.Exec.FileJournal.Events.RoundTrip.{
  valid_event, stored, take_event-put_event,
}
use openvehicleframework.Exec.FileJournal.Frames.{
  crc_bytes, crc32, frame, first, incomplete, event, Header, take_header, is_bad_header,
  read_payload, read_rest, read_frame,
}

put_integer-append :
    (n v : ℕ) (xs ys : List ℕ) → put_integer n v xs ++ ys ≡ put_integer n v (xs ++ ys)
unfolding put_integer
put_integer-append zero v xs ys = refl
put_integer-append (suc n) v xs ys = ap (λ l. v % 256 ∷ l) (put_integer-append n (v / 256) xs ys)

length-put_integer : (n v : ℕ) (rest : List ℕ) → length (put_integer n v rest) ≡ n + length rest
unfolding put_integer
length-put_integer zero v rest = omega arith
length-put_integer (suc n) v rest = omega (arith, length-put_integer n (v / 256) rest)

first-put_integer :
    (n v k : ℕ) (rest : List ℕ)
    → first (n + k) (put_integer n v rest) ≡ put_integer n v (first k rest)
unfolding put_integer first
first-put_integer zero v k rest = let e : 0 + k ≡ k = omega arith in ap (λ m. first m rest) e
first-put_integer (suc n) v k rest =
    let e : suc n + k ≡ suc (n + k) = omega arith in
    ap (λ m. first m (v % 256 ∷ put_integer n (v / 256) rest)) e
    ∙ ap (λ l. v % 256 ∷ l) (first-put_integer n (v / 256) k rest)

-- The header in front of some bytes.
with_header : List ℕ → List ℕ → List ℕ
with_header payload rest = put_integer 4 1246123599 (
    put_integer 2 2
      (put_integer 2 0 (put_integer 4 (length payload) (put_integer 4 (crc32 payload) rest))))

header : List ℕ → Header
header payload = record {
  magic = 1246123599;
  version = 2;
  reserved = 0;
  size = length payload;
  checksum = crc32 payload;
}

fits-crc32 : (payload : List ℕ) → fits 4 (crc32 payload) ≡ true
unfolding crc32
fits-crc32 payload = fits_4 (4294967295 - crc_bytes payload 4294967295) (omega arith)

take_header-with_header :
    (payload rest : List ℕ)
    → length payload < 2 ^ 32
    → take_header (with_header payload rest) ≡ some (header payload, rest)
unfolding take_header with_header header
take_header-with_header payload rest l = step _ (take_integer-put_integer 4 1246123599 _ refl) (
    step _ (take_integer-put_integer 2 2 _ refl) (
      step _ (take_integer-put_integer 2 0 _ refl) (
        step _ (take_integer-put_integer 4 (length payload) _ (fits_4 (length payload) l))
          (step _ (take_integer-put_integer 4 (crc32 payload) _ (fits-crc32 payload)) refl))))

with_header-not_empty : (payload rest : List ℕ) → is_empty (with_header payload rest) ≡ false
unfolding with_header put_integer
with_header-not_empty payload rest = refl

frame-append :
    (payload rest : List ℕ) → frame payload ++ rest ≡ with_header payload (payload ++ rest)
unfolding frame with_header
frame-append payload rest =
    put_integer-append 4 1246123599 _ rest
    ∙ ap (λ l. put_integer 4 1246123599 l)
        (put_integer-append 2 2 _ rest
          ∙ ap (λ l. put_integer 2 2 l)
              (put_integer-append 2 0 _ rest
                ∙ ap (λ l. put_integer 2 0 l)
                    (put_integer-append 4 (length payload) _ rest
                      ∙ ap (λ l. put_integer 4 (length payload) l)
                          (put_integer-append 4 (crc32 payload) payload rest))))

header-good :
    (m : ℕ) (payload : List ℕ) → length payload ≤ m → is_bad_header m (header payload) ≡ false
unfolding is_bad_header header
header-good m payload l = ground arith

decode-put_event : (e : Event) → valid_event e ≡ true → decode 2 (put_event e) ≡ ok (stored e)
unfolding decode
decode-put_event e v = rw (take_event-put_event e v, decode) refl

read_rest-whole :
    (m : ℕ) (e : Event) (rest : List ℕ)
    → valid_event e ≡ true
    → length (put_event e) ≤ m
    → read_rest m (header (put_event e)) (put_event e ++ rest) ≡ event (stored e) rest
unfolding read_rest read_payload header
read_rest-whole m e rest v l =
    let p = put_event e in
    rw (header-good m p l, read_rest)
      (rw (take_bytes-append p rest)
        (rw (==_refl (crc32 p), read_payload) (rw (decode-put_event e v) refl)))

pub read_frame-frame :
    (m : ℕ) (e : Event) (rest : List ℕ)
    → valid_event e ≡ true
    → length (put_event e) ≤ m
    → m < 2 ^ 32
    → read_frame m (frame (put_event e) ++ rest) ≡ event (stored e) rest
unfolding read_frame
read_frame-frame m e rest v l b =
    let p = put_event e in
    let h : take_header (with_header p (p ++ rest)) ≡ some (header p, p ++ rest) =
      take_header-with_header p (p ++ rest) (omega arith) in
    ap (read_frame m) (frame-append p rest)
    ∙ rw (with_header-not_empty p (p ++ rest), read_frame) (rw h (read_rest-whole m e rest v l))

-- Fewer bytes than a header.
take_integer_short : (n : ℕ) (bytes : List ℕ) → length bytes < n → take_integer n bytes ≡ none
unfolding take_integer goes_on
take_integer_short zero bytes l = absurd (omega arith)
take_integer_short (suc n) [] l = refl
take_integer_short (suc n) (b ∷ bytes) l =
    rw (take_integer_short n bytes (omega arith), goes_on) refl

take_integer_left :
    (n : ℕ) (bytes : List ℕ) (v : ℕ) (rest : List ℕ)
    → take_integer n bytes ≡ some (v, rest)
    → length bytes ≡ n + length rest
unfolding take_integer goes_on
take_integer_left zero bytes v rest e = ground arith
take_integer_left (suc n) [] v rest e = cc
take_integer_left (suc n) (b ∷ bytes) v rest e = elim (Option-cases (take_integer n bytes)) [
  | inl h ↦ ground arith
  | inr ((w, r), h) ↦ ground (arith, take_integer_left n bytes w r h)
]

goes_on_short {ℓ} :
    {B : Type ℓ} (n left : ℕ) (k : ℕ → List ℕ → Option B) (bytes : List ℕ)
    → length bytes < n + left
    → ((v : ℕ) (rest : List ℕ) → length rest < left → k v rest ≡ none)
    → goes_on (take_integer n bytes) k ≡ none
unfolding goes_on
goes_on_short n left k bytes l h = elim (Option-cases (take_integer n bytes)) [
  | inl e ↦ rw (e, goes_on) refl
  | inr ((v, rest), e) ↦
      rw (e, goes_on) (h v rest (omega (arith, take_integer_left n bytes v rest e)))
]

take_header_short : (bytes : List ℕ) → length bytes < 16 → take_header bytes ≡ none
unfolding take_header
take_header_short bytes l = goes_on_short 4 12 _ bytes l λ a r1 l1.
    goes_on_short 2 10 _ r1 l1 λ b r2 l2. goes_on_short 2 8 _ r2 l2 λ c r3 l3.
      goes_on_short 4 4 _ r3 l3 λ d r4 l4. goes_on_short 4 0 _ r4 l4 λ e r5 l5. absurd (omega arith)

take_bytes_short : (n : ℕ) (bytes : List ℕ) → length bytes < n → take_bytes n bytes ≡ none
unfolding take_bytes goes_on
take_bytes_short zero bytes l = absurd (omega arith)
take_bytes_short (suc n) [] l = refl
take_bytes_short (suc n) (b ∷ bytes) l = rw (take_bytes_short n bytes (omega arith), goes_on) refl

first-frame :
    (payload : List ℕ) (k : ℕ)
    → first (4 + (2 + (2 + (4 + (4 + k))))) (frame payload) ≡ with_header payload (first k payload)
unfolding frame with_header
first-frame payload k =
    first-put_integer 4 1246123599 _ _
    ∙ ap (λ l. put_integer 4 1246123599 l)
        (first-put_integer 2 2 _ _
          ∙ ap (λ l. put_integer 2 2 l)
              (first-put_integer 2 0 _ _
                ∙ ap (λ l. put_integer 2 0 l)
                    (first-put_integer 4 (length payload) _ _
                      ∙ ap (λ l. put_integer 4 (length payload) l)
                          (first-put_integer 4 (crc32 payload) k payload))))

length-first : (n : ℕ) (bytes : List ℕ) → length (first n bytes) ≤ n
unfolding first
length-first zero bytes = omega arith
length-first (suc n) [] = omega arith
length-first (suc n) (b ∷ bytes) = omega (arith, length-first n bytes)

pub length-frame : (payload : List ℕ) → length (frame payload) ≡ 16 + length payload
unfolding frame
length-frame payload = omega (
  arith,
  length-put_integer 4 1246123599 (
      put_integer 2 2
        (put_integer 2 0 (put_integer 4 (length payload) (put_integer 4 (crc32 payload) payload)))),
  length-put_integer 2 2
      (put_integer 2 0 (put_integer 4 (length payload) (put_integer 4 (crc32 payload) payload))),
  length-put_integer 2 0 (put_integer 4 (length payload) (put_integer 4 (crc32 payload) payload)),
  length-put_integer 4 (length payload) (put_integer 4 (crc32 payload) payload),
  length-put_integer 4 (crc32 payload) payload,
)

-- A part of a frame.
pub read_frame-torn :
    (m n : ℕ) (payload : List ℕ)
    → length payload ≤ m
    → m < 2 ^ 32
    → n < length (frame payload)
    → is_empty (first n (frame payload)) ≡ false
    → read_frame m (first n (frame payload)) ≡ incomplete
unfolding read_frame read_rest header
read_frame-torn m n payload l b s f = elim (Bool-cases (ltb n 16)) [
  | inl e ↦
      rw (f, read_frame)
        (rw
          (take_header_short (first n (frame payload))
            (ground (arith, length-first n (frame payload))))
          refl)
  | inr e ↦
      let k = n - 16 in
      let q : n ≡ 4 + (2 + (2 + (4 + (4 + k)))) = ground arith in
      let w : first n (frame payload) ≡ with_header payload (first k payload) =
        ap (λ i. first i (frame payload)) q ∙ first-frame payload k in
      let h = take_header-with_header payload (first k payload) (omega arith) in
      let c : length (first k payload) < length payload =
        ground (arith, length-first k payload, length-frame payload) in
      ap (read_frame m) w
      ∙ rw (with_header-not_empty payload (first k payload), read_frame)
          (rw h (
            rw (header-good m payload l, read_rest)
              (rw (take_bytes_short (length payload) (first k payload) c) refl)))
]
