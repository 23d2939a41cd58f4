-- ===== src/Deserializer/Frame.antt =====
-- sccp_msg.c, the deserializer: `pop` against an independent reading of a byte stream as frames.
use wazo_libsccp.Common.{
  ℕ, suc, ◌+◌, ◌-◌, ◌≤◌, ◌≡◌, refl, sym, subst, ap, ◌∙◌, true, false, List, ◌∷◌, ◌++◌, Option, none,
  some, length, take, drop, length-append, length-take, length-drop, drop-take, take-take_le,
  take-take, Bool-cases, inl, inr, drop_all, drop-drop, ==_iff, min, arith, ltb, leb, ◌==◌,
  if◌then◌else◌,
}
use wazo_libsccp.Deserializer.{
  Deserializer, buf_size, max_total_len, min_total_len, total_len, load32, pop, deliver, PopRet,
  add_size, sub_size, popped, nomsg, malformed,
}
use wazo_libsccp.Deserializer.Bounds.{IsValid, pending, length-pending}

-- What stands at the front of a byte stream: too few bytes for a message, a length field that no
-- message has, or a message and the bytes behind it.
pub data Frame : Type 0 where
  incomplete : Frame
  bad : Frame
  message : List ℕ → List ℕ → Frame

-- A frame is as long as its first word says, and never shorter than its header.
unfoldable pub frame : List ℕ → Frame
frame xs =
    let total = total_len (load32 xs) in
    if ltb (length xs) min_total_len
    then incomplete
    else if ltb (length xs) total
    then incomplete
    else if ltb total min_total_len
    then bad
    else message (take total xs) (drop total xs)

-- The memory of a `struct sccp_msg` into which a frame was copied, as far as it fits.
abbrev pub overlay : List ℕ → List ℕ → List ℕ
overlay x old = take max_total_len x ++ drop (min max_total_len (length x)) old

-- What `pop` may answer when the buffered bytes begin with a given frame.
abbrev pub Answers : Deserializer → Frame → PopRet × Option (List ℕ) × Deserializer → Type 0
Answers d incomplete r = r ≡ (nomsg, none, d)
Answers d bad r = r ≡ (malformed, none, d)
Answers d (message x rest) (r, m, d') =
    (r ≡ popped)
    × (m ≡ some (overlay x d.msg))
    × (d'.msg ≡ overlay x d.msg)
    × (pending d' ≡ rest)
    × IsValid d'

load32-take : (m : ℕ) (xs : List ℕ) → 4 ≤ m → load32 (take m xs) ≡ load32 xs
unfolding load32
load32-take (suc (suc (suc (suc m)))) (a ∷ b ∷ c ∷ d ∷ xs) h = refl
load32-take (suc (suc (suc (suc m)))) _ h = refl
load32-take _ _ h = absurd (omega arith)

-- The front of the buffer from `start` on is the front of the buffered bytes.
pending-take : (d : Deserializer) → pending d ≡ take (d.end - d.start) (drop d.start d.buf)
pending-take d = drop-take d.start d.end d.buf

take-pending :
    (d : Deserializer) (n : ℕ)
    → n ≤ d.end - d.start
    → take n (drop d.start d.buf) ≡ take n (pending d)
take-pending d n h =
    sym (ap (take n) (pending-take d) ∙ take-take_le n (d.end - d.start) (drop d.start d.buf) h)

load32-pending :
    (d : Deserializer) → 4 ≤ d.end - d.start → load32 (drop d.start d.buf) ≡ load32 (pending d)
load32-pending d h =
    sym (ap load32 (pending-take d) ∙ load32-take (d.end - d.start) (drop d.start d.buf) h)

-- The bytes copied into `msg`, for a frame of `t` bytes.
overlay-pending :
    (d : Deserializer) (t : ℕ)
    → IsValid d
    → t ≤ d.end - d.start
    → let c = min max_total_len t in
      take c (drop d.start d.buf) ++ drop c d.msg ≡ overlay (take t (pending d)) d.msg
overlay-pending d t v h =
    ap (λ l. l ++ drop (min max_total_len t) d.msg)
      (take-pending d (min max_total_len t) (omega arith)
        ∙ sym (take-take max_total_len t (pending d)))
    ∙ ap (λ k. take max_total_len (take t (pending d)) ++ drop k d.msg) copied
  where
    copied : min max_total_len t ≡ min max_total_len (length (take t (pending d)))
    copied = omega (arith, length-take t (pending d), length-pending d v)

length-overlay :
    (x old : List ℕ) → length old ≡ max_total_len → length (overlay x old) ≡ max_total_len
length-overlay x old h = omega (
  arith,
  length-append (take max_total_len x) (drop (min max_total_len (length x)) old),
  length-take max_total_len x,
  length-drop (min max_total_len (length x)) old,
)

deliver-Answers :
    (d : Deserializer) (t : ℕ)
    → IsValid d
    → t ≤ d.end - d.start
    → Answers d
        (message (take t (pending d)) (drop t (pending d)))
        (deliver d t (min max_total_len t))
unfolding deliver
deliver-Answers d t v k =
    let same = overlay-pending d t v k in
    let size = length-overlay (take t (pending d)) d.msg v.slot in
    let e : add_size d.start t ≡ d.start + t = omega (arith, v) in
    elim (Bool-cases (d.start + t == d.end)) [
      | inl last ↦
          let at_end = (==_iff _ _).0 last in
          rw (e, last, same)
            (
              refl,
              refl,
              refl,
              sym (drop_all t (pending d) (omega (arith, length-pending d v))),
              record {
                ordered = omega arith;
                fits = omega arith;
                storage = v.storage;
                slot = size;
              },
            )
      | inr more ↦
          rw (e, more, same)
            (
              refl,
              refl,
              refl,
              sym (drop-drop t d.start (take d.end d.buf)),
              record {
                ordered = omega (arith, v);
                fits = v.fits;
                storage = v.storage;
                slot = size;
              },
            )
    ]

-- On a valid deserializer `pop` returns the frame at the front of the buffered bytes, as far as it
-- fits into a message, and leaves the bytes behind it buffered; it answers SCCP_DESERIALIZER_NOMSG
-- when there is no whole frame and SCCP_DESERIALIZER_MALFORMED when the length is below a header's,
-- in both cases without a change. What it leaves is valid.
pub pop-Answers : (d : Deserializer) → IsValid d → Answers d (frame (pending d)) (pop d)
unfolding pop frame
pop-Answers d v = elim (Bool-cases (ltb (d.end - d.start) min_total_len)) [
  | inl short ↦ rw (avail, size, short) refl
  | inr long ↦
      rw (avail, size, long, load32-pending d (omega (arith, ltb→le long)))
        elim (Bool-cases (ltb (d.end - d.start) total)) [
          | inl part ↦ rw part refl
          | inr whole ↦ rw whole elim (Bool-cases (ltb total min_total_len)) [
            | inl low ↦ rw low refl
            | inr high ↦ rw high elim (Bool-cases (ltb max_total_len total)) [
              | inl big ↦
                  rw (big, fits (ltb→le whole))
                    (subst
                      (λ c.
                        Answers d (message (take total (pending d)) (drop total (pending d)))
                          (deliver d total c))
                      (large big) (deliver-Answers d total v (ltb→le whole)))
              | inr small ↦ rw small (
                  subst
                    (λ c.
                      Answers d (message (take total (pending d)) (drop total (pending d)))
                        (deliver d total c))
                    (exact small) (deliver-Answers d total v (ltb→le whole)))
            ]
          ]
        ]
]
  where
    total : ℕ
    total = total_len (load32 (pending d))

    avail : sub_size d.end d.start ≡ d.end - d.start
    avail = omega (arith, v)

    size : length (pending d) ≡ d.end - d.start
    size = length-pending d v

    large : ltb max_total_len total ≡ true → min max_total_len total ≡ max_total_len
    large h = ground arith

    exact : ltb max_total_len total ≡ false → min max_total_len total ≡ total
    exact h = ground arith

    fits : total ≤ d.end - d.start → leb total buf_size ≡ true
    fits h = ground (arith, v)

    ltb→le : {a b : ℕ} → ltb a b ≡ false → b ≤ a
    ltb→le h = ground arith
