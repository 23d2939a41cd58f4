-- ===== src/Deserializer/Bounds.antt =====
-- sccp_msg.c, the deserializer: its indices and arrays, and what is buffered.
use wazo_libsccp.Common.{
  ℕ, ◌+◌, ◌-◌, ◌≤◌, ◌≡◌, false, refl, sym, ap, ◌∙◌, List, [], ◌∷◌, ◌++◌, append_assoc, Option, some,
  length, take, drop, length-append, length-take, length-drop, take_le_append, take_all,
  drop_le_append, arith, ◌==◌,
}
use wazo_libsccp.Deserializer.{
  Deserializer, buf_size, add_size, sub_size, max_total_len, init, read, read_done, read_full,
}

-- The indices are ordered and inside the buffer, and the arrays have their sizes.
pub record IsValid (d : Deserializer) : Type 0 where
  pub ordered : d.start ≤ d.end
  pub fits : d.end ≤ buf_size
  pub storage : length d.buf ≡ buf_size
  pub slot : length d.msg ≡ max_total_len

-- The bytes that were read and are in no message yet.
abbrev pub pending : Deserializer → List ℕ
pending d = drop d.start (take d.end d.buf)

-- `sccp_deserializer_init` on arrays of the right sizes gives a valid, empty deserializer.
pub init-IsValid :
    (d : Deserializer)
    → length d.buf ≡ buf_size
    → length d.msg ≡ max_total_len
    → IsValid (init d) × (pending (init d) ≡ [])
unfolding init
init-IsValid d b m = (omega arith, refl)

pub length-pending : (d : Deserializer) → IsValid d → length (pending d) ≡ d.end - d.start
length-pending d v =
    omega (arith, length-drop d.start (take d.end d.buf), length-take d.end d.buf, v)

-- The buffer after a read.
length-refill :
    (e : ℕ) (bs buf : List ℕ)
    → e + length bs ≤ length buf
    → length (take e buf ++ (bs ++ drop (e + length bs) buf)) ≡ length buf
length-refill e bs buf h = omega (
  arith,
  length-append (take e buf) (bs ++ drop (e + length bs) buf),
  length-append bs (drop (e + length bs) buf),
  length-take e buf,
  length-drop (e + length bs) buf,
)

take-refill :
    (e : ℕ) (bs rest buf : List ℕ)
    → e ≤ length buf
    → take (e + length bs) (take e buf ++ (bs ++ rest)) ≡ take e buf ++ bs
take-refill e bs rest buf h =
    ap (take (e + length bs)) (sym (append_assoc (take e buf) bs rest))
    ∙ take_le_append (e + length bs) (take e buf ++ bs) rest (omega (arith, size))
    ∙ take_all (e + length bs) (take e buf ++ bs) (omega (arith, size))
  where
    size : length (take e buf ++ bs) ≡ e + length bs
    size = omega (arith, length-append (take e buf) bs, length-take e buf)

pending-refill :
    (s e : ℕ) (bs rest buf : List ℕ)
    → s ≤ e
    → e ≤ length buf
    → drop s (take (e + length bs) (take e buf ++ (bs ++ rest))) ≡ drop s (take e buf) ++ bs
pending-refill s e bs rest buf h k =
    ap (drop s) (take-refill e bs rest buf k)
    ∙ drop_le_append s (take e buf) bs (omega (arith, length-take e buf))

-- The deserializer after a read of `bs`.
abbrev pub refilled : Deserializer → List ℕ → Deserializer
refilled d bs = record d {
  buf = take d.end d.buf ++ (bs ++ drop (d.end + length bs) d.buf);
  end = d.end + length bs;
}

pub read-refilled :
    (d : Deserializer) (b : ℕ) (bs : List ℕ)
    → d.end + length (b ∷ bs) ≤ buf_size
    → read d (some (b ∷ bs)) ≡ (read_done, refilled d (b ∷ bs))
unfolding read
read-refilled d b bs h =
    let room : (sub_size buf_size d.end == 0) ≡ false = ground arith in
    let e : add_size d.end (length (b ∷ bs)) ≡ d.end + length (b ∷ bs) = omega arith in rw (room, e)

-- A read of at least one byte, and of no more than there is room for, returns 0, keeps the
-- deserializer valid and appends exactly these bytes to the buffered ones.
pub read_appends :
    (d : Deserializer) (b : ℕ) (bs : List ℕ)
    → IsValid d
    → d.end + length (b ∷ bs) ≤ buf_size
    → let (r, d') = read d (some (b ∷ bs)) in
      (r ≡ read_done) × IsValid d' × (pending d' ≡ pending d ++ (b ∷ bs))
read_appends d b bs v h = rw (read-refilled d b bs h) (
  refl,
  record {
    ordered = omega (arith, v);
    fits = h;
    storage = length-refill d.end (b ∷ bs) d.buf (omega (arith, v)) ∙ v.storage;
    slot = v.slot;
  },
  pending-refill d.start d.end (b ∷ bs) (drop (d.end + length (b ∷ bs)) d.buf) d.buf v.ordered
      (omega (arith, v)),
)

-- A full buffer refuses every read, with SCCP_DESERIALIZER_FULL and no change, also when the bytes
-- before `start` are free.
pub read_refused :
    (d : Deserializer) (got : Option (List ℕ)) → d.end ≡ buf_size → read d got ≡ (read_full, d)
unfolding read
read_refused d got h = ground arith
