-- ===== src/Deserializer/Stream.antt =====
-- sccp_msg.c, the deserializer: byte streams as sequences of frames.
use wazo_libsccp.Common.{
  ℕ, zero, suc, ◌+◌, ◌≤◌, ◌<◌, ◌≡◌, refl, sym, ap, ap₂, ◌∙◌, List, [], ◌∷◌, ◌++◌, length,
  length-append, length-drop, inl, inr, ◌⊎◌, take_all, take_le_append, drop_le_append, drop_all,
  arith,
}
use wazo_libsccp.Deserializer.{min_total_len, total_len, load32, PopRet, nomsg, malformed}
use wazo_libsccp.Deserializer.Frame.{Frame, incomplete, bad, message, frame}

-- The byte stream `xs` is the frames `ms`, after which reading stops, with result `r` and the bytes
-- `ys` left.
pub data Parses : List ℕ → List (List ℕ) → PopRet → List ℕ → Type 0 where
  stops : {xs : List ℕ} → frame xs ≡ incomplete → Parses xs [] nomsg xs
  breaks : {xs : List ℕ} → frame xs ≡ bad → Parses xs [] malformed xs
  takes :
      {xs x rest : List ℕ} {ms : List (List ℕ)} {r : PopRet} {ys : List ℕ}
      → frame xs ≡ message x rest
      → Parses rest ms r ys
      → Parses xs (x ∷ ms) r ys

Frame-cases :
    (f : Frame) → (f ≡ incomplete) ⊎ (f ≡ bad) ⊎ ((x rest : List ℕ) × (f ≡ message x rest))
Frame-cases incomplete = inl refl
Frame-cases bad = inr (inl refl)
Frame-cases (message x rest) = inr (inr (x, rest, refl))

-- A frame leaves fewer bytes.
pub frame_shrinks :
    (xs : List ℕ) {x rest : List ℕ} → frame xs ≡ message x rest → length rest < length xs
unfolding frame
frame_shrinks xs e = ground (arith, length-drop (total_len (load32 xs)) xs)

-- Every stream is read in one way.
pub Parses-total :
    (n : ℕ) (xs : List ℕ)
    → length xs < n
    → (ms : List (List ℕ)) × (r : PopRet) × (ys : List ℕ) × Parses xs ms r ys
Parses-total zero xs h = absurd (omega arith)
Parses-total (suc n) xs h = elim (Frame-cases (frame xs)) [
  | inl e ↦ ([], nomsg, xs, stops e)
  | inr (inl e) ↦ ([], malformed, xs, breaks e)
  | inr (inr (x, rest, e)) ↦
      let (ms, r, ys, p) = Parses-total n rest (omega (arith, frame_shrinks xs e)) in
      (x ∷ ms, r, ys, takes e p)
]

load32-append : (xs ys : List ℕ) → 4 ≤ length xs → load32 (xs ++ ys) ≡ load32 xs
unfolding load32
load32-append (a ∷ b ∷ c ∷ d ∷ xs) ys h = refl
load32-append _ ys h = absurd (omega arith)

-- More bytes behind do not change the first frame.
frame-append :
    (xs ys : List ℕ) {x rest : List ℕ}
    → frame xs ≡ message x rest
    → frame (xs ++ ys) ≡ message x (rest ++ ys)
unfolding frame
frame-append xs ys e = ground (
  arith,
  load32-append xs ys,
  length-append xs ys,
  take_le_append (total_len (load32 xs)) xs ys,
  drop_le_append (total_len (load32 xs)) xs ys,
)

frame-append_bad : (xs ys : List ℕ) → frame xs ≡ bad → frame (xs ++ ys) ≡ bad
unfolding frame
frame-append_bad xs ys e = ground (arith, load32-append xs ys, length-append xs ys)

-- Reading can be interrupted where a frame is incomplete, and goes on when more bytes are there.
pub Parses-append :
    {xs : List ℕ} {ms : List (List ℕ)} {r : PopRet} {ys : List ℕ} (zs : List ℕ)
    → Parses xs ms r ys
    → r ≡ nomsg
    → {ns : List (List ℕ)} {s : PopRet} {ws : List ℕ} → Parses (ys ++ zs) ns s ws
    → Parses (xs ++ zs) (ms ++ ns) s ws
Parses-append zs (stops e) h q = q
Parses-append zs (breaks e) h q = cc
Parses-append {xs} zs (takes e p) h q = takes (frame-append xs zs e) (Parses-append zs p h q)

-- A stream that begins with a broken frame stays broken.
pub Parses-append_malformed :
    {xs : List ℕ} {ms : List (List ℕ)} {r : PopRet} {ys : List ℕ} (zs : List ℕ)
    → Parses xs ms r ys
    → r ≡ malformed
    → Parses (xs ++ zs) ms malformed (ys ++ zs)
Parses-append_malformed zs (stops e) h = cc
Parses-append_malformed {xs} zs (breaks e) h = breaks (frame-append_bad xs zs e)
Parses-append_malformed {xs} zs (takes e p) h =
    takes (frame-append xs zs e) (Parses-append_malformed zs p h)

pub Parses-result :
    {xs : List ℕ} {ms : List (List ℕ)} {r : PopRet} {ys : List ℕ}
    → Parses xs ms r ys
    → (r ≡ nomsg) ⊎ (r ≡ malformed)
Parses-result (stops e) = inl refl
Parses-result (breaks e) = inr refl
Parses-result (takes e p) = Parses-result p

-- Where reading stops for want of bytes, no whole frame is left.
pub Parses-rest :
    {xs : List ℕ} {ms : List (List ℕ)} {r : PopRet} {ys : List ℕ}
    → Parses xs ms r ys
    → r ≡ nomsg
    → frame ys ≡ incomplete
Parses-rest (stops e) h = e
Parses-rest (breaks e) h = cc
Parses-rest (takes e p) h = Parses-rest p h

-- Reading adds no bytes, and a frame takes some.
pub Parses-shrinks :
    {xs : List ℕ} {ms : List (List ℕ)} {r : PopRet} {ys : List ℕ}
    → Parses xs ms r ys
    → length ys + length ms ≤ length xs
Parses-shrinks (stops e) = omega arith
Parses-shrinks (breaks e) = omega arith
Parses-shrinks {xs} (takes e p) = omega (arith, frame_shrinks xs e, Parses-shrinks p)

message-injective : {x y xs ys : List ℕ} → message x xs ≡ message y ys → (x ≡ y) × (xs ≡ ys)
message-injective e = (cc, cc)

-- A stream is read in one way only.
pub Parses-unique :
    {xs xs' : List ℕ} {ms ns : List (List ℕ)} {r s : PopRet} {ys zs : List ℕ}
    → Parses xs ms r ys
    → Parses xs' ns s zs
    → xs ≡ xs'
    → (ms ≡ ns) × (r ≡ s) × (ys ≡ zs)
Parses-unique (stops e) (stops f) h = (refl, refl, h)
Parses-unique (stops e) (breaks f) h = cc (ap frame h)
Parses-unique (stops e) (takes f q) h = cc (ap frame h)
Parses-unique (breaks e) (stops f) h = cc (ap frame h)
Parses-unique (breaks e) (breaks f) h = (refl, refl, h)
Parses-unique (breaks e) (takes f q) h = cc (ap frame h)
Parses-unique (takes e p) (stops f) h = cc (ap frame h)
Parses-unique (takes e p) (breaks f) h = cc (ap frame h)
Parses-unique (takes e p) (takes f q) h =
    let (same, behind) = message-injective (sym e ∙ ap frame h ∙ f) in
    let (more, result, left) = Parses-unique p q behind in (ap₂ ◌∷◌ same more, result, left)

-- A byte sequence that is a frame by itself: its first word is its length less 8.
pub record IsFrame (x : List ℕ) : Type 0 where
  pub has_header : min_total_len ≤ length x
  pub has_length : total_len (load32 x) ≡ length x

abbrev pub AllFrames : List (List ℕ) → Type 0
AllFrames [] = Unit {0}
AllFrames (x ∷ xs) = IsFrame x × AllFrames xs

abbrev pub joined : List (List ℕ) → List ℕ → List ℕ
joined [] tail = tail
joined (x ∷ xs) tail = x ++ joined xs tail

frame_whole : (x : List ℕ) → IsFrame x → frame x ≡ message x []
unfolding frame
frame_whole x v =
    ground (arith, v, take_all (total_len (load32 x)) x, drop_all (total_len (load32 x)) x)

pub frame-joined : (x rest : List ℕ) → IsFrame x → frame (x ++ rest) ≡ message x rest
frame-joined x rest v = frame-append x rest (frame_whole x v)

-- Whole frames one behind the other, and then less than a frame, are read as these frames.
pub joined-Parses :
    (xs : List (List ℕ)) (tail : List ℕ)
    → AllFrames xs
    → frame tail ≡ incomplete
    → Parses (joined xs tail) xs nomsg tail
joined-Parses [] tail h e = stops e
joined-Parses (x ∷ xs) tail h e =
    takes (frame-joined x (joined xs tail) h.0) (joined-Parses xs tail h.1 e)
