-- ===== src/Deserializer/Receive.antt =====
-- sccp_msg.c and sccp_session.c: the bytes that arrive, in any pieces, and the messages handled.
use wazo_libsccp.Common.{
  ℕ, ◌≢◌, suc, ◌+◌, ◌≤◌, ◌<◌, ◌≡◌, refl, ap₂, sym, subst, ap, ◌∙◌, List, [], ◌∷◌, ◌++◌, append-nil,
  append_assoc, Option, some, length, take, take_le_append, take_all, length-append, inl, inr,
  arith,
}
use wazo_libsccp.Deserializer.{
  Deserializer, Drained, buf_size, read, read_full, pop_all, receive, receive_all, after_turn,
  PopRet, nomsg, max_total_len,
}
use wazo_libsccp.Deserializer.Bounds.{
  IsValid, read_refused, length-pending, pending, refilled, read-refilled, read_appends,
}
use wazo_libsccp.Deserializer.Frame.{incomplete, frame, overlay}
use wazo_libsccp.Deserializer.Stream.{
  Parses, Parses-shrinks, stops, Parses-total, Parses-append, Parses-append_malformed,
  Parses-result, Parses-rest, Parses-unique, AllFrames, joined, joined-Parses,
}
use wazo_libsccp.Deserializer.Drain.{Drains, overlays, last_overlay, pop_all-Drains}

-- All bytes of the pieces, in order.
abbrev pub bytes : List (List ℕ) → List ℕ
bytes [] = []
bytes (c ∷ cs) = c ++ bytes cs

-- read(2) gives no empty piece before the end of the stream.
abbrev pub AllNonempty : List (List ℕ) → Type 0
AllNonempty [] = Unit {0}
AllNonempty (c ∷ cs) = (0 < length c) × AllNonempty cs

receive-refilled :
    (fuel : ℕ) (d : Deserializer) (b : ℕ) (bs : List ℕ)
    → d.end + length (b ∷ bs) ≤ buf_size
    → receive fuel d (b ∷ bs) ≡ pop_all fuel (refilled d (b ∷ bs))
unfolding receive
receive-refilled fuel d b bs h = rw (read-refilled d b bs h, receive, read-refilled d b bs h)

-- One turn: the pieces that were buffered and `c` are read as one stream.
receive-Drains :
    (fuel : ℕ) (d : Deserializer) (c : List ℕ) {ms : List (List ℕ)} {last : PopRet} {left : List ℕ}
    → IsValid d
    → 0 < length c
    → d.end + length c ≤ buf_size
    → length ms < fuel
    → Parses (pending d ++ c) ms last left
    → (r : Drained) × (receive fuel d c ≡ some r) × Drains (refilled d c) ms last left r
receive-Drains fuel d [] v n h f p = absurd (omega arith)
receive-Drains fuel d (b ∷ bs) v n h f p =
    let (_, valid, held) = read_appends d b bs v h in
    let e = read-refilled d b bs h in
    let (r, runs, drains) =
      pop_all-Drains p fuel (refilled d (b ∷ bs)) f (subst (λ t. IsValid t.1) e valid)
        (subst (λ t. pending t.1 ≡ pending d ++ (b ∷ bs)) e held) in
    (r, receive-refilled fuel d b bs h ∙ runs, drains)

-- The turns over all pieces: what they hand on, and where they end.
pub record Receives (d : Deserializer) (ms : List (List ℕ)) (left : List ℕ) (r : Drained)
    : Type 0 where
  pub handed : r.msgs ≡ overlays ms d.msg
  pub result : r.last ≡ nomsg
  pub rest : pending r.state ≡ left
  pub valid : IsValid r.state

-- A stream of which `c` comes first is read in two parts.
split_stream :
    (p c rest : List ℕ) {ms : List (List ℕ)} {left : List ℕ}
    → Parses (p ++ (c ++ rest)) ms nomsg left
    → (ms₁ : List (List ℕ)) × (ms₂ : List (List ℕ)) × (mid : List ℕ) × Parses (p ++ c) ms₁ nomsg mid
      × Parses (mid ++ rest) ms₂ nomsg left
      × (ms₁ ++ ms₂ ≡ ms)
split_stream p c rest {left = l} whole =
    let (ms₁, r₁, mid, first) = Parses-total (suc (length (p ++ c))) (p ++ c) (omega arith) in
    elim (Parses-result first) [
      | inl good ↦
          let (ms₂, r₂, end, second) =
            Parses-total (suc (length (mid ++ rest))) (mid ++ rest) (omega arith) in
          let (same, result, same_end) =
            Parses-unique (Parses-append rest first good second) whole (append_assoc p c rest) in
          (
            ms₁,
            ms₂,
            mid,
            subst (λ r. Parses (p ++ c) ms₁ r mid) good first,
            subst (λ r. Parses (mid ++ rest) ms₂ r l) result
                (subst (λ k. Parses (mid ++ rest) ms₂ r₂ k) same_end second),
            same,
          )
      | inr broken ↦
          let (same, result, same_end) =
            Parses-unique (Parses-append_malformed rest first broken) whole
              (append_assoc p c rest) in
          absurd (cc result)
    ]

overlays-append :
    (xs ys : List (List ℕ)) (old : List ℕ)
    → overlays (xs ++ ys) old ≡ overlays xs old ++ overlays ys (last_overlay xs old)
overlays-append [] ys old = refl
overlays-append (x ∷ xs) ys old =
    ap (λ l. overlay x old ∷ l) (overlays-append xs ys (overlay x old))

-- However a stream is cut into pieces that fit into the rest of the buffer, the turns end, given
-- fuel above the number of frames, hand on exactly the frames of the buffered bytes and the stream,
-- in order, and leave the bytes after the last whole frame buffered.
pub receive_all-Receives :
    (cs : List (List ℕ)) (fuel : ℕ) (d : Deserializer) {ms : List (List ℕ)} {left : List ℕ}
    → IsValid d
    → frame (pending d) ≡ incomplete
    → AllNonempty cs
    → d.end + length (bytes cs) ≤ buf_size
    → length ms < fuel
    → Parses (pending d ++ bytes cs) ms nomsg left
    → (r : Drained) × (receive_all fuel d cs ≡ some r) × Receives d ms left r
unfolding receive_all after_turn
receive_all-Receives [] fuel d v i n h f p =
    let (none_read, _, same_end) = Parses-unique (stops i) p (sym (append-nil (pending d))) in
    (
      record { msgs = []; last = nomsg; state = d },
      refl,
      record {
        handed = ap (λ l. overlays l d.msg) none_read;
        result = refl;
        rest = same_end;
        valid = v;
      },
    )
receive_all-Receives (c ∷ cs) fuel d {ms} {left} v i n h f p =
    let (ms₁, ms₂, mid, first, second, same) = split_stream (pending d) c (bytes cs) p in
    let total = length-append c (bytes cs) in
    let count : length ms ≡ length ms₁ + length ms₂ =
      ap length (sym same) ∙ length-append ms₁ ms₂ in
    let (r, runs, drains) =
      receive-Drains fuel d c v n.0 (omega (arith, total)) (omega (arith, count)) first in
    let (t, rest, received) =
      receive_all-Receives cs fuel r.state drains.valid
        (ap frame drains.rest ∙ Parses-rest first refl) n.1 (omega (arith, total, drains.end_le))
        (omega (arith, count))
        (subst (λ l. Parses (l ++ bytes cs) ms₂ nomsg left) (sym drains.rest) second) in
    (
      record t { msgs = r.msgs ++ t.msgs },
      rw (runs, receive_all, drains.result, rest),
      record {
        handed =
            ap₂ ◌++◌ drains.handed (received.handed ∙ ap (overlays ms₂) drains.memory)
            ∙ sym (overlays-append ms₁ ms₂ d.msg)
            ∙ ap (λ l. overlays l d.msg) same;
        result = received.result;
        rest = received.rest;
        valid = received.valid;
      },
    )

-- Each message begins with its frame, as far as that fits into a `struct sccp_msg`.
abbrev pub AllBegin : List (List ℕ) → List (List ℕ) → Type 0
AllBegin [] [] = Unit {0}
AllBegin [] (m ∷ ms) = ⊥
AllBegin (x ∷ xs) [] = ⊥
AllBegin (x ∷ xs) (m ∷ ms) =
    (take (length (take max_total_len x)) m ≡ take max_total_len x) × AllBegin xs ms

overlays-AllBegin : (xs : List (List ℕ)) (old : List ℕ) → AllBegin xs (overlays xs old)
overlays-AllBegin [] old = tt
overlays-AllBegin (x ∷ xs) old =
    let front = take max_total_len x in
    (
      take_le_append (length front) front _ (omega arith)
          ∙ take_all (length front) front (omega arith),
      overlays-AllBegin xs (overlay x old),
    )

-- A stream of whole frames and a last incomplete one that fits into the rest of the buffer, cut into
-- pieces at any places: from a buffer without waiting bytes, the turns end, given fuel of one
-- more than the frames, and hand on one message for each frame, in order. Each is the frame copied over
-- the message before it: it begins with the frame's bytes, up to 796 of them, and behind a shorter
-- frame the old bytes stay. The incomplete frame stays in the buffer.
pub receive_all_frames :
    (xs : List (List ℕ)) (tail : List ℕ) (cs : List (List ℕ)) (d : Deserializer)
    → AllFrames xs
    → frame tail ≡ incomplete
    → IsValid d
    → pending d ≡ []
    → AllNonempty cs
    → bytes cs ≡ joined xs tail
    → d.end + length (bytes cs) ≤ buf_size
    → (r : Drained) × (receive_all (suc (length xs)) d cs ≡ some r)
      × Receives d xs tail r
      × AllBegin xs r.msgs
unfolding frame
receive_all_frames xs tail cs d w i v e n same h =
    let (r, runs, received) =
      receive_all-Receives cs (suc (length xs)) d v (ap frame e) n h (omega arith)
        (subst (λ l. Parses l xs nomsg tail) (sym (ap₂ ◌++◌ e same)) (joined-Parses xs tail w i)) in
    (r, runs, received, subst (AllBegin xs) (sym received.handed) (overlays-AllBegin xs d.msg))

-- When a piece fills the buffer to its end and its last frame is incomplete, the turn hands on the
-- `k + 1` frames before it, and every later read is refused as SCCP_DESERIALIZER_FULL, although the
-- bytes that wait take up at most the buffer's size less `k + 1`.
pub receive_fills :
    (d : Deserializer) (c : List ℕ) (x : List ℕ) (ms : List (List ℕ)) (left : List ℕ)
    (later : Option (List ℕ))
    → IsValid d
    → 0 < length c
    → d.end + length c ≡ buf_size
    → Parses (pending d ++ c) (x ∷ ms) nomsg left
    → left ≢ []
    → (r : Drained) × (receive (suc (suc (length ms))) d c ≡ some r)
      × (r.msgs ≡ overlays (x ∷ ms) d.msg)
      × (read r.state later ≡ (read_full, r.state))
      × (length (pending r.state) + length (x ∷ ms) ≤ buf_size)
receive_fills d c x ms left later v n h p ne =
    let (r, runs, drains) =
      receive-Drains (suc (suc (length ms))) d c v n (omega arith) (omega arith) p in
    (
      r,
      runs,
      drains.handed,
      elim drains.end_kept [
        | inl kept ↦ read_refused r.state later (kept ∙ h)
        | inr empty ↦ absurd (ne empty)
      ],
      omega (
        arith,
        ap length drains.rest,
        Parses-shrinks p,
        length-append (pending d) c,
        length-pending d v,
        v,
      ),
    )
