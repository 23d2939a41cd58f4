-- ===== src/Deserializer/Drain.antt =====
-- sccp_msg.c and the loop of sccp_session.c that pops every buffered message.
use wazo_libsccp.Common.{
  Bool-cases, ◌==◌, ◌⊎◌, drop, ℕ, zero, suc, ◌≤◌, ◌<◌, ◌≡◌, refl, subst, ap, ◌∙◌, List, [], ◌∷◌,
  some, length, inl, inr, arith,
}
use wazo_libsccp.Deserializer.{
  Deserializer, Drained, add_size, load32, total_len, max_total_len, deliver, pop, pop_all,
  handed_on, PopRet, nomsg, malformed,
}
use wazo_libsccp.Deserializer.Bounds.{IsValid, pending}
use wazo_libsccp.Deserializer.Frame.{Frame, frame, overlay, Answers, pop-Answers}
use wazo_libsccp.Deserializer.Stream.{Parses, stops, breaks, takes, Parses-shrinks}

-- The messages as the handler sees them: each frame copied over the message before it.
abbrev pub overlays : List (List ℕ) → List ℕ → List (List ℕ)
overlays [] old = []
overlays (x ∷ xs) old = overlay x old ∷ overlays xs (overlay x old)

-- The message memory after these.
abbrev pub last_overlay : List (List ℕ) → List ℕ → List ℕ
last_overlay [] old = old
last_overlay (x ∷ xs) old = last_overlay xs (overlay x old)

-- What a loop of pops, begun at `d`, gives when its buffered bytes are read as `ms`.
pub record Drains (d : Deserializer) (ms : List (List ℕ)) (last : PopRet) (left : List ℕ)
    (r : Drained) : Type 0 where
  pub handed : r.msgs ≡ overlays ms d.msg
  pub result : r.last ≡ last
  pub rest : pending r.state ≡ left
  pub memory : r.state.msg ≡ last_overlay ms d.msg
  pub valid : IsValid r.state
  pub end_le : r.state.end ≤ d.end
  pub end_kept : (r.state.end ≡ d.end) ⊎ (left ≡ [])

end-deliver : (d : Deserializer) (t c : ℕ) → (deliver d t c).2.end ≤ d.end
unfolding deliver
end-deliver d t c = ground arith

end-pop : (d : Deserializer) → (pop d).2.end ≤ d.end
unfolding pop
end-pop d =
    let t = total_len (load32 (drop d.start d.buf)) in
    ground (arith, end-deliver d t max_total_len, end-deliver d t t)

-- `end` moves only when nothing is left.
end_kept-deliver :
    (d : Deserializer) (t c : ℕ)
    → ((deliver d t c).2.end ≡ d.end) ⊎ (pending (deliver d t c).2 ≡ [])
unfolding deliver
end_kept-deliver d t c = elim (Bool-cases (add_size d.start t == d.end)) [
  | inl e ↦ inr (rw (e, deliver))
  | inr e ↦ inl (rw (e, deliver))
]

end_kept-pop : (d : Deserializer) → ((pop d).2.end ≡ d.end) ⊎ (pending (pop d).2 ≡ [])
unfolding pop
end_kept-pop d =
    let t = total_len (load32 (drop d.start d.buf)) in
    ground (arith, end_kept-deliver d t max_total_len, end_kept-deliver d t t)

end_of_rest :
    (d : Deserializer) {rest : List ℕ} {ms : List (List ℕ)} {last : PopRet} {left : List ℕ} {e : ℕ}
    → Parses rest ms last left
    → pending (pop d).2 ≡ rest
    → (e ≡ (pop d).2.end) ⊎ (left ≡ [])
    → (e ≡ d.end) ⊎ (left ≡ [])
end_of_rest d p h (inr empty) = inr empty
end_of_rest d {left = l} p h (inl same) = elim (end_kept-pop d) [
  | inl kept ↦ inl (same ∙ kept)
  | inr none_left ↦ inr (grind (arith, Parses-shrinks p, h, none_left))
]

answer : (d : Deserializer) {f : Frame} → IsValid d → frame (pending d) ≡ f → Answers d f (pop d)
answer d v e = subst (λ f. Answers d f (pop d)) e (pop-Answers d v)

-- On a valid deserializer whose buffered bytes are read as the frames `ms`, the loop ends, given fuel
-- above the number of these frames, hands on exactly these frames as far as they fit, stops for the
-- same reason, and leaves the same bytes buffered.
pub pop_all-Drains :
    {bytes : List ℕ} {ms : List (List ℕ)} {last : PopRet} {left : List ℕ}
    → Parses bytes ms last left
    → (fuel : ℕ) (d : Deserializer) → length ms < fuel
    → IsValid d
    → pending d ≡ bytes
    → (r : Drained) × (pop_all fuel d ≡ some r) × Drains d ms last left r
unfolding pop_all handed_on
pop_all-Drains p zero d h v e = absurd (omega arith)
pop_all-Drains (stops f) (suc fuel) d h v e = (
  record { msgs = []; last = nomsg; state = d },
  rw (answer d v (ap frame e ∙ f), pop_all, answer d v (ap frame e ∙ f)),
  record {
    handed = refl;
    result = refl;
    rest = e;
    memory = refl;
    valid = v;
    end_le = omega arith;
    end_kept = inl refl;
  },
)
pop_all-Drains (breaks f) (suc fuel) d h v e = (
  record { msgs = []; last = malformed; state = d },
  rw (answer d v (ap frame e ∙ f), pop_all, answer d v (ap frame e ∙ f)),
  record {
    handed = refl;
    result = refl;
    rest = e;
    memory = refl;
    valid = v;
    end_le = omega arith;
    end_kept = inl refl;
  },
)
pop_all-Drains {ms = x ∷ ms} (takes f p) (suc fuel) d h v e =
    let (ret, got, memory, left, valid) = answer d v (ap frame e ∙ f) in
    let (r, runs, drains) = pop_all-Drains p fuel (pop d).2 (omega arith) valid left in
    (
      record r { msgs = overlay x d.msg ∷ r.msgs },
      rw (ret, got, pop_all, handed_on, runs),
      record {
        handed = ap (λ l. overlay x d.msg ∷ l) (drains.handed ∙ ap (overlays ms) memory);
        result = drains.result;
        rest = drains.rest;
        memory = drains.memory ∙ ap (last_overlay ms) memory;
        valid = drains.valid;
        end_le = omega (arith, end-pop d, drains.end_le);
        end_kept = end_of_rest d p left drains.end_kept;
      },
    )
