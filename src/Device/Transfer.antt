-- ===== src/Device/Transfer.antt =====
-- sccp_device.c: handle_softkey_transfer, against the predicate of Valid.
use wazo_libsccp.Common.{
  ℕ, ◌<◌, ◌==◌, ◌≡◌, refl, sym, ap, subst, ◌∙◌, Bool, true, false, [], ◌∷◌, ◌++◌, none, some,
  if◌then◌else◌, arith, Bool-cases, Option-cases, inl, inr,
}
use wazo_libsccp.Device.Types.{Device, outgoing, queue_hold, transfer_attended, speaker, speaker_on}
use wazo_libsccp.Device.Core.{send}
use wazo_libsccp.Device.Calls.{do_hold, hold_subchan, sccp_line_new_subchannel}
use wazo_libsccp.Device.Valid.{IsValid, mem, mem-append, mem-lt, related_of}
use wazo_libsccp.Device.Links.{Valid-at, Valid-pair}
use wazo_libsccp.Device.Safety.{add_task-SameCalls, SameCalls-IsValid, do_hold-IsValid}
use wazo_libsccp.Device.Moves.{hold_keeps_line, new_subchannel-IsValid}
use wazo_libsccp.Device.Start.{active-mem}
use wazo_libsccp.Device.Softkeys.{
  link_transfer, begin_transfer, end_transfer, transfer_active, handle_softkey_transfer,
}

hold_related : (p x : ℕ) (d : Device) → related_of (do_hold p d).1 x ≡ related_of d x
unfolding do_hold hold_subchan
hold_related p x d = elim (Option-cases (d.heap p).channel) [
  | inl e ↦ rw (do_hold, e) (ground arith)
  | inr (c, e) ↦
      rw (do_hold, e)
        (ground (arith, ap (λ h. (h x).related) (add_task-SameCalls (queue_hold c) d).heap))
]

link-IsValid :
    (a q : ℕ) (d : Device)
    → IsValid d
    → mem a d.subchans ≡ true
    → mem q d.subchans ≡ true
    → (a == q) ≡ false
    → related_of d a ≡ none
    → related_of d q ≡ none
    → IsValid (link_transfer a (some q, d))
unfolding link_transfer
link-IsValid a q d v ma mq ne ra rq =
    Valid-at refl refl refl refl (λ x. ground arith) (Valid-pair v a q ma mq ne ra rq)

consult-IsValid :
    (a : ℕ) (d : Device)
    → IsValid d
    → mem a d.subchans ≡ true
    → related_of d a ≡ none
    → IsValid (link_transfer a (sccp_line_new_subchannel outgoing d))
unfolding link_transfer sccp_line_new_subchannel
consult-IsValid a d v m alone = elim (Bool-cases (d.mem 0)) [
  | inl ok ↦
      subst (λ r. IsValid (link_transfer a r)) (sym (pair ok))
        (link-IsValid a d.next_ptr f (new_subchannel-IsValid outgoing d v).0 (kept ok) (listed ok)
          (ground (arith, below)) (still ok) (alone_too ok))
  | inr full ↦ rw full v
]
  where
    f : Device
    f = (sccp_line_new_subchannel outgoing d).1

    below : a < d.next_ptr
    below = mem-lt a d.next_ptr d.subchans v.allocated m

    first : d.mem 0 ≡ true → (sccp_line_new_subchannel outgoing d).0 ≡ some d.next_ptr
    first ok = ground arith

    pair : d.mem 0 ≡ true → sccp_line_new_subchannel outgoing d ≡ (some d.next_ptr, f)
    pair ok = ap (λ o. (o, f)) (first ok)

    line : d.mem 0 ≡ true → f.subchans ≡ d.subchans ++ d.next_ptr ∷ []
    line ok = ground arith

    links :
        d.mem 0 ≡ true
        → (x : ℕ) → (f.heap x).related ≡ (if x == d.next_ptr then none else related_of d x)
    links ok x = ground arith

    kept : d.mem 0 ≡ true → mem a f.subchans ≡ true
    kept ok = ap (mem a) (line ok) ∙ ground (arith, mem-append a d.subchans (d.next_ptr ∷ []))

    listed : d.mem 0 ≡ true → mem d.next_ptr f.subchans ≡ true
    listed ok =
        ap (mem d.next_ptr) (line ok)
        ∙ ground (arith, mem-append d.next_ptr d.subchans (d.next_ptr ∷ []))

    still : d.mem 0 ≡ true → related_of f a ≡ none
    still ok = links ok a ∙ ground (arith, below)

    alone_too : d.mem 0 ≡ true → related_of f d.next_ptr ≡ none
    alone_too ok = links ok d.next_ptr ∙ ground arith

begin-IsValid :
    (a : ℕ) (d : Device)
    → IsValid d
    → mem a d.subchans ≡ true
    → related_of d a ≡ none
    → IsValid (begin_transfer a d)
unfolding begin_transfer
begin-IsValid a d v m alone =
    let w = do_hold-IsValid a d v in
    elim (Bool-cases (do_hold a d).0) [
      | inl ok ↦ rw ok (
          consult-IsValid a (send (speaker speaker_on) (do_hold a d).1) w
            (ap (mem a) (hold_keeps_line a d) ∙ m) (hold_related a a d ∙ alone))
      | inr bad ↦ rw bad w
    ]

end-IsValid :
    (is_down : ℕ → Bool) (c q : ℕ) (d : Device) → IsValid d → IsValid (end_transfer is_down c q d)
unfolding end_transfer
end-IsValid is_down c q d v = elim (Option-cases (d.heap q).channel) [
  | inl e ↦ rw (end_transfer, e) v
  | inr (r, e) ↦
      rw (end_transfer, e)
        (ground (arith, v, SameCalls-IsValid (add_task-SameCalls (transfer_attended r c) d) v))
]

pub transfer-IsValid :
    (is_down : ℕ → Bool) (line : ℕ) (d : Device)
    → IsValid d
    → IsValid (handle_softkey_transfer is_down line d)
unfolding handle_softkey_transfer transfer_active
transfer-IsValid is_down line d v = elim (Bool-cases (d.cfg.line_instance == line)) [
  | inl mine ↦ elim (Option-cases d.active_subchan) [
    | inl e ↦ rw (handle_softkey_transfer, mine, e) v
    | inr (a, e) ↦ rw (handle_softkey_transfer, mine, e) (active a (active-mem d a v e))
  ]
  | inr other ↦ rw (handle_softkey_transfer, other) v
]
  where
    active : (a : ℕ) → mem a d.subchans ≡ true → IsValid (transfer_active is_down a d)
    active a m = elim (Option-cases (d.heap a).channel) [
      | inl e ↦ rw (transfer_active, e) v
      | inr (c, e) ↦ elim (Option-cases (d.heap a).related) [
        | inl alone ↦ rw (transfer_active, e, alone) (begin-IsValid a d v m alone)
        | inr (q, r) ↦ rw (transfer_active, e, r) (end-IsValid is_down c q d v)
      ]
    ]
