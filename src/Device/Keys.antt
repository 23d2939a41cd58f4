-- ===== src/Device/Keys.antt =====
-- sccp_device.c: handle_msg_softkey_event, against the predicate of Valid.
use wazo_libsccp.Common.{
  ℕ, ◌≡◌, refl, sym, ap, ◌∙◌, Bool, true, List, arith, Bool-cases, Option-cases, inl, inr,
}
use wazo_libsccp.Device.Types.{Device}
use wazo_libsccp.Device.Calls.{is_ptr, sccp_lines_get_subchan, do_hold, do_newcall_options}
use wazo_libsccp.Device.Valid.{IsValid, mem, mem_or_null}
use wazo_libsccp.Device.Safety.{do_hold-IsValid, do_resume-IsValid}
use wazo_libsccp.Device.Moves.{
  do_newcall_options-IsValid, do_hangup-IsValid, do_answer_options-IsValid, hold_keeps_line,
}
use wazo_libsccp.Device.Same.{SameLinks}
use wazo_libsccp.Device.Start.{found-mem, start_the_call-IsValid, newcall-mem}
use wazo_libsccp.Device.Forward.{
  handle_softkey_dnd, handle_softkey_cfwdall, handle_softkey_bkspc, set_callforward,
  set_callforward_from_device_exten, clear_callforward, cancel_callforward_input,
  update_displaymessage,
}
use wazo_libsccp.Device.Dial.{CallSetup, newcall_to, handle_softkey_redial}
use wazo_libsccp.Device.Softkeys.{
  handle_softkey_answer, handle_softkey_endcall, handle_softkey_hold, handle_softkey_newcall,
  resume_other, handle_softkey_resume, Softkey, softkey_redial, softkey_newcall, softkey_hold,
  softkey_trnsfer, softkey_cfwdall, softkey_bkspc, softkey_endcall, softkey_resume, softkey_answer,
  softkey_dnd, softkey_other, handle_msg_softkey_event,
}
use wazo_libsccp.Device.Transfer.{transfer-IsValid}

answer-IsValid : (id : ℕ) (d : Device) → IsValid d → IsValid (handle_softkey_answer id d)
unfolding handle_softkey_answer
answer-IsValid id d v = elim (Option-cases (sccp_lines_get_subchan id d)) [
  | inl e ↦ rw (handle_softkey_answer, e) v
  | inr (p, e) ↦
      rw (handle_softkey_answer, e)
        (do_answer_options-IsValid true p d v (found-mem _ d.heap d.subchans p e))
]

endcall-IsValid : (id : ℕ) (d : Device) → IsValid d → IsValid (handle_softkey_endcall id d)
unfolding handle_softkey_endcall
endcall-IsValid id d v = elim (Option-cases (sccp_lines_get_subchan id d)) [
  | inl e ↦ rw (handle_softkey_endcall, e) v
  | inr (p, e) ↦
      rw (handle_softkey_endcall, e) (do_hangup-IsValid p d v (found-mem _ d.heap d.subchans p e))
]

hold-IsValid : (d : Device) → IsValid d → IsValid (handle_softkey_hold d)
unfolding handle_softkey_hold
hold-IsValid d v = elim (Option-cases d.active_subchan) [
  | inl e ↦ rw (handle_softkey_hold, e) v
  | inr (a, e) ↦ rw (handle_softkey_hold, e) (do_hold-IsValid a d v)
]

resume-IsValid : (id : ℕ) (d : Device) → IsValid d → IsValid (handle_softkey_resume id d)
unfolding handle_softkey_resume resume_other
resume-IsValid id d v = elim (Option-cases (sccp_lines_get_subchan id d)) [
  | inl e ↦ rw (handle_softkey_resume, e) v
  | inr (p, e) ↦ elim (Bool-cases (is_ptr p d.active_subchan)) [
    | inl a ↦ rw (handle_softkey_resume, e, a) v
    | inr b ↦ rw (handle_softkey_resume, e, b) (other p (found-mem _ d.heap d.subchans p e))
  ]
]
  where
    other : (p : ℕ) → mem p d.subchans ≡ true → IsValid (resume_other p d)
    other p m = elim (Option-cases d.active_subchan) [
      | inl e ↦ rw (resume_other, e) (do_resume-IsValid p d v m)
      | inr (a, e) ↦ elim (Bool-cases (do_hold a d).0) [
        | inl ok ↦
            rw (resume_other, e, ok)
              (do_resume-IsValid p (do_hold a d).1 (do_hold-IsValid a d v)
                (ap (mem p) (hold_keeps_line a d) ∙ m))
        | inr bad ↦ rw (resume_other, e, bad) (do_hold-IsValid a d v)
      ]
    ]

pub set-SameLinks : (exten : List ℕ) (d : Device) → SameLinks d (set_callforward exten d)
unfolding set_callforward update_displaymessage
set-SameLinks exten d = record {
  subchans = refl;
  next_ptr = refl;
  active_subchan = refl;
  recv_chan_status = refl;
  related = λ x. refl;
}

cfwdall-IsValid : (d : Device) → IsValid d → IsValid (handle_softkey_cfwdall d)
unfolding handle_softkey_cfwdall cancel_callforward_input set_callforward_from_device_exten
    clear_callforward set_callforward update_displaymessage
cfwdall-IsValid d v = ground (arith, v)

bkspc-IsValid : (d : Device) → IsValid d → IsValid (handle_softkey_bkspc d)
unfolding handle_softkey_bkspc cancel_callforward_input
bkspc-IsValid d v = ground (arith, v)

dnd-IsValid : (d : Device) → IsValid d → IsValid (handle_softkey_dnd d)
unfolding handle_softkey_dnd update_displaymessage
dnd-IsValid d v = ground (arith, v)

pub newcall_to-IsValid :
    (setup : CallSetup) (exten : List ℕ) (d : Device)
    → IsValid d
    → IsValid (newcall_to setup exten d)
unfolding newcall_to
newcall_to-IsValid setup exten d v =
    let w = do_newcall_options-IsValid true d v in
    elim (Option-cases (do_newcall_options true d).0) [
      | inl e ↦ rw (newcall_to, e) w
      | inr (p, e) ↦
          rw (newcall_to, e)
            (start_the_call-IsValid setup p _ w (
              ap (λ o. mem_or_null o (do_newcall_options true d).1.subchans) (sym e)
              ∙ newcall-mem true d))
    ]

redial-IsValid :
    (setup : CallSetup) (d : Device) → IsValid d → IsValid (handle_softkey_redial setup d)
unfolding handle_softkey_redial
redial-IsValid setup d v = ground (arith, v, newcall_to-IsValid setup d.last_exten d v)

-- Any soft key keeps a valid device valid.
pub handle_msg_softkey_event-IsValid :
    (setup : CallSetup) (is_down : ℕ → Bool) (key : Softkey) (line call : ℕ) (d : Device)
    → IsValid d
    → IsValid (handle_msg_softkey_event setup is_down key line call d)
unfolding handle_msg_softkey_event handle_softkey_newcall
handle_msg_softkey_event-IsValid setup is_down softkey_redial line call d v =
    redial-IsValid setup d v
handle_msg_softkey_event-IsValid setup is_down softkey_newcall line call d v =
    do_newcall_options-IsValid true d v
handle_msg_softkey_event-IsValid setup is_down softkey_hold line call d v = hold-IsValid d v
handle_msg_softkey_event-IsValid setup is_down softkey_trnsfer line call d v =
    transfer-IsValid is_down line d v
handle_msg_softkey_event-IsValid setup is_down softkey_cfwdall line call d v = cfwdall-IsValid d v
handle_msg_softkey_event-IsValid setup is_down softkey_bkspc line call d v = bkspc-IsValid d v
handle_msg_softkey_event-IsValid setup is_down softkey_endcall line call d v =
    endcall-IsValid call d v
handle_msg_softkey_event-IsValid setup is_down softkey_resume line call d v =
    resume-IsValid call d v
handle_msg_softkey_event-IsValid setup is_down softkey_answer line call d v =
    answer-IsValid call d v
handle_msg_softkey_event-IsValid setup is_down softkey_dnd line call d v = dnd-IsValid d v
handle_msg_softkey_event-IsValid setup is_down softkey_other line call d v = v
