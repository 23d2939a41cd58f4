-- ===== src/Device/Core.antt =====
-- sccp_device.c: subchannels in memory, tasks for the time without the lock, the panic, and what the
-- device sends.
use wazo_libsccp.Common.{
  ℕ, suc, ◌+◌, ◌%◌, ◌^◌, ◌==◌, Bool, true, false, List, [], ◌∷◌, if◌then◌else◌,
}
use wazo_libsccp.Queue.{done, put, move_to, is_empty_queue}
use wazo_libsccp.Device.Types.{
  Device, Subchan, Effect, sends, session_stop, stat_fault, stat_panic, channel_ref, channel_unref,
  executes, NolockTask, transfer_attended, queue_answer, queue_hangup, queue_hold, queue_unhold,
  pickup_channel, start_channel, queue_dtmf, Msg, callstate, selectsoftkeys, tone, stop_tone,
  close_receive_channel, open_receive_channel, reset, CallState, Keydef, Tone, hard_restart, soft,
  working, connlost, recv_closed, recv_opening, DeviceState, RecvStatus, offhook, onhook, ringout,
  ringin, connected, busy, congestion, hold, callwait, transfer, park, progress, invalid,
}

-- Steps one after the other.
infixl 10 ◌▷◌
abbrev pub ◌▷◌ {ℓ κ} : {A : Type ℓ} {B : Type κ} → A → (A → B) → B
a ▷ f = f a

abbrev pub emit : Effect → Device → Device
emit e d = record d { out = e ∷ d.out }

abbrev pub send : Msg → Device → Device
send m = emit (sends m)

-- An assignment to the subchannel at `p`.
abbrev pub modify : ℕ → (Subchan → Subchan) → Device → Device
modify p f d = record d { heap = λ q. if q == p then f (d.heap q) else d.heap q }

-- `uint32_t` increment.
abbrev pub next_u32 : ℕ → ℕ
next_u32 n = (n + 1) % 2 ^ 32

-- The values of `enum sccp_state`.
abbrev pub state_code : CallState → ℕ
state_code offhook = 1
state_code onhook = 2
state_code ringout = 3
state_code ringin = 4
state_code connected = 5
state_code busy = 6
state_code congestion = 7
state_code hold = 8
state_code callwait = 9
state_code transfer = 10
state_code park = 11
state_code progress = 12
state_code invalid = 14

abbrev pub is_state : CallState → CallState → Bool
is_state a b = state_code a == state_code b

abbrev pub is_working : DeviceState → Bool
is_working working = true
is_working _ = false

abbrev pub is_recv_closed : RecvStatus → Bool
is_recv_closed recv_closed = true
is_recv_closed _ = false

-- The session gets a message that wakes it, and its stop flag is set.
unfoldable pub sccp_device_panic : Device → Device
sccp_device_panic d =
    let e = d ▷ emit stat_panic ▷ emit session_stop in
    if is_working d.device_state
    then record (send (reset hard_restart) e) { device_state = connlost }
    else e

-- `sccp_queue_put` allocates a container.
unfoldable pub add_nolock_task : NolockTask → Device → Bool × Device
unfolding put sccp_device_panic
add_nolock_task t d =
    let (r, q) = put (d.mem 0) d.nolock_tasks t in
    let e = record d { nolock_tasks = q; mem = λ k. d.mem (suc k) } in
    elim r [ done ↦ (true, e) | _ ↦ (false, sccp_device_panic e) ]

-- The channels that a task holds a reference to.
abbrev pub channels : NolockTask → List ℕ
channels (transfer_attended a b) = a ∷ b ∷ []
channels (queue_answer c) = c ∷ []
channels (queue_hangup c) = c ∷ []
channels (queue_hold c) = c ∷ []
channels (queue_unhold c) = c ∷ []
channels (pickup_channel c) = c ∷ []
channels (start_channel c) = c ∷ []
channels (queue_dtmf c digit) = c ∷ []

unfoldable pub emit_all : List Effect → Device → Device
emit_all [] d = d
emit_all (e ∷ es) d = emit_all es (emit e d)

unfoldable pub refs : List ℕ → List Effect
refs [] = []
refs (c ∷ cs) = channel_ref c ∷ refs cs

unfoldable pub unrefs : List ℕ → List Effect
unrefs [] = []
unrefs (c ∷ cs) = channel_unref c ∷ unrefs cs

-- The add_ast_*_task, add_pickup_channel_task and add_start_channel_task functions: the task, and if
-- it was queued a reference to each channel that it names.
unfoldable pub add_task : NolockTask → Device → Bool × Device
unfolding add_nolock_task emit_all refs
add_task t d =
    let (ok, e) = add_nolock_task t d in
    if ok then (true, emit_all (refs (channels t)) e) else (false, e)

-- The exec_* functions: what a task does, and the references that it gives back.
unfoldable pub exec_task : NolockTask → Device → Device
unfolding emit_all unrefs
exec_task t d = emit_all (unrefs (channels t)) (emit (executes t) d)

-- `while (!sccp_queue_get(tasks, &task))`, over the items of the local queue.
unfoldable pub exec_nolock_tasks : List NolockTask → Device → Device
exec_nolock_tasks [] d = d
exec_nolock_tasks (t ∷ ts) d = exec_nolock_tasks ts (exec_task t d)

-- Unlocking: the queued tasks are moved out and executed without the lock, the oldest first. No other
-- thread runs in between.
unfoldable pub sccp_device_unlock : Device → Device
unfolding is_empty_queue move_to exec_nolock_tasks exec_task
sccp_device_unlock d =
    if is_empty_queue d.nolock_tasks
    then d
    else (let (tasks, q) = move_to (record { containers = []; item_size = 0 }) d.nolock_tasks in
        exec_nolock_tasks tasks.containers (record d { nolock_tasks = q }))

unfoldable pub sccp_device_set_fault : Device → Device
sccp_device_set_fault d = record d { fault = true; out = stat_fault ∷ d.out }

unfoldable pub sccp_device_on_idle : Device → Device
sccp_device_on_idle d =
    if d.fault
    then send (reset hard_restart) d
    else if d.reset_on_idle
    then send (reset soft) d
    else d

abbrev pub transmit_subchan_callstate : ℕ → CallState → Device → Device
transmit_subchan_callstate p s d = send (callstate s d.cfg.line_instance (d.heap p).id) d

abbrev pub transmit_subchan_selectsoftkeys : ℕ → Keydef → Device → Device
transmit_subchan_selectsoftkeys p k d = send (selectsoftkeys d.cfg.line_instance (d.heap p).id k) d

abbrev pub transmit_subchan_tone : ℕ → Tone → Device → Device
transmit_subchan_tone p t d = send (tone t d.cfg.line_instance (d.heap p).id) d

abbrev pub transmit_subchan_stop_tone : ℕ → Device → Device
transmit_subchan_stop_tone p d = send (stop_tone d.cfg.line_instance (d.heap p).id) d

abbrev pub transmit_close_receive_channel : ℕ → Device → Device
transmit_close_receive_channel id d =
    send (close_receive_channel id) (record d { recv_chan_status = recv_closed })

unfoldable pub transmit_subchan_open_receive_channel : ℕ → Device → Device
transmit_subchan_open_receive_channel p d =
    if is_recv_closed d.recv_chan_status
    then send (open_receive_channel (d.heap p).id (d.heap p).framing)
        (record d { recv_chan_status = recv_opening })
    else d
