-- ===== src/Session.antt =====
-- sccp_session.c: the session of one connection, with what other threads and its device may ask of
-- it. The parameter `Env` is what a session calls: the operating system and Asterisk, the
-- configuration's lookups (sccp_config.c), and the entry points of a device (sccp_device.c), which
-- answer with the calls that they make back into the session. A pointer to a configuration or a
-- device is a number. The session's memory and its thread's steps are one record, `World`, with
-- the registry and the reference counts of configurations, which it shares.
pub mod Keeps
pub mod Handle
pub mod Loop
pub mod Moves
pub mod Sock
pub mod Refs
pub mod Devices
pub mod Life
pub mod Outcome
pub mod Stops
mod Tests
use wazo_libsccp.Common.{
  ℕ, suc, ◌+◌, ◌-◌, ◌≡◌, ◌==◌, Bool, true, false, ◌&&◌, ◌||◌, List, [], ◌∷◌, ◌++◌, Option, none,
  some, if◌then◌else◌, ℤ, pos, negsuc, take, drop, length,
}
use wazo_libsccp.Queue.{Ret, done, failed}
use wazo_libsccp.Queue.Sync.{EventFd, SyncQueue, IoResult, io_failed, moved, sync_put, close}
use wazo_libsccp.Deserializer.{Deserializer, load32, total_len}
use wazo_libsccp.Task.{Task, Heap, Runner, runner_add, runner_remove}
use wazo_libsccp.Registry.{Objects, Container, Registry}

-- The calls of a device into its session.
pub data Call : Type 0 where
  -- sccp_session_transmit_msg, with the message's bytes.
  transmit : List ℕ → Call
  -- sccp_session_add_device_task and sccp_session_remove_device_task.
  add_task : ℕ → ℕ → ℤ → Call
  remove_task : ℕ → ℕ → Call
  -- sccp_session_stop
  stop_session : Call

pub record Info : Type 0 where
  pub name : List ℕ
  pub type_code : ℕ
  pub proto_version : ℕ

-- The entry points of devices, on a state `S` that holds all devices.
pub record DeviceApi : Type 1 where
  pub S : Type 0
  pub create : S → ℕ → Info → Option ℕ × S
  pub destroy : S → ℕ → List Call × S
  pub on_registration_success : S → ℕ → List Call × S
  pub on_data_read : S → ℕ → List Call × S
  pub on_connection_lost : S → ℕ → List Call × S
  -- The Boolean is true for a result other than 0.
  pub handle_msg : S → ℕ → List ℕ → Bool × List Call × S
  pub reload_config : S → ℕ → ℕ → Bool × List Call × S
  -- A `sccp_device_task_cb` with its data.
  pub timeout : S → ℕ → ℕ → ℕ → List Call × S

-- The system calls of a session, on a state `S`.
pub record System : Type 1 where
  pub S : Type 0
  pub write : S → List ℕ → IoResult × S
  pub allocated : S → Bool × S
  pub now : S → ℕ × S

pub record Env : Type 1 where
  pub objects : Objects
  pub devices : Container objects.device_name
  pub lines : Container objects.line_name
  pub eventfd : EventFd
  pub heap : Heap
  pub api : DeviceApi
  pub system : System
  -- sccp_cfg_find_device_or_guest, sccp_debug_enabled, general_cfg->authtimeout
  pub find_device_or_guest : ℕ → List ℕ → Option ℕ
  pub debug_enabled : Option (List ℕ) → Bool
  pub authtimeout : ℕ → ℤ

pub data SessionMsg : Type 0 where
  noop reload_debug : SessionMsg
  reload_config : ℕ → SessionMsg

module _ (V : Env) where
  -- The runner compares two machine words of data: `data_size` counts words.
  pub record World : Type 0 where
    pub deserializer : Deserializer
    pub stop : Bool
    pub debug : Bool
    pub cfg : ℕ
    pub sync_q : SyncQueue V.eventfd.Fd SessionMsg
    pub task_runner : Runner V.heap.H
    pub device : Option ℕ
    -- Shared with the other threads.
    pub registry : Registry V.devices.C V.lines.C
    pub refs : ℕ → ℕ
    pub all_devices : V.api.S
    pub system : V.system.S
    -- The devices that were destroyed and whose reference was then given up, newest first.
    pub released : List ℕ

-- `ao2_ref(cfg, +1)` and `ao2_ref(cfg, -1)`
abbrev pub ref : ℕ → (ℕ → ℕ) → ℕ → ℕ
ref c refs x = if x == c then suc (refs x) else refs x

abbrev pub unref : ℕ → (ℕ → ℕ) → ℕ → ℕ
unref c refs x = if x == c then refs x - 1 else refs x

unfoldable pub session_msg_destroy : SessionMsg → (ℕ → ℕ) → ℕ → ℕ
session_msg_destroy (reload_config cfg) refs = unref cfg refs
session_msg_destroy noop refs = refs
session_msg_destroy reload_debug refs = refs

-- The result of `sccp_session_stop` by that of the queue: true for 0 and false for -1.
abbrev pub stop_result : Ret → Bool
stop_result failed = false
stop_result _ = true

-- The callbacks of the task runner, and a zeroed `union session_task_data`.
abbrev pub on_auth_timeout : ℕ
on_auth_timeout = 0

abbrev pub on_device_task_timeout : ℕ
on_device_task_timeout = 1

abbrev pub session_task_zero : List ℕ
session_task_zero = 0 ∷ 0 ∷ []

module _ {V : Env} where
  -- The answer of the queue, the world with the queue that it left, and the message if it is lost.
  unfoldable pub queued :
      World V → SessionMsg → Ret × SyncQueue V.eventfd.Fd SessionMsg → Ret × World V
  unfolding session_msg_destroy
  queued w msg (done, q) = (done, record w { sync_q = q })
  queued w msg (r, q) = (r, record w { sync_q = q; refs = session_msg_destroy msg w.refs })

  unfoldable pub sccp_session_queue_msg : World V → SessionMsg → Ret × World V
  unfolding queued
  sccp_session_queue_msg w msg =
      let (allocated, s) = V.system.allocated w.system in
      queued (record w { system = s }) msg (sync_put V.eventfd allocated w.sync_q msg)

  unfoldable pub sccp_session_stop : World V → Bool × World V
  sccp_session_stop w =
      let (r, w') = sccp_session_queue_msg (record w { stop = true }) noop in (stop_result r, w')

  -- Without a configuration, -1.
  unfoldable pub sccp_session_reload_config : World V → Option ℕ → Ret × World V
  sccp_session_reload_config w none = (failed, w)
  sccp_session_reload_config w (some cfg) =
      sccp_session_queue_msg (record w { refs = ref cfg w.refs }) (reload_config cfg)

  unfoldable pub sccp_session_reload_debug : World V → Ret × World V
  sccp_session_reload_debug w = sccp_session_queue_msg w reload_debug

  unfoldable pub session_add_task : World V → ℕ → List ℕ → ℤ → Bool × World V
  session_add_task w callback bytes sec =
      let (allocated, s) = V.system.allocated w.system in
      let (now, s') = V.system.now s in
      let (ok, runner) = runner_add V.heap allocated now w.task_runner callback bytes sec in
      (ok, record w { system = s'; task_runner = runner })

  unfoldable pub add_auth_timeout_task : World V → Bool × World V
  unfolding session_add_task
  add_auth_timeout_task w =
      session_add_task w on_auth_timeout session_task_zero (V.authtimeout w.cfg)

  unfoldable pub remove_auth_timeout_task : World V → World V
  remove_auth_timeout_task w = record w {
    task_runner = runner_remove V.heap w.task_runner on_auth_timeout session_task_zero;
  }

  unfoldable pub sccp_session_add_device_task : World V → ℕ → ℕ → ℤ → Bool × World V
  unfolding session_add_task
  sccp_session_add_device_task w callback arg sec =
      session_add_task w on_device_task_timeout (callback ∷ arg ∷ []) sec

  unfoldable pub sccp_session_remove_device_task : World V → ℕ → ℕ → World V
  sccp_session_remove_device_task w callback arg = record w {
    task_runner = runner_remove V.heap w.task_runner on_device_task_timeout (callback ∷ arg ∷ []);
  }

  -- The message's own length says how many bytes are written.
  unfoldable pub sccp_session_transmit_msg : World V → List ℕ → Bool × World V
  sccp_session_transmit_msg w msg =
      let count = total_len (load32 msg) in
      let (n, s) = V.system.write w.system (take count msg) in
      let w' = record w { system = s } in
      elim n [
        | moved m ↦ if m == count then (true, w') else (false, record w' { stop = true })
        | io_failed ↦ (false, record w' { stop = true })
      ]

  unfoldable pub session_call : World V → Call → World V
  session_call w (transmit msg) = (sccp_session_transmit_msg w msg).1
  session_call w (add_task callback arg sec) = (sccp_session_add_device_task w callback arg sec).1
  session_call w (remove_task callback arg) = sccp_session_remove_device_task w callback arg
  session_call w stop_session = (sccp_session_stop w).1

  unfoldable pub session_calls : World V → List Call → World V
  unfolding session_call
  session_calls w [] = w
  session_calls w (c ∷ cs) = session_calls (session_call w c) cs
