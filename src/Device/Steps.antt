-- ===== src/Device/Steps.antt =====
-- sccp_device.c: sequences of events of a device, from its phone, from Asterisk and from timers.
use wazo_libsccp.Common.{ℕ, ◌≡◌, Bool, true, List, Option}
use wazo_libsccp.Device.Types.{Device, connlost}
use wazo_libsccp.Device.Core.{sccp_device_unlock}
use wazo_libsccp.Device.Valid.{IsValid, mem}
use wazo_libsccp.Device.Same.{SameLinks-IsValid, unlock-IsValid}
use wazo_libsccp.Device.Start.{start_the_call-IsValid}
use wazo_libsccp.Device.Forward.{set_callforward_from_device_exten}
use wazo_libsccp.Device.Dial.{CallSetup}
use wazo_libsccp.Device.Keys.{set-SameLinks}
use wazo_libsccp.Device.Messages.{Outside, PhoneMsg, sccp_device_handle_msg}
use wazo_libsccp.Device.Events.{sccp_device_handle_msg-IsValid}
use wazo_libsccp.Device.Channel.{
  channel_tech_requester_locked, sccp_channel_tech_call, sccp_channel_tech_hangup,
  sccp_channel_tech_answer, on_dial_timeout, on_fwd_timeout, sccp_device_on_connection_lost,
}
use wazo_libsccp.Device.Requests.{
  AnswersActive, call-IsValid, hangup-IsValid, requester-IsValid, answer-IsValid,
}

-- One event of a device: a message of its phone, a request of Asterisk for a subchannel of its line,
-- a timer, or the loss of the connection. An answer is one that AnswersActive allows.
pub data Step : Device → Device → Type 0 where
  message : (w : Outside) (m : PhoneMsg) (d : Device) → Step d (sccp_device_handle_msg w m d)
  request :
      (auto : Bool) (framing : Option ℕ) (c : ℕ) (d : Device)
      → Step d (sccp_device_unlock (channel_tech_requester_locked auto framing c d).1)
  call :
      (number : List ℕ) (p : ℕ) (d : Device)
      → mem p d.subchans ≡ true
      → Step d (sccp_channel_tech_call number p d).1
  hangup : (p : ℕ) (d : Device) → mem p d.subchans ≡ true → Step d (sccp_channel_tech_hangup p d)
  answer : (p : ℕ) (d : Device) → AnswersActive p d → Step d (sccp_channel_tech_answer p d).1
  dial_timeout :
      (setup : CallSetup) (p : ℕ) (d : Device)
      → mem p d.subchans ≡ true
      → Step d (on_dial_timeout setup p d)
  fwd_timeout : (d : Device) → Step d (on_fwd_timeout d)
  connection_lost : (d : Device) → Step d (sccp_device_on_connection_lost d)

pub data Steps : Device → Device → Type 0 where
  stop : (d : Device) → Steps d d
  next : (d e f : Device) → Step d e → Steps e f → Steps d f

Step-IsValid : (d e : Device) → Step d e → IsValid d → IsValid e
unfolding on_dial_timeout on_fwd_timeout sccp_device_on_connection_lost
    set_callforward_from_device_exten
Step-IsValid _ _ (message w m d) v = sccp_device_handle_msg-IsValid w m d v
Step-IsValid _ _ (request auto framing c d) v =
    unlock-IsValid _ (requester-IsValid auto framing c d v)
Step-IsValid _ _ (call number p d m) v = call-IsValid number p d v m
Step-IsValid _ _ (hangup p d m) v = hangup-IsValid p d v m
Step-IsValid _ _ (answer p d c) v = answer-IsValid p d v c
Step-IsValid _ _ (dial_timeout setup p d m) v =
    unlock-IsValid _ (start_the_call-IsValid setup p d v m)
Step-IsValid _ _ (fwd_timeout d) v =
    unlock-IsValid (set_callforward_from_device_exten d)
      (SameLinks-IsValid (set-SameLinks d.exten d) v)
Step-IsValid _ _ (connection_lost d) v = unlock-IsValid (record d { device_state = connlost }) v

-- However messages, requests, timers and the loss of the connection follow one another, a device that
-- is valid at first is valid at the end: no pointer dangles, related subchannels point at each other,
-- and the receive channel is open only for an active subchannel. The conditions are those of Step:
-- requests and dial timers are for subchannels of the line, and an answer finds the media set up, the
-- receive channel open, or some subchannel active.
pub Steps-IsValid : (d e : Device) → Steps d e → IsValid d → IsValid e
Steps-IsValid _ _ (stop d) v = v
Steps-IsValid _ _ (next d e f s ss) v = Steps-IsValid e f ss (Step-IsValid d e s v)
