-- ===== src/Ambassador/Session/Notified.antt =====
-- Who is told of the end of an attachment.
use salus_telemetry_envoy.Common.{
  nat_eq, string_eq, texts_eq, Bool, true, false, arith, ◌≡◌, ◌⊎◌, refl, ◌≤◌, ◌<◌,
}
use salus_telemetry_envoy.Ambassador.Session.{
  attaches, watches, keeps_alive, Session, receiving, attach_session, Loop, selecting, cancelling,
  returned, take_error, notify, cancel, close, on_ready, Step, loop_error, loop_notify, loop_cancel,
  loop_done, watch_done, watch_receive, receive_ready, receive_other, receive_error,
  keep_alive_error, keep_alive_done, application_done, router_takes, Reach, here, next,
  err_chan_size, detach_chan_size,
}

abbrev is_cancelling : Loop → Bool
is_cancelling cancelling = true
is_cancelling _ = false

abbrev pub is_returned : Loop → Bool
is_returned returned = true
is_returned _ = false

pub record IsNotified (s : Session) : Type 0 where
  -- an attachment ends with the application, or after the router was told, if it can be
  pub told :
      (s.cancelled ≡ false) ⊎ (s.app_done ≡ true) ⊎ (0 < s.detaches) ⊎ (s.has_detach_chan ≡ false)
  pub before_cancel :
      (is_cancelling s.loop ≡ false) ⊎ (0 < s.detaches) ⊎ (s.has_detach_chan ≡ false)
  pub closed : (is_returned s.loop ≡ false) ⊎ (s.cancelled ≡ true)
  pub errors_bounded : s.errors ≤ err_chan_size
  pub pending_bounded : s.detach_pending ≤ detach_chan_size
  pub pending_sent : s.detach_pending ≤ s.detaches

Step-IsNotified : {s t : Session} → Step s t → IsNotified s → IsNotified t
unfolding take_error notify cancel close on_ready
Step-IsNotified (attaches (loop_error r e)) n = ground arith
Step-IsNotified (attaches (loop_notify r f)) n = ground arith
Step-IsNotified (attaches (loop_cancel r)) n = ground arith
Step-IsNotified (attaches (loop_done r c)) n = ground arith
Step-IsNotified (watches (watch_done w c)) n = ground arith
Step-IsNotified (watches (watch_receive w c)) n = ground arith
Step-IsNotified (watches (receive_ready w)) n = ground arith
Step-IsNotified (watches (receive_other w)) n = ground arith
Step-IsNotified (watches (receive_error w e)) n = ground arith
Step-IsNotified (keeps_alive (keep_alive_error k e)) n = ground arith
Step-IsNotified (keeps_alive (keep_alive_done k c)) n = ground arith
Step-IsNotified application_done n = ground arith
Step-IsNotified (router_takes p) n = ground arith

Reach-IsNotified : {s t : Session} → IsNotified s → Reach s t → IsNotified t
Reach-IsNotified n here = n
Reach-IsNotified n (next r st) = Step-IsNotified st (Reach-IsNotified n r)

-- However the goroutines of an attachment interleave: if attach has returned or is about to, then
-- the application ended or the router was sent a detach signal, where there is a channel for it;
-- and neither the error channel nor the detach channel ever holds more than its capacity.
pub session-IsNotified :
    (attached has_chan : Bool) (s : Session)
    → Reach (attach_session attached has_chan) s
    → IsNotified s
session-IsNotified attached has_chan s r = Reach-IsNotified (ground arith) r

-- While the watcher is in Recv of an attachment that was cancelled, attach may return first, and
-- a Ready that was on its way then marks the connection as attached with no attachment there.
pub attached_after_return :
    (s : Session)
    → s.loop ≡ selecting
    → s.cancelled ≡ true
    → s.watcher ≡ receiving
    → (t : Session) × Reach s t × (t.loop ≡ returned) × (t.attached ≡ true)
unfolding close on_ready
attached_after_return s r c w = (
  on_ready (close s),
  next (next here (attaches (loop_done r c))) (watches (receive_ready w)),
  refl,
  refl,
)
