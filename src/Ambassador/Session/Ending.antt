-- ===== src/Ambassador/Session/Ending.antt =====
-- An attachment with an error can come to its end.
use salus_telemetry_envoy.Common.{
  nat_eq, string_eq, texts_eq, if◌then◌else◌, ◌+◌, Bool, false, leb, arith, ◌≡◌, inl, inr, refl,
  ◌&&◌, ◌-◌, ◌≤◌, ◌<◌, Bool-cases,
}
use salus_telemetry_envoy.Ambassador.Session.{
  attaches, Session, selecting, notifying, returned, take_error, notify, cancel, close,
  attach_session, loop_error, loop_notify, loop_cancel, loop_done, router_takes, Reach, here, next,
  detach_chan_size,
}
use salus_telemetry_envoy.Ambassador.Session.Notified.{session-IsNotified}

Reach-trans : {s t u : Session} → Reach s t → Reach t u → Reach s u
Reach-trans r here = r
Reach-trans r (next q st) = next (Reach-trans r q) st

-- One signal more for the router, where there is a channel.
abbrev pub ToldOnce : Session → Session → Type 0
ToldOnce s t = t.detaches ≡ (if s.has_detach_chan then s.detaches + 1 else s.detaches)

-- attach has returned with the connection unattached, after one signal more for the router and
-- without an end of the application in between.
pub record HasEnded (s t : Session) : Type 0 where
  pub at_end : t.loop ≡ returned
  pub unattached : t.attached ≡ false
  pub same_application : t.app_done ≡ s.app_done
  pub told : ToldOnce s t

-- What attach does once the channel has room.
from_notifying :
    (s : Session)
    → s.loop ≡ notifying
    → (s.has_detach_chan && leb detach_chan_size s.detach_pending) ≡ false
    → (t : Session) × Reach s t × HasEnded s t
unfolding notify cancel close
from_notifying s l f = (
  close (cancel (notify s)),
  next (next (next here (attaches (loop_notify l f))) (attaches (loop_cancel refl)))
      (attaches (loop_done refl refl)),
  record { at_end = refl; unattached = refl; same_application = refl; told = refl },
)

-- Before it, the router may have a signal of its channel to take.
making_room :
    (s : Session)
    → s.loop ≡ notifying
    → s.detach_pending ≤ detach_chan_size
    → (t : Session) × Reach s t × HasEnded s t
making_room s l b = elim (Bool-cases (leb detach_chan_size s.detach_pending)) [
  | inr f ↦ from_notifying s l (ground arith)
  | inl f ↦
      let taken = record s { detach_pending = s.detach_pending - 1 } in
      let (t, r, e) = from_notifying taken l (ground arith) in
      (
        t,
        Reach-trans (next here (router_takes (ground arith))) r,
        record {
          at_end = e.at_end;
          unattached = e.unattached;
          same_application = e.same_application;
          told = e.told;
        },
      )
]

-- From every state of an attachment in which attach waits and an error is queued, it can come to
-- return with the connection unattached and one signal more sent to the router, if it has a
-- channel, without an end of the application in between.
pub attach_can_return :
    (attached has_chan : Bool) (s : Session)
    → Reach (attach_session attached has_chan) s
    → s.loop ≡ selecting
    → 0 < s.errors
    → (t : Session) × Reach s t × HasEnded s t
unfolding take_error
attach_can_return attached has_chan s r l e =
    let n = session-IsNotified attached has_chan s r in
    let (t, q, d) = making_room (take_error s) refl n.pending_bounded in
    (
      t,
      Reach-trans (next here (attaches (loop_error l e))) q,
      record {
        at_end = d.at_end;
        unattached = d.unattached;
        same_application = d.same_application;
        told = d.told;
      },
    )
