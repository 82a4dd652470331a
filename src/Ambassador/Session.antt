-- ===== src/Ambassador/Session.antt =====
-- ambassador/connection.go: one attachment, from AttachEnvoy's success to the end of attach. The
-- loop of attach, watchForInstructions and each sendKeepAlives are goroutines, and a step is what
-- one of them does between two points where another may run.
pub mod Notified
pub mod Ending
use salus_telemetry_envoy.Common.{
  if◌then◌else◌, Bool, true, false, leb, ◌≡◌, ◌&&◌, ℕ, ◌+◌, ◌-◌, ◌<◌,
}

-- watchForInstructions: before its test of the context, in Recv, or ended.
pub data Watcher : Type 0 where
  testing receiving ended : Watcher

-- attach's loop: in its select, before the signal to detachChan, before cancelFunc, or returned.
pub data Loop : Type 0 where
  selecting notifying cancelling returned : Loop

pub record Session : Type 0 where
  -- c.attached, which the ingestors read
  pub attached : Bool
  -- connCtx is done; the context of the application is done
  pub cancelled : Bool
  pub app_done : Bool
  -- errors queued in errChan, of capacity 10
  pub errors : ℕ
  -- whether there is a detachChan, signals in it (capacity 1), and signals sent in all
  pub has_detach_chan : Bool
  pub detach_pending : ℕ
  pub detaches : ℕ
  pub watcher : Watcher
  -- running sendKeepAlives goroutines
  pub keepers : ℕ
  pub loop : Loop

abbrev pub err_chan_size : ℕ
err_chan_size = 10

abbrev pub detach_chan_size : ℕ
detach_chan_size = 1

-- The session right after "go c.watchForInstructions".
abbrev pub attach_session : Bool → Bool → Session
attach_session attached has_chan = record {
  attached = attached;
  cancelled = false;
  app_done = false;
  errors = 0;
  has_detach_chan = has_chan;
  detach_pending = 0;
  detaches = 0;
  watcher = testing;
  keepers = 0;
  loop = selecting;
}

-- attach's select takes an error.
unfoldable pub take_error : Session → Session
take_error s = record s { attached = false; errors = s.errors - 1; loop = notifying }

-- The listeners are told, where there is a channel.
unfoldable pub notify : Session → Session
notify s = record s {
  detach_pending = if s.has_detach_chan then s.detach_pending + 1 else s.detach_pending;
  detaches = if s.has_detach_chan then s.detaches + 1 else s.detaches;
  loop = cancelling;
}

-- cancelFunc
unfoldable pub cancel : Session → Session
cancel s = record s { cancelled = true; loop = selecting }

-- attach's select takes the context's end; attach returns the error "closed".
unfoldable pub close : Session → Session
close s = record s { attached = false; loop = returned }

-- The state after Recv gave the instruction Ready.
unfoldable pub on_ready : Session → Session
on_ready s = record s { attached = true; keepers = s.keepers + 1; watcher = testing }

-- attach's select; Go chooses freely where both cases are ready.
pub data AttachLoop (s : Session) : Session → Type 0 where
  loop_error : s.loop ≡ selecting → 0 < s.errors → AttachLoop s (take_error s)
  loop_notify :
      s.loop ≡ notifying
      → (s.has_detach_chan && leb detach_chan_size s.detach_pending) ≡ false
      → AttachLoop s (notify s)
  loop_cancel : s.loop ≡ cancelling → AttachLoop s (cancel s)
  loop_done : s.loop ≡ selecting → s.cancelled ≡ true → AttachLoop s (close s)

pub data WatchForInstructions (s : Session) : Session → Type 0 where
  watch_done :
      s.watcher ≡ testing
      → s.cancelled ≡ true
      → WatchForInstructions s (record s { watcher = ended })
  watch_receive :
      s.watcher ≡ testing
      → s.cancelled ≡ false
      → WatchForInstructions s (record s { watcher = receiving })
  receive_ready : s.watcher ≡ receiving → WatchForInstructions s (on_ready s)
  receive_other : s.watcher ≡ receiving → WatchForInstructions s (record s { watcher = testing })
  receive_error :
      s.watcher ≡ receiving
      → s.errors < err_chan_size
      → WatchForInstructions s (record s { errors = s.errors + 1; watcher = ended })

pub data SendKeepAlives (s : Session) : Session → Type 0 where
  keep_alive_error :
      0 < s.keepers
      → s.errors < err_chan_size
      → SendKeepAlives s (record s { errors = s.errors + 1; keepers = s.keepers - 1 })
  keep_alive_done :
      0 < s.keepers → s.cancelled ≡ true → SendKeepAlives s (record s { keepers = s.keepers - 1 })

pub data Step (s : Session) : Session → Type 0 where
  attaches : {t : Session} → AttachLoop s t → Step s t
  watches : {t : Session} → WatchForInstructions s t → Step s t
  keeps_alive : {t : Session} → SendKeepAlives s t → Step s t
  -- the application's context ends, and the router takes a signal
  application_done : Step s (record s { app_done = true; cancelled = true })
  router_takes : 0 < s.detach_pending → Step s (record s { detach_pending = s.detach_pending - 1 })

pub data Reach (s : Session) : Session → Type 0 where
  here : Reach s s
  next : {t u : Session} → Reach s t → Step t u → Reach s u
