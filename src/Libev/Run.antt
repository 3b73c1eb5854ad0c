-- ===== src/Libev/Run.antt =====
-- libev/demo1_echo_server.cpp: the callbacks in any order that the event loop calls them in.
use cpp_example.Common.{
  ℕ, List, ◌∷◌, if◌then◌else◌, ◌≡◌, refl, sym, ◌∙◌, Bool, true, false, some, contains,
}
use cpp_example.Common.Outcome.{done, done_injective}
use cpp_example.Echo.Sys.{Got}
use cpp_example.Libev.Memory.{reads, writes, Watcher, a_watcher}
use cpp_example.Libev.Server.{Server, AcceptReplies, accept_cb, Revents, io_cb, stop_on_error}
use cpp_example.Libev.Sound.{Owns, IsSound, stop_on_error-IsSound}
use cpp_example.Libev.Accept.{IsFresh, accept_cb-IsSound}
use cpp_example.Libev.Handlers.{Fits, watcher_lem, read_client-IsSound, write_client-IsSound}

-- The loop reports an event that the watcher waits for.
pub record IsDelivered (s : Server) (w : ℕ) (revents : Revents) : Type 0 where
  pub reading :
      (x : Watcher) → s.heap w ≡ some (a_watcher x) → revents.read ≡ true → x.events ≡ reads
  pub writing :
      (x : Watcher) → s.heap w ≡ some (a_watcher x) → revents.write ≡ true → x.events ≡ writes

-- The watchers that are stopped on an error, after an event.
abbrev pub stopped_after : ℕ → Revents → Server → List ℕ
stopped_after w revents s = if revents.error then w ∷ s.stopped else s.stopped

-- One event of a started watcher: the handler ends with a sound server, and closes no socket.
pub io_cb-IsSound :
    (s : Server) (w : ℕ) (revents : Revents) (reply : Got)
    → IsSound s
    → contains w s.started ≡ true
    → IsDelivered s w revents
    → Fits reply
    → (s' : Server) × (io_cb w revents reply s ≡ done s')
      × IsSound s'
      × (s'.sockets ≡ s.sockets)
      × (s'.stopped ≡ stopped_after w revents s)
unfolding io_cb stop_on_error
io_cb-IsSound s w revents reply v there d fits =
    by_bits revents.error revents.read revents.write refl refl
  where
    o : Owns v.owner s.heap w
    o = v.owns w there

    by_bits :
        (error read write : Bool)
        → revents.read ≡ read
        → revents.write ≡ write
        → (s' : Server) × (io_cb w (record { error = error; read = read; write = write }) reply s
            ≡ done s')
          × IsSound s'
          × (s'.sockets ≡ s.sockets)
          × (s'.stopped ≡ (if error then w ∷ s.stopped else s.stopped))
    by_bits true read write er ew =
        (stop_on_error w s, refl, stop_on_error-IsSound s w v there, refl, refl)
    by_bits false true write er ew =
        let (s', e, sound, open_still, no_more) =
          read_client-IsSound s w reply v there fits (d.reading o.watcher o.at_watcher er) in
        (s', rw (watcher_lem s w o) e, sound, open_still, no_more)
    by_bits false false true er ew =
        let (s', e, sound, open_still, no_more) =
          write_client-IsSound s w v there (d.writing o.watcher o.at_watcher ew) in
        (s', rw (watcher_lem s w o) e, sound, open_still, no_more)
    by_bits false false false er ew = (s, rw (watcher_lem s w o) refl, v, refl, refl)

-- A callback on the loop: of the listening socket, or of a started watcher.
pub data Step (s : Server) : Server → Type 0 where
  accepts :
      (r : AcceptReplies) {s' : Server} → IsFresh r s.heap → accept_cb r s ≡ done s' → Step s s'
  io :
      (w : ℕ) (revents : Revents) (reply : Got) {s' : Server}
      → contains w s.started ≡ true
      → IsDelivered s w revents
      → Fits reply
      → io_cb w revents reply s ≡ done s'
      → Step s s'

pub data Reach (s : Server) : Server → Type 0 where
  here : Reach s s
  then_step : {t u : Server} → Reach s t → Step t u → Reach s u

pub Reach-IsSound : {s t : Server} → Reach s t → IsSound s → IsSound t
Reach-IsSound here v = v
Reach-IsSound (then_step {t} r (accepts a fresh e)) v =
    accept_cb-IsSound a t _ fresh (Reach-IsSound r v) e
Reach-IsSound (then_step {t} r (io w revents reply there d fits e)) v =
    let (s', e', sound, _, _) = io_cb-IsSound t w revents reply (Reach-IsSound r v) there d fits in
    rw (done_injective (sym e' ∙ e)) at sound
