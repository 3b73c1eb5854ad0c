-- ===== src/Libev/Together.antt =====
-- libev/demo1_echo_client.cpp with demo1_echo_server.cpp: a line from the client and back.
use cpp_example.Common.{
  ℕ, ◌<◌, ◌≡◌, true, false, some, List, [], ◌∷◌, ◌++◌, length, contains, arith,
}
use cpp_example.Common.Outcome.{done}
use cpp_example.Echo.Sys.{Got, got, write, print}
use cpp_example.Libev.Memory.{Watcher, reads, a_watcher}
use cpp_example.Libev.Server.{Server, io_cb, buffer_size}
use cpp_example.Libev.Sound.{IsSound}
use cpp_example.Libev.Service.{message_echoed}
use cpp_example.Libev.Client.{Client, stdin_cb, conn_cb}
use cpp_example.Libev.Transcript.{IsClear}
use cpp_example.Libev.Passing.{pass_on_lem}

-- A line of fewer than 1024 bytes makes its way through both programs when each message is read in
-- one piece: the client writes it to the server; the server, whose watcher for this client waits to
-- read, reads it and then writes it back, whole, and waits to read again; the client prints it.
-- Both are then ready for the next line.
pub line_returned :
    (s : Server) (w : ℕ) (watcher : Watcher) (c : Client) (line : List ℕ) (reply : Got)
    → IsSound s
    → contains w s.started ≡ true
    → s.heap w ≡ some (a_watcher watcher)
    → watcher.events ≡ reads
    → IsClear c
    → 0 < length line
    → length line < buffer_size
    → (stdin_cb true (got line) c ≡ done (c, write c.connfd line ∷ []))
      × (s1 s2 : Server) × (io_cb w
            (record { error = false; read = true; write = false })
            (got line)
            s
          ≡ done s1)
      × (io_cb w (record { error = false; read = false; write = true }) reply s1 ≡ done s2)
      × (s2.written ≡ s.written ++ (watcher.fd, line) ∷ [])
      × (s2.heap w ≡ some (a_watcher watcher))
      × IsSound s2
      × (conn_cb true (got line) c ≡ done (c, print line ∷ []))
unfolding stdin_cb conn_cb
line_returned s w watcher c [] reply v there at e clear some_bytes fits = absurd (omega arith)
line_returned s w watcher c (b ∷ bs) reply v there at e clear some_bytes fits =
    let (s1, s2, read, written, sent, rearmed, sound) =
      message_echoed s w (b ∷ bs) reply watcher v there at e some_bytes fits in
    (
      pass_on_lem (write c.connfd) (b ∷ bs) c clear (omega (arith, fits)),
      s1,
      s2,
      read,
      written,
      sent,
      rearmed,
      sound,
      pass_on_lem print (b ∷ bs) c clear (omega (arith, fits)),
    )
