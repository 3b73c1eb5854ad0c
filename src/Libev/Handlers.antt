-- ===== src/Libev/Handlers.antt =====
-- libev/demo1_echo_server.cpp: the branches of io_cb for reading and writing.
use cpp_example.Common.{
  ℕ, ◌-◌, ◌<◌, ◌≡◌, refl, true, some, List, [], ◌∷◌, ◌++◌, length, length-append, replicate,
  length-replicate, contains, take, lt→ltb, arith,
}
use cpp_example.Common.Outcome.{done}
use cpp_example.Common.Buffers.{read_at-take, write_at-replicate, printed_string-replicate}
use cpp_example.Echo.Sys.{Errno, Got, got, failed}
use cpp_example.Libev.Memory
use cpp_example.Libev.Memory.{
  Interest, reads, writes, Watcher, IoBuf, a_watcher, an_io_buf, some_chars, watcher_at, io_buf_at,
  chars_at,
}
use cpp_example.Libev.Server.{Server, read_client, write_client, rearm, drop_client, buffer_size}
use cpp_example.Libev.Sound.{Owns, IsSound, rearm-IsSound, drop_client-IsSound}

-- A message that leaves room for a zero behind it.
abbrev pub Fits : Got → Type 0
Fits (got msg) = length msg < buffer_size
Fits (failed e) = Unit {0}

module _ {owner : ℕ → ℕ} (s : Server) (w : ℕ) (o : Owns owner s.heap w) where
  pub watcher_lem : watcher_at w s.heap ≡ done o.watcher
  unfolding watcher_at
  watcher_lem = rw (watcher_at, o.at_watcher) refl

  buf_lem : io_buf_at o.watcher.buf s.heap ≡ done o.buf
  unfolding io_buf_at
  buf_lem = rw (io_buf_at, o.at_buf) refl

  chars_lem : chars_at o.buf.chars s.heap ≡ done o.content
  unfolding chars_at
  chars_lem = rw (chars_at, o.at_chars) refl

  -- The end of a read of a message.
  pub message_read :
      (msg : List ℕ)
      → o.watcher.events ≡ reads
      → 0 < length msg
      → length msg < buffer_size
      → read_client w o.watcher (got msg) s
        ≡ done (
            rearm w o.watcher writes (record s {
              heap =
                  Memory.store o.watcher.buf
                    (some (an_io_buf (record o.buf { len = length msg })))
                    (Memory.store o.buf.chars
                      (some (some_chars (msg ++ replicate (buffer_size - length msg) 0)))
                      s.heap);
            }))
  unfolding read_client
  message_read [] e some_bytes fits = absurd (omega arith)
  message_read (c ∷ cs) e some_bytes fits =
      let (line, p) = printed_string-replicate buffer_size (c ∷ cs) fits in
      rw buf_lem (
        rw chars_lem (
          rw (o.clean e)
            (rw (write_at-replicate buffer_size (c ∷ cs) (omega (arith, fits))) (rw p refl))))

  -- The write of what a watcher holds: the first `len` chars.
  pub held_written :
      o.watcher.events ≡ writes
      → write_client w o.watcher s
        ≡ done (
            rearm w o.watcher reads (record s {
              heap =
                  Memory.store o.watcher.buf
                    (some (an_io_buf (record o.buf { len = 0 })))
                    (Memory.store o.buf.chars (some (some_chars (replicate buffer_size 0))) s.heap);
              written = s.written ++ (o.watcher.fd, take o.buf.len o.content) ∷ [];
            }))
  unfolding write_client
  held_written e = rw buf_lem (
      rw (lt→ltb 0 o.buf.len (o.pending e)) (
        rw chars_lem
          (rw (read_at-take o.content o.buf.len (omega (arith, o.within, o.size))) refl)))

  read_failed : (e : Errno) → read_client w o.watcher (failed e) s ≡ done s
  unfolding read_client
  read_failed e = rw buf_lem (rw chars_lem refl)

  read_ended : read_client w o.watcher (got []) s ≡ done (drop_client w o.watcher o.buf s)
  unfolding read_client
  read_ended = rw buf_lem (rw chars_lem refl)

size_lem :
    (msg : List ℕ)
    → length msg < buffer_size
    → length (msg ++ replicate (buffer_size - length msg) 0) ≡ buffer_size
size_lem msg h = omega (
  arith,
  h,
  length-append msg (replicate (buffer_size - length msg) 0),
  length-replicate {A = ℕ} (buffer_size - length msg) 0,
)

pub read_client-IsSound :
    (s : Server) (w : ℕ) (reply : Got) (v : IsSound s) (there : contains w s.started ≡ true)
    → Fits reply
    → (v.owns w there).watcher.events ≡ reads
    → (s' : Server) × (read_client w (v.owns w there).watcher reply s ≡ done s')
      × IsSound s'
      × (s'.sockets ≡ s.sockets)
      × (s'.stopped ≡ s.stopped)
unfolding rearm drop_client
read_client-IsSound s w (failed x) v there fits e =
    (s, read_failed s w (v.owns w there) x, v, refl, refl)
read_client-IsSound s w (got []) v there fits e =
    let o = v.owns w there in
    (
      drop_client w o.watcher o.buf s,
      read_ended s w o,
      drop_client-IsSound s w v o there,
      refl,
      refl,
    )
read_client-IsSound s w (got (c ∷ cs)) v there fits e =
    let o = v.owns w there in
    let msg : List ℕ = c ∷ cs in
    (
      _,
      message_read s w o msg e (omega arith) fits,
      rearm-IsSound s w writes (length msg) (msg ++ replicate (buffer_size - length msg) 0)
          s.written v o there (size_lem msg fits) (omega (arith, fits)) (λ q. cc)
          (λ q. omega arith),
      refl,
      refl,
    )

pub write_client-IsSound :
    (s : Server) (w : ℕ) (v : IsSound s) (there : contains w s.started ≡ true)
    → (v.owns w there).watcher.events ≡ writes
    → (s' : Server) × (write_client w (v.owns w there).watcher s ≡ done s')
      × IsSound s'
      × (s'.sockets ≡ s.sockets)
      × (s'.stopped ≡ s.stopped)
unfolding rearm
write_client-IsSound s w v there e =
    let o = v.owns w there in
    (
      _,
      held_written s w o e,
      rearm-IsSound s w reads 0 (replicate buffer_size 0)
          (s.written ++ (o.watcher.fd, take o.buf.len o.content) ∷ []) v o there
          (length-replicate {A = ℕ} buffer_size 0) (omega arith) (λ q. refl) (λ q. cc),
      refl,
      refl,
    )
