-- ===== src/Libev/Service.antt =====
-- libev/demo1_echo_server.cpp: what becomes of a message.
use cpp_example.Common.{
  ℕ, ◌-◌, ◌<◌, ◌≡◌, refl, sym, ap, ◌∙◌, true, false, some, List, [], ◌∷◌, ◌++◌, length, replicate,
  contains, take, take-append_length, arith,
}
use cpp_example.Common.Outcome.{done, done_injective}
use cpp_example.Echo.Sys.{Got, got}
use cpp_example.Libev.Memory.{
  reads, writes, Watcher, IoBuf, a_watcher, an_io_buf, some_chars, Heap, store, watcher_at,
}
use cpp_example.Libev.Server.{Server, io_cb, read_client, write_client, rearm, buffer_size}
use cpp_example.Libev.Sound.{Owns, IsSound}
use cpp_example.Libev.Handlers.{
  read_client-IsSound, write_client-IsSound, message_read, held_written, watcher_lem,
}

-- The blocks of a watcher, read off the heap.
record Holds (h : Heap) (w : ℕ) (x : Watcher) (len : ℕ) (content : List ℕ) : Type 0 where
  buf : IoBuf
  at_watcher : h w ≡ some (a_watcher x)
  at_buf : h x.buf ≡ some (an_io_buf buf)
  at_chars : h buf.chars ≡ some (some_chars content)
  counts : buf.len ≡ len

received :
    (s : Server) (w : ℕ) (msg : List ℕ) (v : IsSound s) (there : contains w s.started ≡ true)
    → (v.owns w there).watcher.events ≡ reads
    → 0 < length msg
    → length msg < buffer_size
    → (s1 : Server) × (read_client w (v.owns w there).watcher (got msg) s ≡ done s1)
      × IsSound s1
      × Holds s1.heap w
          (record (v.owns w there).watcher { events = writes })
          (length msg)
          (msg ++ replicate (buffer_size - length msg) 0)
      × (contains w s1.started ≡ true)
      × (s1.written ≡ s.written)
unfolding rearm
received s w msg v there reading some_bytes fits =
    let (s1, e1, sound, _, _) = read_client-IsSound s w (got msg) v there fits reading in
    let same = done_injective (sym (message_read s w o msg reading some_bytes fits) ∙ e1) in
    (s1, e1, sound, rw (← same) held, rw (← same) (ground arith), rw (← same) refl)
  where
    o : Owns v.owner s.heap w
    o = v.owns w there

    content : List ℕ
    content = msg ++ replicate (buffer_size - length msg) 0

    heap1 : Heap
    heap1 =
        store o.watcher.buf (some (an_io_buf (record o.buf { len = length msg })))
          (store o.buf.chars (some (some_chars content)) s.heap)

    held :
        Holds
          (rearm w o.watcher writes (record s { heap = heap1 })).heap
          w
          (record o.watcher { events = writes })
          (length msg)
          content
    held = record {
      buf = record o.buf { len = length msg };
      at_watcher = ground arith;
      at_buf = ground (arith, o.at_watcher, o.at_buf);
      at_chars = ground (arith, o.at_watcher, o.at_buf, o.at_chars);
      counts = refl;
    }

sent :
    (s : Server) (w len : ℕ) (x : Watcher) (content : List ℕ)
    → IsSound s
    → contains w s.started ≡ true
    → Holds s.heap w x len content
    → x.events ≡ writes
    → (s2 : Server) × (write_client w x s ≡ done s2)
      × IsSound s2
      × (s2.written ≡ s.written ++ (x.fd, take len content) ∷ [])
      × (s2.heap w ≡ some (a_watcher (record x { events = reads })))
unfolding rearm
sent s w len x content v there h writing =
    let (s2, e2, sound, _, _) = write_client-IsSound s w v there (rw same_watcher writing) in
    let same = done_injective (sym (held_written s w o (rw same_watcher writing)) ∙ e2) in
    (
      s2,
      ap (λ y. write_client w y s) (sym same_watcher) ∙ e2,
      sound,
      rw (← same) (rw (same_watcher, same_len, same_content) refl),
      rw (← same) (rw same_watcher (ground arith)),
    )
  where
    o : Owns v.owner s.heap w
    o = v.owns w there

    same_watcher : o.watcher ≡ x
    same_watcher = let p = o.at_watcher in let q = h.at_watcher in cc

    same_buf : o.buf ≡ h.buf
    same_buf = let p = o.at_buf in let q = h.at_buf in let r = same_watcher in cc

    same_len : o.buf.len ≡ len
    same_len = ap (λ b. b.len) same_buf ∙ h.counts

    same_content : o.content ≡ content
    same_content = let p = o.at_chars in let q = h.at_chars in let r = same_buf in cc

watcher_found :
    (h : Heap) (w : ℕ) (x : Watcher) → h w ≡ some (a_watcher x) → watcher_at w h ≡ done x
unfolding watcher_at
watcher_found h w x e = rw (watcher_at, e) refl

-- A watcher that waits to read gets a message of fewer than 1024 bytes, and then may write: the
-- client is sent that message, whole, and the watcher waits to read again with a cleared buffer.
pub message_echoed :
    (s : Server) (w : ℕ) (msg : List ℕ) (reply : Got) (watcher : Watcher)
    → IsSound s
    → contains w s.started ≡ true
    → s.heap w ≡ some (a_watcher watcher)
    → watcher.events ≡ reads
    → 0 < length msg
    → length msg < buffer_size
    → (s1 s2 : Server) × (io_cb w (record { error = false; read = true; write = false }) (got msg) s
        ≡ done s1)
      × (io_cb w (record { error = false; read = false; write = true }) reply s1 ≡ done s2)
      × (s2.written ≡ s.written ++ (watcher.fd, msg) ∷ [])
      × (s2.heap w ≡ some (a_watcher watcher))
      × IsSound s2
unfolding io_cb rearm
message_echoed s w msg reply watcher v there at e some_bytes fits =
    let (s1, e1, sound1, holds, there1, written1) =
      received s w msg v there reading some_bytes fits in
    let (s2, e2, sound2, written2, at2) = sent s1 w _ _ _ sound1 there1 holds refl in
    (
      s1,
      s2,
      rw (watcher_lem s w o) e1,
      rw (watcher_found s1.heap w _ holds.at_watcher) e2,
      written2
          ∙ rw (same, written1, take-append_length msg (replicate (buffer_size - length msg) 0))
              refl,
      at2 ∙ ground (arith, same, e),
      sound2,
    )
  where
    o : Owns v.owner s.heap w
    o = v.owns w there

    same : o.watcher ≡ watcher
    same = let p = o.at_watcher in cc

    reading : o.watcher.events ≡ reads
    reading = rw same e
