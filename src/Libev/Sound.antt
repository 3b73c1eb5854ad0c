-- ===== src/Libev/Sound.antt =====
-- libev/demo1_echo_server.cpp: each started watcher owns its blocks.
use cpp_example.Common.{
  ℕ, ◌+◌, ◌≤◌, ◌<◌, ◌≡◌, ◌≢◌, ◌==◌, true, false, Option, none, some, List, ◌∷◌, length, replicate,
  erase, contains, Distinct, Fresh, Fresh-contains, Distinct-erase, contains-erase, length-erase,
  arith, Bool-cases, inl, inr, ◌⊎◌,
}
use cpp_example.Libev.Memory.{
  Interest, reads, writes, Watcher, IoBuf, Block, a_watcher, an_io_buf, some_chars, Heap, store,
}
use cpp_example.Libev.Server.{Server, rearm, drop_client, stop_on_error, buffer_size}

-- The blocks of the watcher at `w`: it points to its io_buf and that to its 1024 chars. `owner`
-- maps the address of an io_buf to its watcher, and that of chars to its io_buf. While a watcher
-- waits to read, its chars are zero; while it waits to write, there is something to write.
pub record Owns (owner : ℕ → ℕ) (h : Heap) (w : ℕ) : Type 0 where
  pub watcher : Watcher
  pub buf : IoBuf
  pub content : List ℕ
  pub at_watcher : h w ≡ some (a_watcher watcher)
  pub at_buf : h watcher.buf ≡ some (an_io_buf buf)
  pub at_chars : h buf.chars ≡ some (some_chars content)
  pub owns_buf : owner watcher.buf ≡ w
  pub owns_chars : owner buf.chars ≡ watcher.buf
  pub size : length content ≡ buffer_size
  pub within : buf.len ≤ buffer_size
  pub clean : watcher.events ≡ reads → content ≡ replicate buffer_size 0
  pub pending : watcher.events ≡ writes → 0 < buf.len

pub record IsSound (s : Server) : Type 0 where
  pub owner : ℕ → ℕ
  pub distinct : Distinct s.started
  pub counted : s.total_clients ≡ length s.started + length s.stopped
  pub owns : (w : ℕ) → contains w s.started ≡ true → Owns owner s.heap w

-- New contents of the blocks of one watcher.
abbrev pub change : ℕ → ℕ → ℕ → Option Block → Option Block → Option Block → Heap → Heap
change w b c x y z h = store w x (store b y (store c z h))

-- Another watcher's blocks are not touched.
other_Owns :
    (owner : ℕ → ℕ) (h : Heap) (w v : ℕ) (x y z : Option Block) (o : Owns owner h w)
    → Owns owner h v
    → v ≢ w
    → Owns owner (change w o.watcher.buf o.buf.chars x y z h) v
other_Owns owner h w v x y z o p ne = record {
  watcher = p.watcher;
  buf = p.buf;
  content = p.content;
  at_watcher = ground (arith, o.at_watcher, o.at_buf, o.at_chars, p.at_watcher);
  at_buf = ground (arith, o.at_watcher, o.at_buf, o.at_chars, p.at_buf, o.owns_buf, p.owns_buf);
  at_chars = ground (
    arith, o.at_watcher, o.at_buf, o.at_chars, p.at_chars, o.owns_chars, p.owns_chars, o.owns_buf,
    p.owns_buf,
  );
  owns_buf = p.owns_buf;
  owns_chars = p.owns_chars;
  size = p.size;
  within = p.within;
  clean = p.clean;
  pending = p.pending;
}

-- The watcher's own blocks, with other contents.
pub own_Owns :
    (owner : ℕ → ℕ) (h : Heap) (w : ℕ) (events : Interest) (len : ℕ) (content : List ℕ)
    (o : Owns owner h w)
    → length content ≡ buffer_size
    → len ≤ buffer_size
    → (events ≡ reads → content ≡ replicate buffer_size 0)
    → (events ≡ writes → 0 < len)
    → Owns owner
        (change w o.watcher.buf o.buf.chars
          (some (a_watcher (record o.watcher { events = events })))
          (some (an_io_buf (record o.buf { len = len })))
          (some (some_chars content))
          h)
        w
own_Owns owner h w events len content o size within clean pending = record {
  watcher = record o.watcher { events = events };
  buf = record o.buf { len = len };
  content = content;
  at_watcher = ground arith;
  at_buf = ground (arith, o.at_watcher, o.at_buf);
  at_chars = ground (arith, o.at_watcher, o.at_buf, o.at_chars);
  owns_buf = o.owns_buf;
  owns_chars = o.owns_chars;
  size = size;
  within = within;
  clean = clean;
  pending = pending;
}

-- What the end of an event of a started watcher leaves is sound, if its blocks are well-formed and
-- nothing else has changed.
pub rearm-IsSound :
    (s : Server) (w : ℕ) (events : Interest) (len : ℕ) (content : List ℕ)
    (written : List (ℕ × List ℕ)) (v : IsSound s) (o : Owns v.owner s.heap w)
    → contains w s.started ≡ true
    → length content ≡ buffer_size
    → len ≤ buffer_size
    → (events ≡ reads → content ≡ replicate buffer_size 0)
    → (events ≡ writes → 0 < len)
    → IsSound (
        rearm w o.watcher events (record s {
          heap =
              store o.watcher.buf
                (some (an_io_buf (record o.buf { len = len })))
                (store o.buf.chars (some (some_chars content)) s.heap);
          written = written;
        }))
unfolding rearm
rearm-IsSound s w events len content written v o there size within clean pending = record {
  owner = v.owner;
  distinct = (gone, Distinct-erase w s.started v.distinct);
  counted = omega (arith, v.counted, length-erase w s.started there);
  owns = λ x e. by_watcher x e (Bool-cases (x == w));
}
  where
    gone : Fresh w (erase w s.started)
    gone =
        Fresh-contains w (erase w s.started)
          (ground (arith, contains-erase w w s.started v.distinct))

    by_watcher :
        (x : ℕ)
        → contains x (w ∷ erase w s.started) ≡ true
        → ((x == w) ≡ true) ⊎ ((x == w) ≡ false)
        → Owns v.owner
            (change w o.watcher.buf o.buf.chars
              (some (a_watcher (record o.watcher { events = events })))
              (some (an_io_buf (record o.buf { len = len })))
              (some (some_chars content))
              s.heap)
            x
    by_watcher x e (inl same) =
        let eq : w ≡ x = ground arith in
        rw (← eq) (own_Owns v.owner s.heap w events len content o size within clean pending)
    by_watcher x e (inr other) =
        other_Owns v.owner s.heap w x _ _ _ o
          (v.owns x (ground (arith, e, other, contains-erase w x s.started v.distinct)))
          (ground (arith, other))

pub drop_client-IsSound :
    (s : Server) (w : ℕ) (v : IsSound s) (o : Owns v.owner s.heap w)
    → contains w s.started ≡ true
    → IsSound (drop_client w o.watcher o.buf s)
unfolding drop_client
drop_client-IsSound s w v o there = record {
  owner = v.owner;
  distinct = Distinct-erase w s.started v.distinct;
  counted = omega (arith, v.counted, length-erase w s.started there);
  owns = λ x e.
      other_Owns v.owner s.heap w x none none none o
        (v.owns x (ground (arith, e, contains-erase w x s.started v.distinct)))
        (ground (arith, e, contains-erase w x s.started v.distinct));
}

-- A watcher that was stopped on an error is counted still.
pub stop_on_error-IsSound :
    (s : Server) (w : ℕ) → IsSound s → contains w s.started ≡ true → IsSound (stop_on_error w s)
unfolding stop_on_error
stop_on_error-IsSound s w v there = record {
  owner = v.owner;
  distinct = Distinct-erase w s.started v.distinct;
  counted = omega (arith, v.counted, length-erase w s.started there);
  owns = λ x e. v.owns x (ground (arith, e, contains-erase w x s.started v.distinct));
}

-- A block allocated at a free address belongs to no watcher.
pub fresh_Owns :
    (owner : ℕ → ℕ) (h : Heap) (a v : ℕ) (x : Option Block)
    → h a ≡ none
    → Owns owner h v
    → Owns owner (store a x h) v
fresh_Owns owner h a v x free p = record {
  watcher = p.watcher;
  buf = p.buf;
  content = p.content;
  at_watcher = ground (arith, free, p.at_watcher);
  at_buf = ground (arith, free, p.at_buf);
  at_chars = ground (arith, free, p.at_chars);
  owns_buf = p.owns_buf;
  owns_chars = p.owns_chars;
  size = p.size;
  within = p.within;
  clean = p.clean;
  pending = p.pending;
}
