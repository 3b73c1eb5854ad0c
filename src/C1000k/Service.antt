-- ===== src/C1000k/Service.antt =====
-- network/demo4_c1000k_server.cpp: what a client is answered.
use cpp_example.Common.{
  ℕ, zero, suc, ◌+◌, ◌-◌, ◌/◌, ◌%◌, ◌<◌, ◌≡◌, ◌≢◌, refl, ap, ◌∙◌, sym, ◌⊎◌, true, some, List, [],
  ◌∷◌, ◌++◌, arith, replicate, All, length, length-append, length-replicate, append-nil,
}
use cpp_example.Common.Outcome.{printed_string, done, overrun, >>=-eq-done, write_at}
use cpp_example.Common.Buffers.{write_at-replicate, printed_string-replicate, write_at-append}
use cpp_example.C1000k.Reactor.{bytes, SockItem, Reactor, Mallocs, Place}
use cpp_example.C1000k.Lookup.{IsWhole, Succeeds, reactor_lookup-finds}
use cpp_example.C1000k.Items.{
  place_of, lookup_present, with_item_self, with_item-other, with_item-IsWhole,
  with_item-block_count, some_item,
}
use cpp_example.C1000k.Server.{
  Act, ctl_add, ctl_mod_in, ctl_mod_out, sends, Received, message, hung_up, failed, item_at,
  with_item, accept_event, read_event, read_item, free, write_event, the_place, the_item, fill,
  copy, calloc,
}

abbrev pub padded : List ℕ → List ℕ
padded msg = msg ++ replicate (128 - length msg) 0

pub fresh : ℕ → SockItem → SockItem
unfolding calloc
fresh fd item = record item { fd = fd; rbuf = calloc true; rlen = 0; wbuf = calloc true; wlen = 0 }

-- Accepting client socket fd, with malloc and calloc succeeding: the item stands at the socket's
-- place with zeroed buffers, and the items that other sockets have stay as they are.
pub accept_event_lem :
    (fd : ℕ) (ms : List Mallocs) (r : Reactor)
    → IsWhole r
    → 0 < fd
    → All Succeeds ms
    → fd / 1024 < r.block_count + length ms
    → (r1 : Reactor) × (x : SockItem) × (accept_event (some fd) ms true true r
        ≡ done (some (r1, ctl_add fd ∷ [])))
      × IsWhole r1
      × (fd / 1024 < r1.block_count)
      × (item_at r1 (place_of fd) ≡ some (fresh fd x))
unfolding accept_event the_place the_item fresh
accept_event_lem fd ms r w pos ok h =
    let (r', found, w', kept, within) = reactor_lookup-finds ms fd r w pos ok h in
    let (x, at) = some_item r' fd w' (omega (arith, within, w'.counted)) in
    (
      with_item r' (place_of fd) (fresh fd x),
      x,
      rw found (rw (the_item, at) refl),
      with_item-IsWhole r' (place_of fd) (fresh fd x) w',
      omega (arith, within, w'.counted, with_item-block_count r' (place_of fd) (fresh fd x)),
      with_item_self r' (place_of fd) x (fresh fd x) at,
    )

-- The item after a message was read into fresh buffers.
pub heard : ℕ → SockItem → List ℕ → SockItem
unfolding fresh
heard fd x msg = record (fresh fd x) { rbuf = bytes (padded msg); wbuf = bytes (padded msg) }

read_event_lem :
    (fd : ℕ) (r : Reactor) (x : SockItem) (msg : List ℕ)
    → IsWhole r
    → 0 < fd
    → fd / 1024 < r.block_count
    → item_at r (place_of fd) ≡ some (fresh fd x)
    → length msg < 128
    → read_event fd [] (message msg) r
      ≡ done (with_item r (place_of fd) (heard fd x msg), ctl_mod_out fd ∷ [])
unfolding read_event read_item the_place the_item fill copy fresh heard calloc
read_event_lem fd r x msg w pos h at short =
    let (l, e) = printed_string-replicate 128 msg short in
    rw (lookup_present [] fd r w pos h) (
      rw (the_item, at)
        (rw (write_at-replicate 128 msg (omega (arith, short))) (rw e (rw copied refl))))
  where
    filled : write_at (replicate 128 0) 0 (padded msg) ≡ done (padded msg)
    filled =
        write_at-append (replicate 128 0) [] (replicate 128 0) [] (padded msg) 0 refl refl (
          omega (
            arith,
            short,
            length-append msg (replicate (128 - length msg) 0),
            length-replicate {A = ℕ} (128 - length msg) 0,
          ))
        ∙ ap done (append-nil (padded msg))

    copied : copy (bytes (replicate 128 0)) (padded msg) ≡ done (bytes (padded msg))
    copied = rw filled refl

-- A client socket fd is accepted on a whole reactor, with memory for every allocation; later its
-- message of fewer than 128 bytes is read, then it is writable. The server sends it the message,
-- filled up with zeros to 128 bytes, and it is watched for reading, then for writing, then for
-- reading again.
pub connection_echoes :
    (fd : ℕ) (ms : List Mallocs) (msg : List ℕ) (r : Reactor)
    → IsWhole r
    → 0 < fd
    → All Succeeds ms
    → fd / 1024 < r.block_count + length ms
    → length msg < 128
    → (r1 r2 : Reactor) × (accept_event (some fd) ms true true r
        ≡ done (some (r1, ctl_add fd ∷ [])))
      × (read_event fd [] (message msg) r1 ≡ done (r2, ctl_mod_out fd ∷ []))
      × (write_event fd [] r2
          ≡ done (r2, sends fd (msg ++ replicate (128 - length msg) 0) ∷ ctl_mod_in fd ∷ []))
      × IsWhole r2
unfolding write_event the_place the_item heard
connection_echoes fd ms msg r w pos ok h short =
    let (r1, x, a, w1, within, at) = accept_event_lem fd ms r w pos ok h in
    let r2 : Reactor = with_item r1 (place_of fd) (heard fd x msg) in
    let w2 : IsWhole r2 = with_item-IsWhole r1 (place_of fd) (heard fd x msg) w1 in
    let count : r2.block_count ≡ r1.block_count =
      with_item-block_count r1 (place_of fd) (heard fd x msg) in
    let stands : item_at r2 (place_of fd) ≡ some (heard fd x msg) =
      with_item_self r1 (place_of fd) (fresh fd x) (heard fd x msg) at in
    (
      r1,
      r2,
      a,
      read_event_lem fd r1 x msg w1 pos within at short,
      rw (lookup_present [] fd r2 w2 pos (omega (arith, within, count)))
          (rw (the_item, stands) refl),
      w2,
    )

read_item-others :
    (fd : ℕ) (got : Received) (r r' : Reactor) (p q : Place) (x : SockItem) (acts : List Act)
    → (p.block ≢ q.block) ⊎ (p.index ≢ q.index)
    → read_item fd got r p x ≡ done (r', acts)
    → item_at r' q ≡ item_at r q
unfolding read_item
read_item-others fd (message msg) r r' p q x acts other e =
    let (b, _, e1) = >>=-eq-done (fill x.rbuf msg) _ e in
    let (l, _, e2) = >>=-eq-done (printed_string b) _ e1 in
    let (w, _, e3) = >>=-eq-done (copy x.wbuf b) _ e2 in
    let y : SockItem = record x { rbuf = bytes b; wbuf = w } in
    let same : with_item r p y ≡ r' = ground (arith, e3) in
    ap (λ s. item_at s q) (sym same) ∙ with_item-other r p q y other
read_item-others fd hung_up r r' p q x acts other e =
    let (b, _, e1) = >>=-eq-done (free x.rbuf) _ e in
    let (w, _, e2) = >>=-eq-done (free x.wbuf) _ e1 in
    let y : SockItem = record x { rbuf = b; wbuf = w; fd = 0 } in
    let same : with_item r p y ≡ r' = ground (arith, e2) in
    ap (λ s. item_at s q) (sym same) ∙ with_item-other r p q y other
read_item-others fd failed r r' p q x acts other e =
    let same : r ≡ r' = ground (arith, e) in ap (λ s. item_at s q) (sym same)

-- Whatever is read from client fd of a whole reactor, whose block is there, and when the handling
-- goes through: an item at another place is the same afterwards.
pub read_event-others :
    (fd : ℕ) (ms : List Mallocs) (got : Received) (r r' : Reactor) (acts : List Act) (q : Place)
    → IsWhole r
    → 0 < fd
    → fd / 1024 < r.block_count
    → ((fd / 1024 ≢ q.block) ⊎ (fd % 1024 ≢ q.index))
    → read_event fd ms got r ≡ done (r', acts)
    → item_at r' q ≡ item_at r q
unfolding read_event the_place the_item
read_event-others fd ms got r r' acts q w pos h other e =
    let (x, at) = some_item r fd w h in
    read_item-others fd got r r' (place_of fd) q x acts other (sym (reads x at) ∙ e)
  where
    reads :
        (x : SockItem)
        → item_at r (place_of fd) ≡ some x
        → read_event fd ms got r ≡ read_item fd got r (place_of fd) x
    reads x at = rw (lookup_present ms fd r w pos h) (rw (the_item, at) refl)

-- A client whose item has a buffer of 128 bytes and that sends 128 bytes, none of them zero, makes
-- the server read beyond the buffer, where it printed_string the message as a string.
pub read_event-overrun :
    (fd : ℕ) (ms : List Mallocs) (msg b : List ℕ) (x : SockItem) (r : Reactor)
    → IsWhole r
    → 0 < fd
    → fd / 1024 < r.block_count
    → item_at r (place_of fd) ≡ some x
    → x.rbuf ≡ bytes b
    → length b ≡ 128
    → length msg ≡ 128
    → All (λ c. 0 < c) msg
    → read_event fd ms (message msg) r ≡ overrun
unfolding read_event read_item the_place the_item fill
read_event-overrun fd ms msg b x r w pos h at buf lb lm good =
    rw (lookup_present ms fd r w pos h)
      (rw (the_item, at) (rw buf (rw filled (rw (runs msg good) refl))))
  where
    filled : write_at b 0 msg ≡ done msg
    filled =
        write_at-append b [] b [] msg 0 (sym (append-nil b)) refl (omega (arith, lb, lm))
        ∙ ap done (append-nil msg)

    runs : (l : List ℕ) → All (λ c. 0 < c) l → printed_string l ≡ overrun
    runs [] g = refl
    runs (zero ∷ l) g = absurd (omega (arith, g.0))
    runs (suc c ∷ l) g = ground (arith, runs l g.1)
