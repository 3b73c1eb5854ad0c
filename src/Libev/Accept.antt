-- ===== src/Libev/Accept.antt =====
-- libev/demo1_echo_server.cpp: accept_cb keeps the server sound.
use cpp_example.Common.{
  ℕ, ◌+◌, ◌≡◌, ◌≢◌, refl, ◌==◌, Bool, true, false, Option, none, some, List, ◌∷◌, replicate,
  length-replicate, contains, Fresh-contains, if◌then◌else◌, arith, Bool-cases, inl, inr, ◌⊎◌, ap,
  ◌∙◌,
}
use cpp_example.Common.Outcome.{done, done_injective}
use cpp_example.Libev.Memory.{reads, raw, a_watcher, an_io_buf, some_chars, Heap, store, malloc}
use cpp_example.Libev.Server.{Server, AcceptReplies, accept_cb, register_client, buffer_size}
use cpp_example.Libev.Sound.{Owns, IsSound, fresh_Owns}

-- The addresses that malloc gives hold no live block, and are different.
pub record IsFresh (r : AcceptReplies) (h : Heap) : Type 0 where
  pub watcher : (a : ℕ) → r.watcher ≡ some a → h a ≡ none
  pub buf : (a : ℕ) → r.buf ≡ some a → (h a ≡ none) × (r.watcher ≢ some a)
  pub chars : (a : ℕ) → r.chars ≡ some a → (h a ≡ none) × (r.watcher ≢ some a) × (r.buf ≢ some a)

malloc-IsSound :
    (a : Option ℕ) (s : Server) (sockets : List ℕ)
    → ((w : ℕ) → a ≡ some w → s.heap w ≡ none)
    → IsSound s
    → IsSound (record s { heap = malloc a s.heap; sockets = sockets })
unfolding malloc
malloc-IsSound none s sockets free v = record {
  owner = v.owner;
  distinct = v.distinct;
  counted = v.counted;
  owns = v.owns;
}
malloc-IsSound (some a) s sockets free v = record {
  owner = v.owner;
  distinct = v.distinct;
  counted = v.counted;
  owns = λ w e. fresh_Owns v.owner s.heap a w (some raw) (free a refl) (v.owns w e);
}

-- Three addresses that no watcher owns, and who owns the blocks there from now on.
record IsFree (h : Heap) (w b c : ℕ) : Type 0 where
  at_w : (h w ≡ none) ⊎ (h w ≡ some raw)
  at_b : h b ≡ none
  at_c : h c ≡ none
  w_b : w ≢ b
  w_c : w ≢ c
  b_c : b ≢ c

abbrev new_owner : ℕ → ℕ → ℕ → (ℕ → ℕ) → ℕ → ℕ
new_owner w b c owner a = if a == b then w else if a == c then b else owner a

abbrev new_heap : ℕ → ℕ → ℕ → ℕ → Heap → Heap
new_heap w b c fd h = store w (some (a_watcher (record { fd = fd; events = reads; buf = b }))) (
    store b (some (an_io_buf (record { chars = c; len = 0 })))
      (store c (some (some_chars (replicate buffer_size 0))) h))

new_Owns :
    (owner : ℕ → ℕ) (h : Heap) (w b c fd : ℕ)
    → IsFree h w b c
    → Owns (new_owner w b c owner) (new_heap w b c fd h) w
new_Owns owner h w b c fd f = record {
  watcher = record { fd = fd; events = reads; buf = b };
  buf = record { chars = c; len = 0 };
  content = replicate buffer_size 0;
  at_watcher = ground arith;
  at_buf = ground (arith, f.w_b);
  at_chars = ground (arith, f.w_c, f.b_c);
  owns_buf = ground arith;
  owns_chars = ground (arith, f.b_c);
  size = length-replicate {A = ℕ} buffer_size 0;
  within = omega arith;
  clean = λ e. refl;
  pending = λ e. cc;
}

old_Owns :
    (owner : ℕ → ℕ) (h : Heap) (w b c fd v : ℕ)
    → IsFree h w b c
    → Owns owner h v
    → Owns (new_owner w b c owner) (new_heap w b c fd h) v
old_Owns owner h w b c fd v f p = record {
  watcher = p.watcher;
  buf = p.buf;
  content = p.content;
  at_watcher = ground (arith, f.at_w, f.at_b, f.at_c, p.at_watcher);
  at_buf = ground (arith, f.at_w, f.at_b, f.at_c, p.at_buf);
  at_chars = ground (arith, f.at_w, f.at_b, f.at_c, p.at_chars);
  owns_buf = ground (arith, f.at_b, f.at_c, p.at_buf, p.owns_buf);
  owns_chars = ground (arith, f.at_b, f.at_c, p.at_chars, p.owns_chars);
  size = p.size;
  within = p.within;
  clean = p.clean;
  pending = p.pending;
}

absent :
    (s : Server) (w : ℕ)
    → IsSound s
    → (s.heap w ≡ none) ⊎ (s.heap w ≡ some raw)
    → contains w s.started ≡ false
absent s w v free = elim (Bool-cases (contains w s.started)) [
  | inl h ↦ let p = v.owns w h in absurd (ground (arith, free, p.at_watcher))
  | inr h ↦ h
]

register_client-IsSound :
    (w b c fd : ℕ) (s : Server)
    → IsFree s.heap w b c
    → IsSound s
    → IsSound (record s {
      heap = new_heap w b c fd s.heap;
      started = w ∷ s.started;
      total_clients = s.total_clients + 1;
    })
register_client-IsSound w b c fd s f v = record {
  owner = new_owner w b c v.owner;
  distinct = (Fresh-contains w s.started (absent s w v f.at_w), v.distinct);
  counted = omega (arith, v.counted);
  owns = λ x e. by_watcher x e (Bool-cases (x == w));
}
  where
    by_watcher :
        (x : ℕ)
        → contains x (w ∷ s.started) ≡ true
        → ((x == w) ≡ true) ⊎ ((x == w) ≡ false)
        → Owns (new_owner w b c v.owner) (new_heap w b c fd s.heap) x
    by_watcher x e (inl same) =
        let eq : w ≡ x = ground arith in rw (← eq) (new_Owns v.owner s.heap w b c fd f)
    by_watcher x e (inr other) =
        old_Owns v.owner s.heap w b c fd x f (v.owns x (ground (arith, e, other)))

-- What register_client makes of the replies of malloc, the watcher's block being there already.
registered_IsSound :
    (r : AcceptReplies) (fd : ℕ) (s s' : Server)
    → IsFresh r s.heap
    → IsSound s
    → register_client r.watcher r.buf r.chars fd
        (record s { heap = malloc r.watcher s.heap; sockets = fd ∷ s.sockets })
      ≡ done s'
    → IsSound s'
unfolding register_client malloc
registered_IsSound r fd s s' f v e = by_replies r.watcher r.buf r.chars refl refl refl e
  where
    by_replies :
        (w b c : Option ℕ)
        → r.watcher ≡ w
        → r.buf ≡ b
        → r.chars ≡ c
        → register_client w b c fd (record s { heap = malloc w s.heap; sockets = fd ∷ s.sockets })
          ≡ done s'
        → IsSound s'
    by_replies w none c ew eb ec e = absurd (ground (arith, e))
    by_replies w (some b) none ew eb ec e = absurd (ground (arith, e))
    by_replies none (some b) (some c) ew eb ec e = absurd (ground (arith, e))
    by_replies (some w) (some b) (some c) ew eb ec e =
        let (b_free, w_b) = f.buf b eb in
        let (c_free, w_c, b_c) = f.chars c ec in
        let free : IsFree (store w (some raw) s.heap) w b c = record {
          at_w = inr (ground arith);
          at_b = ground (arith, b_free, w_b, ew);
          at_c = ground (arith, c_free, w_c, ew);
          w_b = λ q. w_b (ew ∙ ap (λ a. some a) q);
          w_c = λ q. w_c (ew ∙ ap (λ a. some a) q);
          b_c = λ q. b_c (eb ∙ ap (λ a. some a) q);
        } in
        let before = malloc-IsSound (some w) s (fd ∷ s.sockets) (λ a q. f.watcher a (ew ∙ q)) v in
        let after =
          register_client-IsSound w b c fd
            (record s { heap = store w (some raw) s.heap; sockets = fd ∷ s.sockets }) free before in
        let same = done_injective e in rw (← same) after

-- accept_cb, whatever its calls return, keeps the server sound, if it does not write through a null
-- pointer.
pub accept_cb-IsSound :
    (r : AcceptReplies) (s s' : Server)
    → IsFresh r s.heap
    → IsSound s
    → accept_cb r s ≡ done s'
    → IsSound s'
unfolding accept_cb
accept_cb-IsSound r s s' f v e = by_replies r.error r.client r.ioctl_ok e
  where
    by_replies :
        (error : Bool) (client : Option ℕ) (ioctl_ok : Bool)
        → accept_cb (record r { error = error; client = client; ioctl_ok = ioctl_ok }) s ≡ done s'
        → IsSound s'
    by_replies true client ioctl_ok e =
        rw (← done_injective e) (malloc-IsSound r.watcher s s.sockets f.watcher v)
    by_replies false none ioctl_ok e =
        rw (← done_injective e) (malloc-IsSound r.watcher s s.sockets f.watcher v)
    by_replies false (some fd) false e =
        rw (← done_injective e) (malloc-IsSound r.watcher s (fd ∷ s.sockets) f.watcher v)
    by_replies false (some fd) true e = registered_IsSound r fd s s' f v e
