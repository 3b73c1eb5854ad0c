-- ===== src/Udp/Deeds.antt =====
-- network/udp/d7_udp_tcp_select_echo_server.cpp: what the passes of a run bring, and what is done.
use cpp_example.Common.{
  ℕ, ◌≡◌, refl, ap, sym, ◌∙◌, Bool, true, false, ◌&&◌, none, some, List, [], ◌∷◌, ◌++◌, map,
  append-nil, if◌then◌else◌,
}
use cpp_example.Udp.{Datagram}
use cpp_example.Udp.Runs.{cut}
use cpp_example.Udp.Select.{
  interrupted, select_error, ready, Pass, Deed, child, close_connected, reply,
}

-- The connection and the datagram of a pass, if its calls succeed.
abbrev pub connection : Pass → List ℕ
connection p = elim p.accepted [ none ↦ [] | some connfd ↦ if p.forked then connfd ∷ [] else [] ]

abbrev pub datagram : Pass → List Datagram
datagram p = elim p.received [ none ↦ [] | some d ↦ if p.sent_ok then d ∷ [] else [] ]

abbrev pub tcp_ok : Pass → Bool
tcp_ok p = elim p.accepted [ none ↦ false | some connfd ↦ p.forked ]

abbrev pub udp_ok : Pass → Bool
udp_ok p = elim p.received [ none ↦ false | some d ↦ p.sent_ok ]

-- Whether a pass ends the process.
abbrev pub goes_on : Pass → Bool
goes_on p = elim p.selected [
  | interrupted ↦ true
  | select_error ↦ false
  | ready tcp udp ↦ (if tcp then tcp_ok p else true) && (if udp then udp_ok p else true)
]

-- The passes up to the one that ends the process, that one included.
abbrev pub served : List Pass → List Pass
served [] = []
served (p ∷ ps) = let rest = served ps in if goes_on p then p ∷ rest else p ∷ []

abbrev pub connections : List Pass → List ℕ
connections [] = []
connections (p ∷ ps) =
    let rest = connections ps in
    elim p.selected [
      | interrupted ↦ rest
      | select_error ↦ rest
      | ready tcp udp ↦ (if tcp then connection p else []) ++ rest
    ]

-- The datagram of a pass whose connection fails is not received.
abbrev pub datagrams : List Pass → List Datagram
datagrams [] = []
datagrams (p ∷ ps) =
    let rest = datagrams ps in
    elim p.selected [
      | interrupted ↦ rest
      | select_error ↦ rest
      | ready tcp udp ↦ (if (if tcp then tcp_ok p else true) && udp then datagram p else []) ++ rest
    ]

abbrev pub all_go_on : List Pass → Bool
all_go_on [] = true
all_go_on (p ∷ ps) = goes_on p && all_go_on ps

abbrev pub children_of : List Deed → List ℕ
children_of [] = []
children_of (child fd ∷ ds) = fd ∷ children_of ds
children_of (close_connected fd ∷ ds) = children_of ds
children_of (reply d ∷ ds) = children_of ds

abbrev pub closed_of : List Deed → List ℕ
closed_of [] = []
closed_of (child fd ∷ ds) = closed_of ds
closed_of (close_connected fd ∷ ds) = fd ∷ closed_of ds
closed_of (reply d ∷ ds) = closed_of ds

abbrev pub replies_of : List Deed → List Datagram
replies_of [] = []
replies_of (child fd ∷ ds) = replies_of ds
replies_of (close_connected fd ∷ ds) = replies_of ds
replies_of (reply d ∷ ds) = d ∷ replies_of ds

pub record IsServed (deeds : List Deed) (conns : List ℕ) (arrivals : List Datagram) : Type 0 where
  pub children : children_of deeds ≡ conns
  pub closed : closed_of deeds ≡ conns
  pub replies : replies_of deeds ≡ map cut arrivals

children_of-append : (xs ys : List Deed) → children_of (xs ++ ys) ≡ children_of xs ++ children_of ys
children_of-append [] ys = refl
children_of-append (child fd ∷ xs) ys = ap (◌∷◌ fd) (children_of-append xs ys)
children_of-append (close_connected fd ∷ xs) ys = children_of-append xs ys
children_of-append (reply d ∷ xs) ys = children_of-append xs ys

closed_of-append : (xs ys : List Deed) → closed_of (xs ++ ys) ≡ closed_of xs ++ closed_of ys
closed_of-append [] ys = refl
closed_of-append (child fd ∷ xs) ys = closed_of-append xs ys
closed_of-append (close_connected fd ∷ xs) ys = ap (◌∷◌ fd) (closed_of-append xs ys)
closed_of-append (reply d ∷ xs) ys = closed_of-append xs ys

replies_of-append : (xs ys : List Deed) → replies_of (xs ++ ys) ≡ replies_of xs ++ replies_of ys
replies_of-append [] ys = refl
replies_of-append (child fd ∷ xs) ys = replies_of-append xs ys
replies_of-append (close_connected fd ∷ xs) ys = replies_of-append xs ys
replies_of-append (reply d ∷ xs) ys = ap (◌∷◌ d) (replies_of-append xs ys)

map-cut-append : (xs ys : List Datagram) → map cut (xs ++ ys) ≡ map cut xs ++ map cut ys
map-cut-append [] ys = refl
map-cut-append (d ∷ xs) ys = ap (◌∷◌ (cut d)) (map-cut-append xs ys)

pub IsServed-append :
    (xs ys : List Deed) (c1 c2 : List ℕ) (d1 d2 : List Datagram)
    → IsServed xs c1 d1
    → IsServed ys c2 d2
    → IsServed (xs ++ ys) (c1 ++ c2) (d1 ++ d2)
IsServed-append xs ys c1 c2 d1 d2 v w = record {
  children = children_of-append xs ys ∙ rw (v.children, w.children) refl;
  closed = closed_of-append xs ys ∙ rw (v.closed, w.closed) refl;
  replies = replies_of-append xs ys ∙ rw (v.replies, w.replies) (sym (map-cut-append d1 d2));
}

pub IsServed-nil :
    (xs : List Deed) (c : List ℕ) (d : List Datagram)
    → IsServed xs c d
    → IsServed xs (c ++ []) (d ++ [])
IsServed-nil xs c d v = rw (append-nil c, append-nil d) v

pub no_deeds : IsServed [] [] []
no_deeds = record { children = refl; closed = refl; replies = refl }
