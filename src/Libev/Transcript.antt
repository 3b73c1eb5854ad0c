-- ===== src/Libev/Transcript.antt =====
-- libev/demo1_echo_client.cpp: the messages of a run, and what its acts did with them.
use cpp_example.Common.{
  ℕ, ◌≤◌, ◌≡◌, Bool, true, false, List, [], ◌∷◌, ◌++◌, length, replicate, if◌then◌else◌,
}
use cpp_example.Echo.Sys.{eagain, eintr, other_error, Got, got, failed}
use cpp_example.Libev.Server.{buffer_size}
use cpp_example.Libev.Client.{Client, Event, typed, arrived}

-- A read is of at most 1024 bytes.
abbrev pub FitsBuffer : Event → Type 0
FitsBuffer (typed (got msg)) = length msg ≤ buffer_size
FitsBuffer (typed (failed e)) = Unit {0}
FitsBuffer (arrived (got msg)) = length msg ≤ buffer_size
FitsBuffer (arrived (failed e)) = Unit {0}

abbrev pub AllFit : List Event → Type 0
AllFit [] = Unit {0}
AllFit (e ∷ es) = FitsBuffer e × AllFit es

-- Between two callbacks the buffer is clear.
pub record IsClear (c : Client) : Type 0 where
  pub clear : c.chars ≡ replicate buffer_size 0
  pub empty : c.len ≡ 0

-- The messages that reads of the standard input return.
abbrev pub typed_messages : List Event → List (List ℕ)
typed_messages [] = []
typed_messages (typed (got msg) ∷ es) = msg ∷ typed_messages es
typed_messages (typed (failed e) ∷ es) = typed_messages es
typed_messages (arrived reply ∷ es) = typed_messages es

-- What ends the connection: the end of the stream, or an error but EAGAIN.
abbrev pub ends : Got → Bool
ends (got []) = true
ends (got (b ∷ bs)) = false
ends (failed eagain) = false
ends (failed eintr) = true
ends (failed other_error) = true

abbrev pub content : Got → List (List ℕ)
content (got []) = []
content (got (b ∷ bs)) = (b ∷ bs) ∷ []
content (failed e) = []

-- The messages of the server up to the end of the connection.
abbrev pub arrived_messages : List Event → List (List ℕ)
arrived_messages [] = []
arrived_messages (typed reply ∷ es) = arrived_messages es
arrived_messages (arrived reply ∷ es) =
    let later = arrived_messages es in if ends reply then [] else content reply ++ later

abbrev pub connection_ends : List Event → Bool
connection_ends [] = false
connection_ends (typed reply ∷ es) = connection_ends es
connection_ends (arrived reply ∷ es) = if ends reply then true else connection_ends es
