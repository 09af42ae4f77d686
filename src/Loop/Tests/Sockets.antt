-- ===== src/Loop/Tests/Sockets.antt =====
-- `class PseudoSocket`, over an operating system with one descriptor left.
use talyn.Base.Exec.{ok, raised}
use talyn.Base.{arith, false, ◌≡◌, ℕ, [], ◌∷◌, none, List, refl, elem, if◌then◌else◌}
use talyn.Loop.PseudoSocket.{
  run-leaves, Request, asks_sockname, asks_peername, closes, PseudoSocket, Os,
}
use talyn.Loop.PseudoSocket

-- Descriptor 9 is the only free one; 107 says that there is no peer.
abbrev one_left : Os
one_left = record {
  duplicate = λ fds a b c. if elem 9 fds then raised 24 else ok 9;
  sockname = λ fd. ok 80;
  peername = λ fd. raised 107;
}

one_left_unused :
    (fds : List ℕ) (a b c fd : ℕ) → one_left.duplicate fds a b c ≡ ok fd → elem fd fds ≡ false
one_left_unused fds a b c fd h = ground arith

abbrev stand_in : PseudoSocket
stand_in = PseudoSocket.new_socket 5 2 1 none

abbrev requests : List Request
requests = asks_sockname ∷ asks_peername ∷ closes ∷ asks_sockname ∷ []

run-leaves_example : PseudoSocket.run one_left stand_in requests (5 ∷ 3 ∷ []) ≡ 5 ∷ 3 ∷ []
run-leaves_example = run-leaves one_left one_left_unused stand_in requests (5 ∷ 3 ∷ [])

-- The second question fails, and the third finds the descriptor free again.
third_question :
    PseudoSocket.getsockname one_left stand_in
      (PseudoSocket.getpeername one_left stand_in (5 ∷ [])).1
    ≡ (ok 80, 5 ∷ [])
unfolding PseudoSocket.getsockname PseudoSocket.getpeername PseudoSocket.fromfd
    PseudoSocket.new_socket
third_question = refl
