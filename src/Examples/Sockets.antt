-- ===== src/Examples/Sockets.antt =====
-- The lives of sockets, at concrete inputs.
use nettverk.Prelude.{◌+◌, ◌≡◌, List, [], ◌∷◌}
use nettverk.UdpSocket.Ownership.{
  start, Use, constructs, moves, assigns, opens, closes, destroys, use_all,
}
use nettverk.UdpSocket.Ownership.Once.{tally, holders, closed_once}
use nettverk.Examples.{good_os}

-- A socket is opened and moved to a second one, which a third one takes over while it is open too.
abbrev life : List Use
life =
    constructs ∷ opens 0 ∷ moves 0 ∷ constructs ∷ opens 0 ∷ assigns 0 1 ∷ closes 2 ∷ destroys 0 ∷ []

closed_once_example :
    let w = use_all good_os life start in tally 5 w.opened ≡ tally 5 w.closed + holders 5 w.objects
closed_once_example = closed_once good_os life 5
