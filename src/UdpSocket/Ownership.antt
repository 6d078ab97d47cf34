-- ===== src/UdpSocket/Ownership.antt =====
-- The lives of UdpSocket objects (oblig1_chattsystem/src/net/udp_socket.cpp): how they are made,
-- moved, assigned, used and destroyed, with the descriptors that the system has given and those that
-- were given back to it.
pub mod Once
use nettverk.Prelude.{
  ℕ, zero, suc, ◌==◌, Option, none, some, List, [], ◌∷◌, ◌++◌, Bytes, ℤ, get_elem?, if◌then◌else◌,
}
use nettverk.Net.{Os, SockAddr, SockOption}
use nettverk.UdpSocket.{
  UdpSocket, new, open_taking, close, destroy, bind, set_option, send_to, recv_from, move,
  move_assign,
}

-- The objects that live, what `::socket` has returned, what `::close` was called on, and the number of
-- the next call.
pub record Sockets : Type 0 where
  pub objects : List UdpSocket
  pub opened : List ℤ
  pub closed : List ℤ
  pub calls : ℕ

abbrev pub start : Sockets
start = record { objects = []; opened = []; closed = []; calls = 0 }

-- What a program does with the object at a place: a new one comes first.
pub data Use : Type 0 where
  constructs : Use
  moves : ℕ → Use
  assigns : ℕ → ℕ → Use
  opens : ℕ → Use
  closes : ℕ → Use
  destroys : ℕ → Use
  binds : ℕ → ℕ → Use
  sets : ℕ → SockOption → Use
  sends : ℕ → Bytes → SockAddr → Use
  receives : ℕ → ℕ → Use

-- The objects with another value at a place, and without the one at a place.
unfoldable pub put : List UdpSocket → ℕ → UdpSocket → List UdpSocket
put [] i s = []
put (x ∷ xs) zero s = s ∷ xs
put (x ∷ xs) (suc i) s = x ∷ put xs i s

unfoldable pub remove : List UdpSocket → ℕ → List UdpSocket
remove [] i = []
remove (x ∷ xs) zero = xs
remove (x ∷ xs) (suc i) = x ∷ remove xs i

-- A method that changes only the object it is called on, and calls neither `::socket` nor `::close`.
abbrev pub changes : Sockets → ℕ → UdpSocket → Sockets
changes w i s = record w { objects = put w.objects i s }

-- `UdpSocket a{std::move(b)}` for the object `s` at the place `i`.
unfoldable pub moved : Sockets → ℕ → UdpSocket → Sockets
unfolding move put
moved w i s = let (made, left) = move s in record w { objects = made ∷ put w.objects i left }

-- `a = std::move(b)` for the object `s` at the place `i` and the object at the place `j`; an object
-- assigned to itself stays as it is.
unfoldable pub assigned : Os → Sockets → ℕ → UdpSocket → ℕ → Option UdpSocket → Sockets
unfolding move_assign put
assigned os w i s j none = w
assigned os w i s j (some other) =
    if i == j
    then w
    else let (s', left, closed) = move_assign os w.calls s other in
      record w { objects = put (put w.objects i s') j left; closed = closed ++ w.closed }

-- The end of the object `s` at the place `i`.
unfoldable pub destroyed : Os → Sockets → ℕ → UdpSocket → Sockets
unfolding destroy remove
destroyed os w i s = record w {
  objects = remove w.objects i;
  closed = destroy os w.calls s ++ w.closed;
}

-- One use of the object found at its first place.
unfoldable pub use_object : Os → Sockets → Use → Option UdpSocket → Sockets
unfolding open_taking close bind set_option send_to recv_from put moved assigned destroyed
use_object os w constructs o = record w { objects = new ∷ w.objects }
use_object os w u none = w
use_object os w (moves i) (some s) = moved w i s
use_object os w (assigns i j) (some s) = assigned os w i s j (get_elem? w.objects j)
use_object os w (opens i) (some s) =
    let (s', ok, taken) = open_taking os w.calls s in
    record w { objects = put w.objects i s'; opened = taken ++ w.opened }
use_object os w (closes i) (some s) =
    let (s', closed) = close os w.calls s in
    record w { objects = put w.objects i s'; closed = closed ++ w.closed }
use_object os w (destroys i) (some s) = destroyed os w i s
use_object os w (binds i port) (some s) = changes w i (bind os w.calls s port).0
use_object os w (sets i option) (some s) = changes w i (set_option os w.calls s option).0
use_object os w (sends i bytes dest) (some s) = changes w i (send_to os w.calls s bytes dest).0
use_object os w (receives i size) (some s) = changes w i (recv_from os w.calls s size).0

-- The place of the object that a use is a method of.
abbrev pub place : Use → ℕ
place constructs = 0
place (moves i) = i
place (assigns i j) = i
place (opens i) = i
place (closes i) = i
place (destroys i) = i
place (binds i port) = i
place (sets i option) = i
place (sends i bytes dest) = i
place (receives i size) = i

unfoldable pub use_all : Os → List Use → Sockets → Sockets
unfolding use_object
use_all os [] w = w
use_all os (u ∷ us) w =
    let w' = use_object os w u (get_elem? w.objects (place u)) in
    use_all os us (record w' { calls = suc w.calls })
