-- ===== src/UdpSocket/Ownership/Once.antt =====
-- Every descriptor that a UdpSocket gets from the system is given back once.
use nettverk.Prelude.{
  ℕ, zero, suc, ◌+◌, ◌==◌, ◌≡◌, refl, ◌∙◌, ap, false, Option, none, some, List, [], ◌∷◌, ◌++◌, ℤ,
  pos, negsuc, get_elem?, if◌then◌else◌, arith, Bool-cases, inl, inr,
}
use nettverk.Net.{Os}
use nettverk.UdpSocket.{UdpSocket, open_taking, close, destroy, move, move_assign}
use nettverk.UdpSocket.Descriptor.{send_to-fd, recv_from-fd, bind-fd, set_option-fd}
use nettverk.UdpSocket.Ownership.{
  Sockets, start, Use, constructs, moves, assigns, opens, closes, destroys, binds, sets, sends,
  receives, put, remove, changes, moved, assigned, destroyed, use_object, place, use_all,
}

-- Whether a number is the descriptor `n`, as 1 or 0.
abbrev pub is_one : ℕ → ℤ → ℕ
is_one n (pos m) = if m == n then 1 else 0
is_one n (negsuc m) = 0

-- How often the descriptor `n` stands in a list, and how many objects hold it.
unfoldable pub tally : ℕ → List ℤ → ℕ
tally n [] = 0
tally n (z ∷ zs) = is_one n z + tally n zs

unfoldable pub holders : ℕ → List UdpSocket → ℕ
holders n [] = 0
holders n (s ∷ ss) = is_one n s.fd + holders n ss

-- How often an object that may be missing holds the descriptor `n`.
abbrev holds_at : ℕ → Option UdpSocket → ℕ
holds_at n none = 0
holds_at n (some s) = is_one n s.fd

holders-put :
    (n : ℕ) (ss : List UdpSocket) (i : ℕ) (s s' : UdpSocket)
    → get_elem? ss i ≡ some s
    → holders n (put ss i s') + is_one n s.fd ≡ holders n ss + is_one n s'.fd
unfolding holders put
holders-put n [] i s s' e = absurd (cc)
holders-put n (x ∷ xs) zero s s' e = (let same = ap (holds_at n) e in omega (arith, same))
holders-put n (x ∷ xs) (suc i) s s' e = omega (arith, holders-put n xs i s s' e)

holders-remove :
    (n : ℕ) (ss : List UdpSocket) (i : ℕ) (s : UdpSocket)
    → get_elem? ss i ≡ some s
    → holders n (remove ss i) + is_one n s.fd ≡ holders n ss
unfolding holders remove
holders-remove n [] i s e = absurd (cc)
holders-remove n (x ∷ xs) zero s e = (let same = ap (holds_at n) e in omega (arith, same))
holders-remove n (x ∷ xs) (suc i) s e = omega (arith, holders-remove n xs i s e)

get-put :
    (ss : List UdpSocket) (i j : ℕ) (s : UdpSocket)
    → (i == j) ≡ false
    → get_elem? (put ss i s) j ≡ get_elem? ss j
unfolding put
get-put [] i j s e = refl
get-put (x ∷ xs) zero zero s e = absurd (cc)
get-put (x ∷ xs) zero (suc j) s e = refl
get-put (x ∷ xs) (suc i) zero s e = refl
get-put (x ∷ xs) (suc i) (suc j) s e = get-put xs i j s (ground arith)

taken-tally :
    (os : Os) (call n : ℕ) (s : UdpSocket)
    → let (s', ok, taken) = open_taking os call s in tally n taken + is_one n s.fd ≡ is_one n s'.fd
unfolding tally open_taking
taken-tally os call n s = ground arith

tally-append : (n : ℕ) (xs ys : List ℤ) → tally n (xs ++ ys) ≡ tally n xs + tally n ys
unfolding tally
tally-append n [] ys = omega arith
tally-append n (x ∷ xs) ys = omega (arith, tally-append n xs ys)

-- The descriptor `n` was given as often as it was given back or is held by an object.
abbrev pub Once : ℕ → Sockets → Type 0
Once n w = tally n w.opened ≡ tally n w.closed + holders n w.objects

changes-Once :
    (n i : ℕ) (w : Sockets) (s s' : UdpSocket)
    → get_elem? w.objects i ≡ some s
    → s'.fd ≡ s.fd
    → Once n w
    → Once n (changes w i s')
changes-Once n i w s s' e f h =
    let p = holders-put n w.objects i s s' e in let q = ap (is_one n) f in omega (arith, p, q, h)

close-tally :
    (os : Os) (call n : ℕ) (s : UdpSocket)
    → let (s', closed) = close os call s in tally n closed + is_one n s'.fd ≡ is_one n s.fd
unfolding tally close
close-tally os call n s = ground arith

close-is_one : (os : Os) (call n : ℕ) (s : UdpSocket) → is_one n (close os call s).0.fd ≡ 0
unfolding close
close-is_one os call n s = ground arith

moved-Once :
    (n i : ℕ) (w : Sockets) (s : UdpSocket)
    → get_elem? w.objects i ≡ some s
    → Once n w
    → Once n (moved w i s)
unfolding moved holders move
moved-Once n i w s e h = let p = holders-put n w.objects i s (move s).1 e in omega (arith, p, h)

destroyed-Once :
    (os : Os) (n i : ℕ) (w : Sockets) (s : UdpSocket)
    → get_elem? w.objects i ≡ some s
    → Once n w
    → Once n (destroyed os w i s)
unfolding destroyed destroy
destroyed-Once os n i w s e h =
    let p = holders-remove n w.objects i s e in
    let c = close-is_one os w.calls n s in
    let b = close-tally os w.calls n s in
    let a = tally-append n (destroy os w.calls s) w.closed in omega (arith, p, a, b, c, h)

assigned-Once :
    (os : Os) (n i j : ℕ) (w : Sockets) (s : UdpSocket) (o : Option UdpSocket)
    → get_elem? w.objects i ≡ some s
    → get_elem? w.objects j ≡ o
    → Once n w
    → Once n (assigned os w i s j o)
unfolding assigned move_assign
assigned-Once os n i j w s none e f h = h
assigned-Once os n i j w s (some other) e f h = elim (Bool-cases (i == j)) [
  | inl same ↦ rw same h
  | inr apart ↦
      (let s' = (move_assign os w.calls s other).0 in
        let left = (move_assign os w.calls s other).1 in
        let p = holders-put n w.objects i s s' e in
        let f' = get-put w.objects i j s' apart ∙ f in
        let q = holders-put n (put w.objects i s') j other left f' in
        let b = close-tally os w.calls n s in
        let c = close-is_one os w.calls n s in
        let a = tally-append n (close os w.calls s).1 w.closed in
        rw apart (omega (arith, p, q, a, b, c, h)))
]

use_object-Once :
    (os : Os) (n : ℕ) (w : Sockets) (u : Use) (o : Option UdpSocket)
    → get_elem? w.objects (place u) ≡ o
    → Once n w
    → Once n (use_object os w u o)
unfolding use_object
use_object-Once os n w constructs o e h = unfold holders in omega (arith, h)
use_object-Once os n w u none e h = h
use_object-Once os n w (moves i) (some s) e h = moved-Once n i w s e h
use_object-Once os n w (assigns i j) (some s) e h = assigned-Once os n i j w s _ e refl h
use_object-Once os n w (opens i) (some s) e h =
    let (s', ok, taken) = open_taking os w.calls s in
    let p = holders-put n w.objects i s s' e in
    let b = taken-tally os w.calls n s in
    let a = tally-append n taken w.opened in omega (arith, p, a, b, h)
use_object-Once os n w (closes i) (some s) e h =
    let (s', closed) = close os w.calls s in
    let p = holders-put n w.objects i s s' e in
    let b = close-tally os w.calls n s in
    let a = tally-append n closed w.closed in omega (arith, p, a, b, h)
use_object-Once os n w (destroys i) (some s) e h = destroyed-Once os n i w s e h
use_object-Once os n w (binds i port) (some s) e h =
    changes-Once n i w s _ e (bind-fd os w.calls s port) h
use_object-Once os n w (sets i option) (some s) e h =
    changes-Once n i w s _ e (set_option-fd os w.calls s option) h
use_object-Once os n w (sends i bytes dest) (some s) e h =
    changes-Once n i w s _ e (send_to-fd os w.calls s bytes dest) h
use_object-Once os n w (receives i size) (some s) e h =
    changes-Once n i w s _ e (recv_from-fd os w.calls s size) h

use_all-Once : (os : Os) (n : ℕ) (us : List Use) (w : Sockets) → Once n w → Once n (use_all os us w)
unfolding use_all
use_all-Once os n [] w h = h
use_all-Once os n (u ∷ us) w h =
    let w' = use_object os w u (get_elem? w.objects (place u)) in
    use_all-Once os n us (record w' { calls = suc w.calls }) (use_object-Once os n w u _ refl h)

-- Objects are made, moved, assigned, used and destroyed in any order, and the system answers as it
-- likes: of every descriptor, the number of times that `::socket` has given it is the number of times
-- that it was passed to `::close` and the number of objects that hold it. So none is closed twice or
-- held by two objects for one time that it was given, and none is lost; once all objects are
-- destroyed, each was closed as often as it was given.
pub closed_once :
    (os : Os) (us : List Use) (n : ℕ)
    → let w = use_all os us start in tally n w.opened ≡ tally n w.closed + holders n w.objects
closed_once os us n = use_all-Once os n us start (unfold tally in unfold holders in refl)
