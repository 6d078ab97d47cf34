-- ===== src/Menu/Loop/Validity.antt =====
-- The menu, and what it is for a service to be well formed.
use nettverk.Prelude.{ℕ, ◌≡◌, Bool, some, Bytes, UniqueKeys, arith}
use nettverk.Net.{Os}
use nettverk.Groups.Membership
use nettverk.Groups.State.{GroupRoomCoordinator}
use nettverk.Groups.Reach.{create-IsValid, join-IsValid, leave-IsValid, say-IsValid, prune-IsValid}
use nettverk.Groups.State.{list_advertised_rooms}
use nettverk.Direct.Reach.{step-UniqueKeys}
use nettverk.Direct.State.{DirectMessageService}
use nettverk.Direct.Steps.{step, invites, accepts, declines}
use nettverk.Io.{Io}
use nettverk.Receive.{Services}
use nettverk.Receive.Validity.{IsValid}
use nettverk.Menu.Console.{World, Menu, put, get_line}
use nettverk.Menu.Loop.{run_text_menu_loop}
use nettverk.Menu.Loop.Keeps.{Keeps}
use nettverk.Menu.Loop.Rounds.{run_keeps}

-- What the other threads do while the menu waits leaves well-formed services well formed.
pub record IsSound (w : World) : Type 0 where
  pub others : (n : ℕ) (s : Services) → IsValid s → IsValid (w.others n s)

io-IsValid : (s : Services) (io : Io) → IsValid s → IsValid (record s { io = io })
io-IsValid s io v = record { users = v.users; groups = v.groups; direct = v.direct }

groups-IsValid :
    (s : Services) (g : GroupRoomCoordinator) (io : Io)
    → IsValid s
    → Membership.IsValid g
    → IsValid (record s { groups = g; io = io })
groups-IsValid s g io v h = record { users = v.users; groups = h; direct = v.direct }

direct-IsValid :
    (s : Services) (d : DirectMessageService) (io : Io)
    → IsValid s
    → UniqueKeys d.sessions
    → IsValid (record s { direct = d; io = io })
direct-IsValid s d io v h = record { users = v.users; groups = v.groups; direct = h }

get_line-IsValid :
    (w : World) (m : Menu) → IsSound w → IsValid m.services → IsValid (get_line w m).0.services
unfolding get_line
get_line-IsValid w m k v = let v' = k.others m.asked m.services v in ground (arith, v')

IsValid-Keeps :
    (os : Os) (w : World) (username : Bytes)
    → IsSound w
    → Keeps os w username (λ m. IsValid m.services)
unfolding put list_advertised_rooms step
IsValid-Keeps os w username k = record {
  puts = λ m t v. io-IsValid m.services _ v;
  complains = λ m t v. io-IsValid m.services _ v;
  reads = λ m v. get_line-IsValid w m k v;
  chats = λ m msg v. io-IsValid m.services _ v;
  lists = λ m now v. groups-IsValid m.services _ _ v (prune-IsValid m.services.groups now v.groups);
  creates = λ m name v.
      groups-IsValid m.services _ _ v
        (create-IsValid os m.services.groups name m.services.io v.groups);
  joins = λ m name now v.
      groups-IsValid m.services _ _ v
        (join-IsValid os m.services.groups name now m.services.io v.groups);
  leaves = λ m v.
      groups-IsValid m.services _ _ v (leave-IsValid os m.services.groups m.services.io v.groups);
  group_chats = λ m msg v.
      groups-IsValid m.services _ _ v (say-IsValid os m.services.groups msg m.services.io v.groups);
  invites = λ m who random now v.
      let s = m.services in
      direct-IsValid s _ _ v
        (step-UniqueKeys os s.direct s.io (invites s.users who random now) v.direct);
  accepts = λ m sid now v.
      let s = m.services in
      direct-IsValid s _ _ v (step-UniqueKeys os s.direct s.io (accepts sid now) v.direct);
  declines = λ m sid reason v.
      let s = m.services in
      direct-IsValid s _ _ v (step-UniqueKeys os s.direct s.io (declines sid reason) v.direct);
  private_chats = λ m sid msg v. io-IsValid m.services _ v;
}

-- Started on well-formed services, the menu leaves well-formed services when it returns, whatever is
-- typed, on any fuel, where what the other threads do while it waits keeps services well formed.
pub menu-IsValid :
    (os : Os) (w : World) (username : Bytes) (fuel : ℕ) (m : Menu) (r : Menu × Bool)
    → IsSound w
    → IsValid m.services
    → run_text_menu_loop os w username fuel m ≡ some r
    → IsValid r.0.services
menu-IsValid os w username fuel m r k v h =
    run_keeps os w username (IsValid-Keeps os w username k) fuel m v r h
