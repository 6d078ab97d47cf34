-- ===== src/Menu/Listings.antt =====
-- The lists that the menu prints (oblig1_chattsystem/src/app/text_menu.cpp).
use nettverk.Prelude.{
  ℕ, ◌-◌, ◌/◌, List, [], ◌∷◌, ◌++◌, Bytes, utf8, ascii, length, leb, ◌==◌, to_string, if◌then◌else◌,
}
use nettverk.Net.{Os}
use nettverk.Io.{print}
use nettverk.Users.{PeerListEntry, snapshot_peers}
use nettverk.Groups.State.{AdvertisedGroupRoom, list_advertised_rooms}
use nettverk.Direct.State.{PendingInviteInfo, ActiveDirectSessionInfo}
use nettverk.Menu.Console.{World, Menu, put}

unfoldable pub menu_text : Bytes
menu_text =
    utf8 "\n   HOVEDMENY: Velg 1-12:    \n"
    ++ utf8 "  1. Vis aktive brukere\n"
    ++ utf8 "  2. Send melding til USN Chat\n"
    ++ utf8 "  3. Opprett åpent grupperom\n"
    ++ utf8 "  4. Vis tilgjengelige grupperom\n"
    ++ utf8 "  5. Bli med i grupperom\n"
    ++ utf8 "  6. Send melding til grupperom\n"
    ++ utf8 "  7. Forlat grupperom\n"
    ++ utf8 "  8. Inviter bruker til 1-1 rom\n"
    ++ utf8 "  9. Svar på invitasjon (aksept/avslag)\n"
    ++ utf8 " 10. Send privat melding\n"
    ++ utf8 " 11. Vis aktive private samtaler\n"
    ++ utf8 " 12. Avslutt\n"
    ++ utf8 "--------------------------------\n"

unfoldable pub print_menu : Menu → Menu
print_menu m = put (print menu_text) m

-- `duration_cast<seconds>(now - seen).count()` as text; the quotient is cut towards 0.
unfoldable pub seconds_ago : ℕ → ℕ → Bytes
seconds_ago now seen =
    if leb seen now
    then to_string ((now - seen) / 1000000000)
    else let late = (seen - now) / 1000000000 in
      if late == 0 then to_string 0 else ascii "-" ++ to_string late

unfoldable pub user_lines : ℕ → List PeerListEntry → Bytes
unfolding seconds_ago
user_lines now [] = []
user_lines now (p ∷ ps) =
    utf8 "  "
    ++ p.username
    ++ utf8 " @ "
    ++ p.ipv4
    ++ utf8 " — sist sett for "
    ++ seconds_ago now p.last_seen
    ++ utf8 " s siden\n"
    ++ user_lines now ps

unfoldable pub users_text : ℕ → List PeerListEntry → Bytes
unfolding user_lines
users_text now [] = utf8 "\n--- Aktive brukere (0) ---\n" ++ utf8 "  (ingen andre oppdaget ennå)\n"
users_text now (p ∷ ps) =
    utf8 "\n--- Aktive brukere ("
    ++ to_string (length (p ∷ ps))
    ++ utf8 ") ---\n"
    ++ user_lines now (p ∷ ps)

unfoldable pub print_active_users : Os → World → Menu → Menu
unfolding users_text
print_active_users os w m =
    put (print (users_text (w.now m.asked) (snapshot_peers os m.services.users))) m

unfoldable pub room_lines : List AdvertisedGroupRoom → Bytes
room_lines [] = []
room_lines (r ∷ rs) =
    utf8 "  Rom: "
    ++ r.room_name
    ++ utf8 " @ "
    ++ r.multicast_ip
    ++ utf8 ":"
    ++ to_string r.multicast_port
    ++ utf8 "\n"
    ++ room_lines rs

unfoldable pub rooms_text : List AdvertisedGroupRoom → Bytes
unfolding room_lines
rooms_text [] =
    utf8 "\n--- Tilgjengelige grupperom (0) ---\n"
    ++ utf8 "  (ingen annonser ennå — vent noen sekunder)\n"
rooms_text (r ∷ rs) =
    utf8 "\n--- Tilgjengelige grupperom ("
    ++ to_string (length (r ∷ rs))
    ++ utf8 ") ---\n"
    ++ room_lines (r ∷ rs)

unfoldable pub print_advertised_rooms : World → Menu → Menu
unfolding rooms_text
print_advertised_rooms w m =
    let (groups, list) = list_advertised_rooms m.services.groups (w.now m.asked) in
    put (print (rooms_text list)) (record m { services = record m.services { groups = groups } })

unfoldable pub pending_lines : List PendingInviteInfo → Bytes
pending_lines [] = []
pending_lines (p ∷ ps) =
    utf8 "  Session "
    ++ p.session_id
    ++ utf8 " fra "
    ++ p.from_username
    ++ utf8 "\n"
    ++ pending_lines ps

unfoldable pub pending_text : List PendingInviteInfo → Bytes
unfolding pending_lines
pending_text [] = utf8 "\n--- Pending invitasjoner (0) ---\n" ++ utf8 "  (ingen)\n"
pending_text (p ∷ ps) =
    utf8 "\n--- Pending invitasjoner ("
    ++ to_string (length (p ∷ ps))
    ++ utf8 ") ---\n"
    ++ pending_lines (p ∷ ps)

unfoldable pub session_lines : List ActiveDirectSessionInfo → Bytes
session_lines [] = []
session_lines (s ∷ ss) =
    utf8 "  Session "
    ++ s.session_id
    ++ utf8 " med "
    ++ s.peer_username
    ++ utf8 " @ "
    ++ s.peer_ip
    ++ utf8 "\n"
    ++ session_lines ss

unfoldable pub active_text : List ActiveDirectSessionInfo → Bytes
unfolding session_lines
active_text [] = utf8 "\n--- Aktive private samtaler (0) ---\n" ++ utf8 "  (ingen)\n"
active_text (s ∷ ss) =
    utf8 "\n--- Aktive private samtaler ("
    ++ to_string (length (s ∷ ss))
    ++ utf8 ") ---\n"
    ++ session_lines (s ∷ ss)
