-- ===== src/Network/Acts.antt =====
-- What a copy does by itself adds nothing to its traffic but lines under its own name.
use nettverk.Prelude.{refl, ◌≡◌, Bytes}
use nettverk.Net.{Os}
use nettverk.Io.{Effect}
use nettverk.Trim.{trim_in_place}
use nettverk.Groups.State.{list_advertised_rooms, prune_registry_unlocked}
use nettverk.Receive.{Services}
use nettverk.Program.Traffic.{Voice}
use nettverk.Program.Traffic.Rooms.{create-Says, say-Says, join-Says, leave-Says}
use nettverk.Program.Traffic.Sessions.{accept-Says, decline-Says, invite-Says, private_chat-Admits}
use nettverk.Program.Traffic.Threads.{
  Speaks, io-Speaks, rooms-Speaks, direct-Speaks, heartbeat-Speaks, group_advert-Speaks,
  first-Speaks,
}
use nettverk.Program.Traffic.Typed.{chat-Admits}
use nettverk.Network.{
  Call, Texts, act, says_first, says_lobby, lists_rooms, creates_room, joins_room, leaves_room,
  says_group, invites, accepts, declines, says_private, beats, announces,
}

module _ (T : Bytes → Type 0) (u : Bytes) (Q : Effect → Type 0) (v : Voice T u Q) (os : Os)
    (clean : trim_in_place u ≡ u) where
  pub act-Speaks :
      (s : Services) (c : Call)
      → ((p : Bytes) → Texts c p → T p)
      → Speaks u Q s
      → Speaks u Q (act os u s c)
  unfolding act list_advertised_rooms prune_registry_unlocked
  act-Speaks s says_first f h = first-Speaks T u Q v os s h
  act-Speaks s (says_lobby text) f h =
      io-Speaks u Q s _ h (chat-Admits T u Q v os s.lobby u text s.io clean h.admits (f _ refl))
  act-Speaks s (lists_rooms now) f h = rooms-Speaks u Q s _ s.io h (h.named.groups, h.admits)
  act-Speaks s (creates_room name) f h =
      rooms-Speaks u Q s _ _ h
        (create-Says T u Q v os s.groups name s.io (h.named.groups, h.admits))
  act-Speaks s (joins_room name now) f h =
      rooms-Speaks u Q s _ _ h (join-Says u Q os s.groups s.io (h.named.groups, h.admits) name now)
  act-Speaks s leaves_room f h =
      rooms-Speaks u Q s _ _ h (leave-Says u Q os s.groups s.io (h.named.groups, h.admits))
  act-Speaks s (says_group text) f h =
      rooms-Speaks u Q s _ _ h
        (say-Says T u Q v os s.groups text s.io (h.named.groups, h.admits) (f _ refl))
  act-Speaks s (invites who random now) f h =
      direct-Speaks u Q s _ _ h
        (invite-Says T u Q v os s.users s.direct who random now s.io (h.named.direct, h.admits))
  act-Speaks s (accepts sid now) f h =
      direct-Speaks u Q s _ _ h (accept-Says u Q s.direct s.io (h.named.direct, h.admits) sid now)
  act-Speaks s (declines sid reason) f h =
      direct-Speaks u Q s _ _ h
        (decline-Says u Q s.direct s.io (h.named.direct, h.admits) sid reason)
  act-Speaks s (says_private sid text) f h =
      io-Speaks u Q s _ h (
        private_chat-Admits T u Q v os s.direct sid text s.io (h.named.direct, h.admits) (f _ refl))
  act-Speaks s (beats t) f h = heartbeat-Speaks T u Q v os t s h
  act-Speaks s (announces t) f h = group_advert-Speaks T u Q v os t s h
