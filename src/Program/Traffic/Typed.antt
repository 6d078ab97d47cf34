-- ===== src/Program/Traffic/Typed.antt =====
-- What the menu says: nothing but lines under the program's own name.
use nettverk.Prelude.{
  Bool, false, ℕ, ◌≡◌, Bytes, arith, if_holds, not, ◌||◌, is_empty, ltb, length, Bool-cases, inl,
  inr,
}
use nettverk.Net.{Os}
use nettverk.Io.{Io, Effect, send_udp}
use nettverk.Trim.{trim_in_place}
use nettverk.Secp.{chat, build_secp_line, max_username_bytes, max_chat_message_bytes}
use nettverk.Lobby.{LobbyService, send_chat, usn_chat}
use nettverk.Groups.State.{list_advertised_rooms, prune_registry_unlocked}
use nettverk.Receive.{Services}
use nettverk.Menu.Console.{World, Menu, put, get_line}
use nettverk.Menu.Loop.Keeps.{Keeps}
use nettverk.Program.Traffic.{traffic, Voice, Admits, speaks}
use nettverk.Program.Traffic.Rooms.{join-Says, leave-Says, create-Says, say-Says}
use nettverk.Program.Traffic.Sessions.{accept-Says, decline-Says, invite-Says, private_chat-Admits}
use nettverk.Program.Traffic.Threads.{Speaks, io-Speaks, rooms-Speaks, direct-Speaks}

module _ (T : Bytes → Type 0) (u : Bytes) (Q : Effect → Type 0) (v : Voice T u Q) (os : Os) where
  pub chat-Admits :
      (l : LobbyService) (username text : Bytes) (io : Io)
      → trim_in_place username ≡ u
      → Admits Q io.out
      → T (trim_in_place text)
      → Admits Q (send_chat os l username text io).0.out
  unfolding send_chat send_udp traffic
  chat-Admits l username text io n h typed =
      let P = λ (r : Io × Bool). Admits Q r.0.out in
      let name = trim_in_place username in
      let t = trim_in_place text in
      if_holds P (not l.socket) {x = (io, false)} h (
        if_holds P (is_empty name || is_empty t) {x = (io, false)} h (
          if_holds P (ltb max_username_bytes (length name) || ltb max_chat_message_bytes (length t))
            {x = (io, false)} h
            (elim (Bool-cases (is_empty (build_secp_line chat usn_chat name t))) [
              | inl b ↦ rw b h
              | inr b ↦ rw b (speaks T u Q v name chat usn_chat t _ _ _ n b (λ e. typed), h)
            ])))

  -- What the other threads do while the menu waits.
  get_line-Speaks :
      (w : World) (m : Menu)
      → ((n : ℕ) (s : Services) → Speaks u Q s → Speaks u Q (w.others n s))
      → Speaks u Q m.services
      → Speaks u Q (get_line w m).0.services
  unfolding get_line
  get_line-Speaks w m others h = let h' = others m.asked m.services h in ground (arith, h')

  pub Speaks-Keeps :
      (w : World)
      → ((text : Bytes) → T text)
      → trim_in_place u ≡ u
      → ((n : ℕ) (s : Services) → Speaks u Q s → Speaks u Q (w.others n s))
      → Keeps os w u (λ m. Speaks u Q m.services)
  unfolding put traffic list_advertised_rooms prune_registry_unlocked
  Speaks-Keeps w any clean others = record {
    puts = λ m t h. io-Speaks u Q m.services _ h h.admits;
    complains = λ m t h. io-Speaks u Q m.services _ h h.admits;
    reads = λ m h. get_line-Speaks w m others h;
    chats = λ m msg h.
        let s = m.services in
        io-Speaks u Q s _ h (chat-Admits s.lobby u msg s.io clean h.admits (any _));
    lists = λ m now h. rooms-Speaks u Q m.services _ _ h (h.named.groups, h.admits);
    creates = λ m name h.
        let s = m.services in
        rooms-Speaks u Q s _ _ h
          (create-Says T u Q v os s.groups name s.io (h.named.groups, h.admits));
    joins = λ m name now h.
        let s = m.services in
        rooms-Speaks u Q s _ _ h
          (join-Says u Q os s.groups s.io (h.named.groups, h.admits) name now);
    leaves = λ m h.
        let s = m.services in
        rooms-Speaks u Q s _ _ h (leave-Says u Q os s.groups s.io (h.named.groups, h.admits));
    group_chats = λ m msg h.
        let s = m.services in
        rooms-Speaks u Q s _ _ h
          (say-Says T u Q v os s.groups msg s.io (h.named.groups, h.admits) (any _));
    invites = λ m who random now h.
        let s = m.services in
        direct-Speaks u Q s _ _ h
          (invite-Says T u Q v os s.users s.direct who random now s.io (h.named.direct, h.admits));
    accepts = λ m sid now h.
        let s = m.services in
        direct-Speaks u Q s _ _ h
          (accept-Says u Q s.direct s.io (h.named.direct, h.admits) sid now);
    declines = λ m sid reason h.
        let s = m.services in
        direct-Speaks u Q s _ _ h
          (decline-Says u Q s.direct s.io (h.named.direct, h.admits) sid reason);
    private_chats = λ m sid msg h.
        let s = m.services in
        io-Speaks u Q s _ h
          (private_chat-Admits T u Q v os s.direct sid msg s.io (h.named.direct, h.admits) (any _));
  }
