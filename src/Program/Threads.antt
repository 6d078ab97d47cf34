-- ===== src/Program/Threads.antt =====
-- The threads of oblig1_chattsystem/src/main.cpp beside the menu: what each does in a turn of its
-- loop, and any interleaving of such turns.
use nettverk.Prelude.{ℕ, Bool, true, false, not, List, [], ◌∷◌, if◌then◌else◌}
use nettverk.Net.{Os}
use nettverk.Discovery.{send_presence_broadcast, prune_stale_peers}
use nettverk.Direct.Upkeep.{prune_pending, resend_outgoing_pending}
use nettverk.Groups.Messages.{broadcast_owned_advert}
use nettverk.Receive.{Services, Polled, run_receive_multiplex_loop}

-- `stopped_` of `InterruptibleSleep`.
pub record InterruptibleSleep : Type 0 where
  pub stopped : Bool

unfoldable pub request_stop : InterruptibleSleep → InterruptibleSleep
request_stop s = record s { stopped = true }

-- `sleep_for`, with the flag as it is when the wait is over.
unfoldable pub sleep_for : InterruptibleSleep → InterruptibleSleep → Bool
sleep_for before after = if before.stopped then false else not after.stopped

-- The flag before and after a sleep, and the clock at the three calls that read it.
pub record Turn : Type 0 where
  pub before : InterruptibleSleep
  pub after : InterruptibleSleep
  pub peers_now : ℕ
  pub pending_now : ℕ
  pub resend_now : ℕ

-- What the heartbeat thread does behind its sleep.
unfoldable pub beat : Os → Turn → Services → Services
unfolding send_presence_broadcast prune_stale_peers prune_pending resend_outgoing_pending
beat os t s =
    let (io1, ok) = send_presence_broadcast os s.discovery s.io in
    let users = prune_stale_peers s.users t.peers_now in
    let (direct2, io2) = prune_pending s.direct t.pending_now 30 io1 in
    let (direct3, io3) = resend_outgoing_pending os direct2 t.resend_now 6000 45 io2 in
    record s { users = users; direct = direct3; io = io3 }

-- A turn of the heartbeat thread, which begins where `running` is true; where the sleep was stopped,
-- the thread ends.
unfoldable pub heartbeat : Os → Turn → Services → Services
unfolding beat sleep_for
heartbeat os t s = if not (sleep_for t.before t.after) then s else beat os t s

-- A turn of the thread that announces the user's own room.
unfoldable pub group_advert : Os → Turn → Services → Services
unfolding sleep_for broadcast_owned_advert
group_advert os t s =
    if not (sleep_for t.before t.after)
    then s
    else record s { io = broadcast_owned_advert os s.groups s.io }

-- A turn of one of the three threads.
pub data Event : Type 0 where
  receives : Polled → Event
  beats : Turn → Event
  announces : Turn → Event

unfoldable pub other : Os → Services → Event → Services
unfolding heartbeat group_advert run_receive_multiplex_loop
other os s (receives p) = run_receive_multiplex_loop os (p ∷ []) s
other os s (beats t) = heartbeat os t s
other os s (announces t) = group_advert os t s

-- Turns, one after the other.
unfoldable pub run_others : Os → List Event → Services → Services
unfolding other
run_others os [] s = s
run_others os (e ∷ es) s = run_others os es (other os s e)
