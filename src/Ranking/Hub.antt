-- ===== src/Ranking/Hub.antt =====
-- internal/core/ranking/websocket.go: the hub of the scoreboard's connections. The hub's handlers run
-- one at a time, between the writers that empty the clients' channels and the requests that connect.
pub mod Rooms
pub mod Safe
pub mod Runs
pub mod Delivery
pub mod Quiet
pub mod Hears
pub mod Evicted
use my_oj.Prelude.{
  ℕ, Bool, true, false, not, ◌&&◌, ◌||◌, Option, none, some, List, [], ◌∷◌, ◌++◌, length, ltb, ◌==◌,
  if◌then◌else◌,
}
use my_oj.Prelude.Assoc.{get, set, delete}
use my_oj.Prelude.Sets.{has, remove, insert}
use my_oj.Models.Types.{Key}
use my_oj.Models.Judging.{Bytes}

-- A client is named by a number; what it stands for is its channel `send`.
abbrev pub Client : Type 0
Client = ℕ

-- A message of the channel: the snapshot that a client is sent when it connects, or a broadcast.
pub data Frame : Type 0 where
  snapshot : Bytes → Frame
  update : Bytes → Frame

-- The channel `send`, with the messages that the writer has taken from it.
pub record SendChannel : Type 0 where
  pub queue : List Frame
  pub closed : Bool
  pub taken : List Frame

abbrev pub send_buf_size : ℕ
send_buf_size = 64

abbrev pub new_channel : SendChannel
new_channel = record { queue = []; closed = false; taken = [] }

-- `rooms` is the hub's map. `joined` are the clients that have registered, `hub_panicked` says that the
-- hub has sent on a closed channel or closed one twice, and `serve_panicked` that `ServeWS` has sent on
-- a closed one. `running` ends with the context.
pub record Hub : Type 0 where
  pub rooms : List (Key × List Client)
  pub channel : Client → SendChannel
  pub joined : List Client
  pub running : Bool
  pub hub_panicked : Bool
  pub serve_panicked : Bool

unfoldable pub new_hub : Hub
new_hub = record {
  rooms = [];
  channel = λ c. new_channel;
  joined = [];
  running = true;
  hub_panicked = false;
  serve_panicked = false;
}

abbrev pub put_channel : Client → SendChannel → Hub → Hub
put_channel c ch h = record h { channel = λ d. if c == d then ch else h.channel d }

abbrev pub members : Option (List Client) → List Client
members none = []
members (some room) = room

-- The clients of a contest.
abbrev pub room_of : Key → List (Key × List Client) → List Client
room_of k rooms = members (get k rooms)

-- `close(client.send)`.
abbrev pub close_channel : Client → Hub → Hub
close_channel c h =
    if (h.channel c).closed
    then record h { hub_panicked = true }
    else put_channel c (record (h.channel c) { closed = true }) h

unfoldable pub handle_register : Client → Key → Hub → Hub
handle_register c k h = record h { rooms = set k (insert c (room_of k h.rooms)) h.rooms }

abbrev pub without_client : Key → List Client → List (Key × List Client) → List (Key × List Client)
without_client k [] rooms = delete k rooms
without_client k (c ∷ room) rooms = set k (c ∷ room) rooms

abbrev pub unregister_in : Client → Key → Hub → Option (List Client) → Hub
unregister_in c k h none = h
unregister_in c k h (some room) =
    if has c room
    then close_channel c (record h { rooms = without_client k (remove c room) h.rooms })
    else h

unfoldable pub handle_unregister : Client → Key → Hub → Hub
handle_unregister c k h = unregister_in c k h (get k h.rooms)

-- One round of the loop of `handleBroadcast`: a send, or the eviction of a client whose channel is full.
unfoldable pub send_or_evict : Bytes → Key → Client → Hub → Hub
send_or_evict payload k c h =
    let ch = h.channel c in
    if ch.closed
    then record h { hub_panicked = true }
    else if ltb (length ch.queue) send_buf_size
    then put_channel c (record ch { queue = ch.queue ++ (update payload ∷ []) }) h
    else close_channel c (record h { rooms = set k (remove c (room_of k h.rooms)) h.rooms })

unfoldable pub broadcast_to : Bytes → Key → List Client → Hub → Hub
broadcast_to payload k [] h = h
broadcast_to payload k (c ∷ cs) h = broadcast_to payload k cs (send_or_evict payload k c h)

-- `handleBroadcast`.
unfoldable pub handle_broadcast : Bytes → Key → Hub → Hub
handle_broadcast payload k h = broadcast_to payload k (room_of k h.rooms) h

unfoldable pub close_all : List Client → Hub → Hub
close_all [] h = h
close_all (c ∷ cs) h = close_all cs (close_channel c h)

unfoldable pub close_rooms : List (Key × List Client) → Hub → Hub
close_rooms [] h = h
close_rooms ((k, room) ∷ rooms) h = close_rooms rooms (close_all room h)

-- `shutdownAllClients`.
unfoldable pub shutdown_all_clients : Hub → Hub
shutdown_all_clients h = record (close_rooms h.rooms h) { rooms = [] }

-- The snapshot that `ServeWS` sends to its client; on a full channel it waits.
unfoldable pub send_snapshot : Client → Bytes → Hub → Hub
send_snapshot c payload h =
    let ch = h.channel c in
    if ch.closed
    then record h { serve_panicked = true }
    else if ltb (length ch.queue) send_buf_size
    then put_channel c (record ch { queue = ch.queue ++ (snapshot payload ∷ []) }) h
    else h

abbrev pub take_first : SendChannel → List Frame → SendChannel
take_first ch [] = ch
take_first ch (f ∷ fs) = record ch { queue = fs; taken = ch.taken ++ (f ∷ []) }

-- The writer takes a message, also from a closed channel.
unfoldable pub write_pump : Client → Hub → Hub
write_pump c h = put_channel c (take_first (h.channel c) (h.channel c).queue) h

-- What happens at a hub: a new client connects to a contest, its snapshot comes, its writer takes a
-- message, its connection ends, the hub takes a message of a contest from its queue, and the context
-- ends.
pub data Event : Type 0 where
  connects : Client → Event
  snapshot_comes : Client → Bytes → Event
  writes : Client → Event
  leaves : Client → Event
  broadcasts : Key → Bytes → Event
  cancelled : Event

module _ (contest_of : Client → Key) where
  abbrev pub connect : Client → Hub → Hub
  connect c h = handle_register c (contest_of c) (record h { joined = c ∷ h.joined })

  -- The hub handles nothing after the end of its context. Each connection is a new client.
  unfoldable pub step : Event → Hub → Hub
  step (connects c) h = if h.running && not (has c h.joined) then connect c h else h
  step (snapshot_comes c payload) h = if has c h.joined then send_snapshot c payload h else h
  step (writes c) h = if has c h.joined then write_pump c h else h
  step (leaves c) h =
      if h.running && has c h.joined then handle_unregister c (contest_of c) h else h
  step (broadcasts k payload) h = if h.running then handle_broadcast payload k h else h
  step cancelled h = if h.running then record (shutdown_all_clients h) { running = false } else h

  unfoldable pub run : List Event → Hub → Hub
  run [] h = h
  run (e ∷ es) h = run es (step e h)
