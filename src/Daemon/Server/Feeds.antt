-- ===== src/Daemon/Server/Feeds.antt =====
-- crates/lightwatch-daemon/src/server.rs: what one socket is sent of each of its two feeds.
use lightwatch.Base.{
  ◌≡◌, refl, ap, Bool, true, false, List, [], ◌∷◌, map, if◌then◌else◌, Text, key_eq, text_key, ◌++◌,
}
use lightwatch.Daemon.Store.State.{ProcessId, Update}
use lightwatch.Daemon.Session.{Feed, cpu_feed, memory_feed}
use lightwatch.Daemon.Api.Shapes.{SessionStreamMessage}
use lightwatch.Daemon.Api.Snapshot.{session_stream_message, feed_text}
use lightwatch.Daemon.Server.{
  Received, update, lagged, closed, Turn, cpu_turn, memory_turn, client_spoke, client_left, fan_in,
  tagged,
}

-- The turn after which the socket is left: the client is gone, a feed is closed, or a message could not
-- be written.
abbrev pub ends_with : Received → Bool → Bool
ends_with (update u) written = if written then false else true
ends_with (lagged missed) written = false
ends_with closed written = true

abbrev pub ends : Turn → Bool
ends (cpu_turn received written) = ends_with received written
ends (memory_turn received written) = ends_with received written
ends client_spoke = false
ends client_left = true

-- The turns before that one.
abbrev pub until_end : List Turn → List Turn
until_end [] = []
until_end (t ∷ turns) = let rest = until_end turns in if ends t then [] else t ∷ rest

abbrev pub updates_in : Received → List Update
updates_in (update u) = u ∷ []
updates_in (lagged missed) = []
updates_in closed = []

-- What one feed gave.
abbrev pub given : Feed → Turn → List Update
given cpu_feed (cpu_turn received written) = updates_in received
given memory_feed (memory_turn received written) = updates_in received
given _ _ = []

abbrev pub feed_updates : Feed → List Turn → List Update
feed_updates feed [] = []
feed_updates feed (t ∷ turns) = given feed t ++ feed_updates feed turns

-- The messages that carry the feed's name.
abbrev pub tagged_with : Feed → List SessionStreamMessage → List SessionStreamMessage
tagged_with feed [] = []
tagged_with feed (m ∷ ms) =
    let rest = tagged_with feed ms in if key_eq m.feed (feed_text feed) then m ∷ rest else rest

abbrev pub id_for : Feed → ProcessId → ProcessId → ProcessId
id_for cpu_feed cpu_id memory_id = cpu_id
id_for memory_feed cpu_id memory_id = memory_id

-- Whatever the feeds give and the client does, in any order: the messages that a session's socket is
-- sent under the name of a feed are exactly those of the updates that this feed gave before the
-- socket was left, each of them once, in order, with the feed's process.
pub fan_in-tagged_with :
    (session_id : Text) (cpu_id memory_id : ProcessId) (turns : List Turn) (feed : Feed)
    → tagged_with feed (fan_in session_id cpu_id memory_id turns)
      ≡ map
          (session_stream_message session_id feed (id_for feed cpu_id memory_id))
          (feed_updates feed (until_end turns))
unfolding fan_in tagged session_stream_message
fan_in-tagged_with sid c m [] feed = refl
fan_in-tagged_with sid c m (cpu_turn (update u) false ∷ turns) feed = refl
fan_in-tagged_with sid c m (cpu_turn (update u) true ∷ turns) cpu_feed =
    ap (λ ms. session_stream_message sid cpu_feed c u ∷ ms)
      (fan_in-tagged_with sid c m turns cpu_feed)
fan_in-tagged_with sid c m (cpu_turn (update u) true ∷ turns) memory_feed =
    fan_in-tagged_with sid c m turns memory_feed
fan_in-tagged_with sid c m (cpu_turn (lagged n) written ∷ turns) cpu_feed =
    fan_in-tagged_with sid c m turns cpu_feed
fan_in-tagged_with sid c m (cpu_turn (lagged n) written ∷ turns) memory_feed =
    fan_in-tagged_with sid c m turns memory_feed
fan_in-tagged_with sid c m (cpu_turn closed written ∷ turns) feed = refl
fan_in-tagged_with sid c m (memory_turn (update u) false ∷ turns) feed = refl
fan_in-tagged_with sid c m (memory_turn (update u) true ∷ turns) memory_feed =
    ap (λ ms. session_stream_message sid memory_feed m u ∷ ms)
      (fan_in-tagged_with sid c m turns memory_feed)
fan_in-tagged_with sid c m (memory_turn (update u) true ∷ turns) cpu_feed =
    fan_in-tagged_with sid c m turns cpu_feed
fan_in-tagged_with sid c m (memory_turn (lagged n) written ∷ turns) cpu_feed =
    fan_in-tagged_with sid c m turns cpu_feed
fan_in-tagged_with sid c m (memory_turn (lagged n) written ∷ turns) memory_feed =
    fan_in-tagged_with sid c m turns memory_feed
fan_in-tagged_with sid c m (memory_turn closed written ∷ turns) feed = refl
fan_in-tagged_with sid c m (client_spoke ∷ turns) cpu_feed =
    fan_in-tagged_with sid c m turns cpu_feed
fan_in-tagged_with sid c m (client_spoke ∷ turns) memory_feed =
    fan_in-tagged_with sid c m turns memory_feed
fan_in-tagged_with sid c m (client_left ∷ turns) feed = refl
