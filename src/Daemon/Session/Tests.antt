-- ===== src/Daemon/Session/Tests.antt =====
-- crates/lightwatch-daemon/src/session.rs: two emitters of one process.
use lightwatch.Base.{◌≡◌, refl, true, false, List, [], ◌∷◌, map, some, none}
use lightwatch.Proto.Wire.{new_hello}
use lightwatch.Daemon.Store.Registry.{Registry, empty, connect, all}
use lightwatch.Daemon.Session.{
  Member, cpu_feed, member, session, pair_sessions, census_source, outranks,
}
use lightwatch.Daemon.Session.Conserve.{
  total, session_total, sessions_total, session-total, pair_sessions-total,
}
use lightwatch.Daemon.Session.Best.{Outshone, speaker, session-Outshone}

abbrev example_registry : Registry
example_registry =
    connect (new_hello [] census_source 7 1000) (connect (new_hello [] (b'h' ∷ []) 7 1030) empty)

-- The old bridge is gone, the new one lives.
abbrev old_bridge : Member
old_bridge = record {
  process_id = b'a' ∷ [];
  feed = cpu_feed;
  source = b'h' ∷ [];
  started_unix_ms = 1050;
  ended_unix_ms = some 2000;
  connected = false;
  last_frame_unix_ms = none;
}

abbrev new_bridge : Member
new_bridge = record {
  process_id = b'b' ∷ [];
  feed = cpu_feed;
  source = b'h' ∷ [];
  started_unix_ms = 1040;
  ended_unix_ms = none;
  connected = true;
  last_frame_unix_ms = none;
}

abbrev example_run : List Member
example_run = new_bridge ∷ old_bridge ∷ []

old_loses : outranks new_bridge old_bridge ≡ true
unfolding outranks
old_loses = refl

session-total_example :
    session_total (λ m. m.started_unix_ms) (session [] 7 example_run)
    ≡ total (λ m. m.started_unix_ms) example_run
session-total_example = session-total (λ m. m.started_unix_ms) [] 7 example_run

pair_sessions-total_example :
    sessions_total (λ m. m.started_unix_ms) (pair_sessions example_registry)
    ≡ total (λ m. m.started_unix_ms) (map member (all example_registry))
pair_sessions-total_example = pair_sessions-total (λ m. m.started_unix_ms) example_registry

session-Outshone_example : Outshone old_bridge (speaker old_bridge.feed (session [] 7 example_run))
session-Outshone_example = session-Outshone [] 7 example_run 1 old_bridge refl
