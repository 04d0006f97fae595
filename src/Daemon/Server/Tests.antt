-- ===== src/Daemon/Server/Tests.antt =====
-- crates/lightwatch-daemon/src/server.rs: the statements on two emitters of one program.
use lightwatch.Base.{
  ℕ, ◌*◌, ◌/◌, ◌≡◌, refl, leb, true, List, [], ◌∷◌, map, All, some, none, get, text_key,
}
use lightwatch.Proto.Wire.{Hello, new_hello}
use lightwatch.Daemon.Store.State.{
  new_state, id_of_hello, process_id, decimal, digits, process_ended,
}
use lightwatch.Daemon.Store.Registry.{Registry}
use lightwatch.Daemon.Session.{cpu_feed, census_source, pair_sessions}
use lightwatch.Daemon.Api.Shapes.{coarse, parse_resolution}
use lightwatch.Daemon.Api.Snapshot.{Floats, session_stream_message}
use lightwatch.Daemon.Server.{
  SnapshotParams, asked_resolution, Turn, cpu_turn, memory_turn, client_left, update, lagged,
  fan_in,
}
use lightwatch.Daemon.Server.Served.{IsKeyed, IsServed, pair_sessions-IsServed}
use lightwatch.Daemon.Server.Feeds.{tagged_with, fan_in-tagged_with}

abbrev whole_floats : Floats
whole_floats = record {
  Float = ℕ;
  of_u64 = λ n. n;
  times = λ a b. a * b;
  over = λ a b. a / b;
  at_most = leb;
}

abbrev census_hello : Hello
census_hello = new_hello [] census_source 7 1000

abbrev calls_hello : Hello
calls_hello = new_hello [] (b'h' ∷ []) 7 1030

abbrev both : Registry
both =
    (id_of_hello census_hello, new_state (id_of_hello census_hello) census_hello)
    ∷ (id_of_hello calls_hello, new_state (id_of_hello calls_hello) calls_hello)
    ∷ []

both-IsKeyed : IsKeyed both
unfolding get new_state id_of_hello process_id decimal digits new_hello
both-IsKeyed = (refl, (refl, tt))

abbrev coarse_params : SnapshotParams
coarse_params = record {
  resolution = some (b'c' ∷ b'o' ∷ b'a' ∷ b'r' ∷ b's' ∷ b'e' ∷ []);
  limit = none;
}

asks_coarse : asked_resolution coarse_params.resolution ≡ some coarse
unfolding parse_resolution
asks_coarse = refl

pair_sessions-IsServed_example :
    All (IsServed whole_floats both coarse_params 2000 coarse) (pair_sessions both)
pair_sessions-IsServed_example =
    pair_sessions-IsServed whole_floats both coarse_params 2000 coarse both-IsKeyed asks_coarse

abbrev some_turns : List Turn
some_turns =
    cpu_turn (update (process_ended 5)) true
    ∷ memory_turn (update (process_ended 6)) true
    ∷ cpu_turn (lagged 3) true
    ∷ cpu_turn (update (process_ended 7)) true
    ∷ client_left
    ∷ cpu_turn (update (process_ended 8)) true
    ∷ []

fan_in-tagged_with_example :
    tagged_with cpu_feed (fan_in [] (b'a' ∷ []) (b'b' ∷ []) some_turns)
    ≡ map (session_stream_message [] cpu_feed (b'a' ∷ [])) (process_ended 5 ∷ process_ended 7 ∷ [])
fan_in-tagged_with_example = fan_in-tagged_with [] (b'a' ∷ []) (b'b' ∷ []) some_turns cpu_feed
