-- ===== src/Daemon/Session/Conserve.antt =====
-- crates/lightwatch-daemon/src/session.rs: what the pairing does with the processes it is given.
use lightwatch.Base.{
  ℕ, ◌+◌, ◌≡◌, refl, ◌∙◌, List, [], ◌∷◌, ◌++◌, map, Option, none, some, inl, inr, Bool-cases,
  Option-cases, arith, Map, text_key, nat_key, pair_key, get, insert, IsAscending,
  insert-IsAscending, sum_map, sum_map-insert_new, sum_map-insert_held,
}
use lightwatch.Daemon.Window.{or_default}
use lightwatch.Daemon.Store.State.{ProcessState}
use lightwatch.Daemon.Store.Registry.{Registry, all}
use lightwatch.Daemon.Session.{
  Feed, cpu_feed, memory_feed, Member, Session, member, place_by_start, sort_by_start, split_runs,
  runs_of, runs, outranks, Slots, contend, seat_in, seat_all, no_slots, place_newest, sort_newest,
  session, Target, group, sessions_of_runs, sessions_of, goes_before, place_session, sort_sessions,
  pair_sessions,
}

module _ (w : Member → ℕ) where
  -- The weight of some members, of a slot, of a session.
  abbrev pub total : List Member → ℕ
  total [] = 0
  total (m ∷ ms) = w m + total ms

  abbrev pub slot_total : Option Member → ℕ
  slot_total none = 0
  slot_total (some m) = w m

  abbrev pub session_total : Session → ℕ
  session_total s = slot_total s.cpu + slot_total s.memory + total s.superseded

  abbrev pub sessions_total : List Session → ℕ
  sessions_total [] = 0
  sessions_total (s ∷ ss) = session_total s + sessions_total ss

  abbrev slots_total : Slots → ℕ
  slots_total s = slot_total s.cpu + slot_total s.memory + total s.superseded

  abbrev runs_total : List (List Member) → ℕ
  runs_total [] = 0
  runs_total (run ∷ rest) = total run + runs_total rest

  total-append : (xs ys : List Member) → total (xs ++ ys) ≡ total xs + total ys
  total-append [] ys = omega arith
  total-append (x ∷ xs) ys = omega (arith, total-append xs ys)

  total-place_by_start :
      (m : Member) (ms : List Member) → total (place_by_start m ms) ≡ w m + total ms
  unfolding place_by_start
  total-place_by_start m [] = refl
  total-place_by_start m (n ∷ ms) = ground (arith, total-place_by_start m ms)

  total-sort_by_start : (ms : List Member) → total (sort_by_start ms) ≡ total ms
  unfolding sort_by_start
  total-sort_by_start [] = refl
  total-sort_by_start (m ∷ ms) =
      omega (arith, total-place_by_start m (sort_by_start ms), total-sort_by_start ms)

  total-place_newest : (m : Member) (ms : List Member) → total (place_newest m ms) ≡ w m + total ms
  unfolding place_newest
  total-place_newest m [] = refl
  total-place_newest m (n ∷ ms) = ground (arith, total-place_newest m ms)

  total-sort_newest : (ms : List Member) → total (sort_newest ms) ≡ total ms
  unfolding sort_newest
  total-sort_newest [] = refl
  total-sort_newest (m ∷ ms) =
      omega (arith, total-place_newest m (sort_newest ms), total-sort_newest ms)

  total-split_runs :
      (before : List Member) (last : Member) (ms : List Member)
      → runs_total (split_runs before last ms) ≡ total before + w last + total ms
  unfolding split_runs
  total-split_runs before last [] = omega (arith, total-append before (last ∷ []))
  total-split_runs before last (m ∷ ms) = ground (
    arith,
    total-append before (last ∷ []),
    total-split_runs (before ++ (last ∷ [])) m ms,
    total-split_runs [] m ms,
  )

  total-runs : (ms : List Member) → runs_total (runs ms) ≡ total ms
  unfolding runs
  total-runs ms = of_sorted (sort_by_start ms) ∙ total-sort_by_start ms
    where
      of_sorted : (ms : List Member) → runs_total (runs_of ms) ≡ total ms
      of_sorted [] = refl
      of_sorted (m ∷ ms) = omega (arith, total-split_runs [] m ms)

  total-contend :
      (slot : Option Member) (m : Member)
      → slot_total (contend slot m).0 + total (contend slot m).1 ≡ slot_total slot + w m
  unfolding contend
  total-contend none m = omega arith
  total-contend (some held) m = elim (Bool-cases (outranks held m)) [
    | inl better ↦ rw better (omega arith)
    | inr worse ↦ rw worse (omega arith)
  ]

  total-seat_in :
      (feed : Feed) (s : Slots) (m : Member) → slots_total (seat_in feed s m) ≡ slots_total s + w m
  total-seat_in cpu_feed s m =
      omega (arith, total-contend s.cpu m, total-append s.superseded (contend s.cpu m).1)
  total-seat_in memory_feed s m =
      omega (arith, total-contend s.memory m, total-append s.superseded (contend s.memory m).1)

  total-seat_all :
      (s : Slots) (ms : List Member) → slots_total (seat_all s ms) ≡ slots_total s + total ms
  unfolding seat_all
  total-seat_all s [] = omega arith
  total-seat_all s (m ∷ ms) =
      omega (arith, total-seat_all (seat_in m.feed s m) ms, total-seat_in m.feed s m)

  -- Every entry of a run stands in the session of the run exactly once, in one of its slots or among
  -- the superseded: any weight of the entries adds up to the same over both.
  pub session-total :
      (app : List ℕ) (pid : ℕ) (run : List Member) → session_total (session app pid run) ≡ total run
  unfolding session
  session-total app pid run =
      let slots = seat_all no_slots run in
      omega (arith, total-seat_all no_slots run, total-sort_newest slots.superseded)

  total-sessions_of_runs :
      (app : List ℕ) (pid : ℕ) (rs : List (List Member))
      → sessions_total (sessions_of_runs app pid rs) ≡ runs_total rs
  unfolding sessions_of_runs
  total-sessions_of_runs app pid [] = refl
  total-sessions_of_runs app pid (run ∷ rest) =
      omega (arith, session-total app pid run, total-sessions_of_runs app pid rest)

  sessions_total-append :
      (xs ys : List Session) → sessions_total (xs ++ ys) ≡ sessions_total xs + sessions_total ys
  sessions_total-append [] ys = omega arith
  sessions_total-append (x ∷ xs) ys = omega (arith, sessions_total-append xs ys)

  abbrev grouped : Map Target (List Member) → ℕ
  grouped m = sum_map (λ target ms. total ms) m

  total-sessions_of : (m : Map Target (List Member)) → sessions_total (sessions_of m) ≡ grouped m
  unfolding sessions_of
  total-sessions_of [] = refl
  total-sessions_of ((target, ms) ∷ m) =
      let here = sessions_of_runs target.0 target.1 (runs ms) in
      omega (
        arith,
        sessions_total-append here (sessions_of m),
        total-sessions_of_runs target.0 target.1 (runs ms),
        total-runs ms,
        total-sessions_of m,
      )

  grouped-insert :
      (target : Target) (x : Member) (m : Map Target (List Member))
      → IsAscending m
      → grouped (insert target (or_default [] (get target m) ++ (x ∷ [])) m) ≡ grouped m + w x
  grouped-insert target x m asc = elim (Option-cases (get target m)) [
    | inl new ↦
        rw new (omega (arith, sum_map-insert_new (λ target ms. total ms) target (x ∷ []) m new))
    | inr (ms, held) ↦ rw held (
        omega (
          arith,
          sum_map-insert_held (λ target ms. total ms) target (ms ++ (x ∷ [])) ms m asc held,
          total-append ms (x ∷ []),
        ))
  ]

  total-group :
      (ps : List ProcessState) (m : Map Target (List Member))
      → IsAscending m
      → grouped (group ps m) ≡ grouped m + total (map member ps)
  unfolding group
  total-group [] m asc = omega arith
  total-group (p ∷ ps) m asc =
      let target : Target = (p.app, p.pid) in
      let ms = or_default [] (get target m) ++ (member p ∷ []) in
      omega (
        arith,
        total-group ps (insert target ms m) (insert-IsAscending target ms m asc),
        grouped-insert target (member p) m asc,
      )

  sessions_total-place :
      (s : Session) (ss : List Session)
      → sessions_total (place_session s ss) ≡ session_total s + sessions_total ss
  unfolding place_session
  sessions_total-place s [] = refl
  sessions_total-place s (t ∷ ts) = elim (Bool-cases (goes_before s t)) [
    | inl first ↦ rw first refl
    | inr later ↦ rw later (omega (arith, sessions_total-place s ts))
  ]

  sessions_total-sort : (ss : List Session) → sessions_total (sort_sessions ss) ≡ sessions_total ss
  unfolding sort_sessions
  sessions_total-sort [] = refl
  sessions_total-sort (s ∷ ss) =
      omega (arith, sessions_total-place s (sort_sessions ss), sessions_total-sort ss)

  -- Every process of the registry stands in exactly one session, exactly once: any weight of the
  -- entries adds up over all sessions to what it adds up to over all processes.
  pub pair_sessions-total :
      (registry : Registry)
      → sessions_total (pair_sessions registry) ≡ total (map member (all registry))
  unfolding pair_sessions
  pair_sessions-total registry = omega (
    arith,
    sessions_total-sort (sessions_of (group (all registry) [])),
    total-sessions_of (group (all registry) []),
    total-group (all registry) [] tt,
  )
