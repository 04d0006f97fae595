-- ===== src/Daemon/Server/Served.antt =====
-- crates/lightwatch-daemon/src/server.rs: what a session list names, the snapshot route answers.
use lightwatch.Base.{
  ℕ, ◌≡◌, refl, ◌∙◌, List, [], ◌∷◌, map, Option, none, some, if◌then◌else◌, arith, All, text_key,
  get, is_some, Option-cases, inl, inr,
}
use lightwatch.Daemon.Store.State.{ProcessState}
use lightwatch.Daemon.Store.Registry.{Registry, all}
use lightwatch.Daemon.Session.{Session, Member, member, pair_sessions}
use lightwatch.Daemon.Session.Conserve.{total, slot_total, sessions_total, pair_sessions-total}
use lightwatch.Daemon.Api.Shapes.{Resolution}
use lightwatch.Daemon.Api.Snapshot.{Floats, snapshot}
use lightwatch.Daemon.Server.{
  SnapshotParams, answered, asked_resolution, asked_limit, snapshot_route,
}

-- Every process stands under its own id.
abbrev pub IsKeyed : Registry → Type 0
IsKeyed r = All (λ p. get p.1.id r ≡ some p.1) r

-- 1 for a member whose process the registry does not have.
abbrev missing : Registry → Member → ℕ
missing r m = if is_some (get m.process_id r) then 0 else 1

none_missing :
    (r entries : Registry)
    → All (λ p. get p.1.id r ≡ some p.1) entries
    → total (missing r) (map member (all entries)) ≡ 0
unfolding all member
none_missing r [] h = refl
none_missing r ((id, s) ∷ entries) h = rw h.0 (omega (arith, none_missing r entries h.1))

module _ (floats : Floats) (r : Registry) (params : SnapshotParams) (now : ℕ)
    (resolution : Resolution) where
  -- The route answers for the process of the member, with its snapshot in the resolution asked for.
  abbrev pub Served : Member → Type 0
  Served m =
      (s : ProcessState) × (get m.process_id r ≡ some s)
      × (snapshot_route floats r m.process_id params now
          ≡ answered (
              snapshot floats s now
                (record { resolution = resolution; limit = asked_limit params.limit })))

  abbrev pub SlotServed : Option Member → Type 0
  SlotServed none = Unit {0}
  SlotServed (some m) = Served m

  -- Every member of the session is served.
  pub record IsServed (session : Session) : Type 0 where
    pub cpu : SlotServed session.cpu
    pub memory : SlotServed session.memory
    pub superseded : All Served session.superseded

  held-Served :
      (m : Member)
      → asked_resolution params.resolution ≡ some resolution
      → missing r m ≡ 0
      → Served m
  unfolding snapshot_route
  held-Served m asked h = elim (Option-cases (get m.process_id r)) [
    | inl gone ↦ absurd (ground arith)
    | inr (s, there) ↦ (s, there, rw (asked, there) refl)
  ]

  slot-Served :
      (o : Option Member)
      → asked_resolution params.resolution ≡ some resolution
      → slot_total (missing r) o ≡ 0
      → SlotServed o
  slot-Served none asked h = tt
  slot-Served (some m) asked h = held-Served m asked h

  list-Served :
      (ms : List Member)
      → asked_resolution params.resolution ≡ some resolution
      → total (missing r) ms ≡ 0
      → All Served ms
  list-Served [] asked h = tt
  list-Served (m ∷ ms) asked h =
      (held-Served m asked (omega (arith, h)), list-Served ms asked (omega (arith, h)))

  sessions-Served :
      (ss : List Session)
      → asked_resolution params.resolution ≡ some resolution
      → sessions_total (missing r) ss ≡ 0
      → All IsServed ss
  sessions-Served [] asked h = tt
  sessions-Served (s ∷ ss) asked h = (
    record {
      cpu = slot-Served s.cpu asked (omega (arith, h));
      memory = slot-Served s.memory asked (omega (arith, h));
      superseded = list-Served s.superseded asked (omega (arith, h));
    },
    sessions-Served ss asked (omega (arith, h)),
  )

  -- In a registry in which every process stands under its own id, with parameters whose resolution is
  -- known: for every process that the list of sessions names, in a slot or as superseded, the snapshot
  -- route answers neither of its errors but the snapshot of that process in that resolution.
  pub pair_sessions-IsServed :
      IsKeyed r
      → asked_resolution params.resolution ≡ some resolution
      → All IsServed (pair_sessions r)
  pair_sessions-IsServed keyed asked =
      sessions-Served (pair_sessions r) asked
        (pair_sessions-total (missing r) r ∙ none_missing r r keyed)
