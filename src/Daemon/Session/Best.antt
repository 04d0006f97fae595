-- ===== src/Daemon/Session/Best.antt =====
-- crates/lightwatch-daemon/src/session.rs: who speaks for a session.
use lightwatch.Base.{
  ℕ, zero, suc, ◌≡◌, refl, sym, ◌∙◌, subst, Bool, true, false, List, [], ◌∷◌, Option, none, some,
  inl, inr, Bool-cases, arith, leb, get_elem?, if◌then◌else◌, ◌≤◌,
}
use lightwatch.Daemon.Session.{
  Feed, cpu_feed, memory_feed, Member, Session, outranks, Slots, contend, seat_in, seat_all,
  no_slots, session,
}

-- `outranks`, over what it reads of the two members.
abbrev beats : Bool → ℕ → Bool → ℕ → Bool
beats true a true b = leb b a
beats true a false b = true
beats false a true b = false
beats false a false b = leb b a

outranks-beats :
    (x y : Member)
    → outranks x y ≡ beats x.connected x.started_unix_ms y.connected y.started_unix_ms
unfolding outranks
outranks-beats x y = at x.connected y.connected
  where
    at :
        (p q : Bool)
        → (elim p as (λ x. Bool) [
          | true ↦ if q then leb y.started_unix_ms x.started_unix_ms else true
          | false ↦ if q then false else leb y.started_unix_ms x.started_unix_ms
        ])
          ≡ beats p x.started_unix_ms q y.started_unix_ms
    at true true = refl
    at true false = refl
    at false true = refl
    at false false = refl

beats_trans :
    (p : Bool) (a : ℕ) (q : Bool) (b : ℕ) (r : Bool) (c : ℕ)
    → beats p a q b ≡ true
    → beats q b r c ≡ true
    → beats p a r c ≡ true
beats_trans true a true b true c h k = ground arith
beats_trans true a true b false c h k = refl
beats_trans true a false b true c h k = cc
beats_trans true a false b false c h k = refl
beats_trans false a true b r c h k = cc
beats_trans false a false b true c h k = cc
beats_trans false a false b false c h k = ground arith

beats_total : (p : Bool) (a : ℕ) (q : Bool) (b : ℕ) → beats p a q b ≡ false → beats q b p a ≡ true
beats_total true a true b h = ground arith
beats_total true a false b h = cc
beats_total false a true b h = refl
beats_total false a false b h = ground arith

outranks_trans : (x y z : Member) → outranks x y ≡ true → outranks y z ≡ true → outranks x z ≡ true
outranks_trans x y z h k =
    outranks-beats x z
    ∙ beats_trans x.connected x.started_unix_ms y.connected y.started_unix_ms z.connected
        z.started_unix_ms (sym (outranks-beats x y) ∙ h) (sym (outranks-beats y z) ∙ k)

outranks_total : (x y : Member) → outranks x y ≡ false → outranks y x ≡ true
outranks_total x y h =
    outranks-beats y x
    ∙ beats_total x.connected x.started_unix_ms y.connected y.started_unix_ms
        (sym (outranks-beats x y) ∙ h)

outranks_refl : (x : Member) → outranks x x ≡ true
outranks_refl x = elim (Bool-cases (outranks x x)) [
  | inl better ↦ better
  | inr worse ↦ outranks_total x x worse
]

-- A slot is taken by somebody who outranks `m`.
abbrev Beaten : Member → Option Member → Type 0
Beaten m slot = (h : Member) × (slot ≡ some h) × (outranks h m ≡ true)

contend-Beaten_new : (slot : Option Member) (m : Member) → Beaten m (contend slot m).0
unfolding contend
contend-Beaten_new none m = (m, refl, outranks_refl m)
contend-Beaten_new (some held) m = elim (Bool-cases (outranks held m)) [
  | inl better ↦ rw better (held, refl, better)
  | inr worse ↦ rw worse (m, refl, outranks_refl m)
]

contend-Beaten_old :
    (slot : Option Member) (m x : Member) → Beaten x slot → Beaten x (contend slot m).0
unfolding contend
contend-Beaten_old none m x (h, e, o) = cc
contend-Beaten_old (some held) m x (h, e, o) =
    let same : held ≡ h = ground arith in
    let holds : outranks held x ≡ true = rw same o in
    elim (Bool-cases (outranks held m)) [
      | inl better ↦ rw better (held, refl, holds)
      | inr worse ↦ rw worse (m, refl, outranks_trans m held x (outranks_total held m worse) holds)
    ]

abbrev slot_in : Feed → Slots → Option Member
slot_in cpu_feed s = s.cpu
slot_in memory_feed s = s.memory

seat_in-Beaten_new :
    (feed : Feed) (s : Slots) (m : Member) → Beaten m (slot_in feed (seat_in feed s m))
seat_in-Beaten_new cpu_feed s m = contend-Beaten_new s.cpu m
seat_in-Beaten_new memory_feed s m = contend-Beaten_new s.memory m

seat_in-Beaten_old :
    (feed other : Feed) (s : Slots) (m x : Member)
    → Beaten x (slot_in feed s)
    → Beaten x (slot_in feed (seat_in other s m))
seat_in-Beaten_old cpu_feed cpu_feed s m x b = contend-Beaten_old s.cpu m x b
seat_in-Beaten_old cpu_feed memory_feed s m x b = b
seat_in-Beaten_old memory_feed cpu_feed s m x b = b
seat_in-Beaten_old memory_feed memory_feed s m x b = contend-Beaten_old s.memory m x b

seat_all-Beaten_old :
    (feed : Feed) (s : Slots) (ms : List Member) (x : Member)
    → Beaten x (slot_in feed s)
    → Beaten x (slot_in feed (seat_all s ms))
unfolding seat_all
seat_all-Beaten_old feed s [] x b = b
seat_all-Beaten_old feed s (m ∷ ms) x b =
    seat_all-Beaten_old feed (seat_in m.feed s m) ms x (seat_in-Beaten_old feed m.feed s m x b)

seat_all-Beaten :
    (s : Slots) (ms : List Member) (i : ℕ) (x : Member)
    → get_elem? ms i ≡ some x
    → Beaten x (slot_in x.feed (seat_all s ms))
unfolding seat_all
seat_all-Beaten s [] i x e = cc
seat_all-Beaten s (m ∷ ms) zero x e =
    let same : m ≡ x = ground arith in
    seat_all-Beaten_old x.feed (seat_in m.feed s m) ms x (
      subst (λ y. Beaten y (slot_in y.feed (seat_in m.feed s m))) same
        (seat_in-Beaten_new m.feed s m))
seat_all-Beaten s (m ∷ ms) (suc i) x e = seat_all-Beaten (seat_in m.feed s m) ms i x e

abbrev pub speaker : Feed → Session → Option Member
speaker cpu_feed s = s.cpu
speaker memory_feed s = s.memory

-- Somebody who is live or not and started at `a` may stand in the place of another who is live or
-- not and started at `b`: a live one for any dead one, and among equals whoever started no earlier.
abbrev pub MayShow : Bool → ℕ → Bool → ℕ → Type 0
MayShow true a true b = b ≤ a
MayShow true a false b = Unit {0}
MayShow false a true b = ⊥
MayShow false a false b = b ≤ a

beats-MayShow : (p : Bool) (a : ℕ) (q : Bool) (b : ℕ) → beats p a q b ≡ true → MayShow p a q b
beats-MayShow true a true b h = ground arith
beats-MayShow true a false b h = tt
beats-MayShow false a true b h = absurd (cc)
beats-MayShow false a false b h = ground arith

-- The slot shows a member that may stand in the place of `m`.
abbrev pub Outshone : Member → Option Member → Type 0
Outshone m none = ⊥
Outshone m (some h) = MayShow h.connected h.started_unix_ms m.connected m.started_unix_ms

Beaten-Outshone : (m : Member) (slot : Option Member) → Beaten m slot → Outshone m slot
Beaten-Outshone m none (h, e, o) = absurd (cc)
Beaten-Outshone m (some held) (h, e, o) =
    let same : held ≡ h = ground arith in
    let holds : outranks held m ≡ true = rw same o in
    beats-MayShow held.connected held.started_unix_ms m.connected m.started_unix_ms
      (sym (outranks-beats held m) ∙ holds)

-- Whoever stands in a run: the slot of its feed in the session is taken, by a member which is live if
-- it is live, and which did not start before it if both are live or both are dead. A live emitter thus
-- never loses to a dead one, and between two that are both live or both dead the session never shows
-- the older one.
pub session-Outshone :
    (app : List ℕ) (pid : ℕ) (run : List Member) (i : ℕ) (x : Member)
    → get_elem? run i ≡ some x
    → Outshone x (speaker x.feed (session app pid run))
unfolding session
session-Outshone app pid run i x e =
    Beaten-Outshone x (speaker x.feed (session app pid run))
      (at x.feed (seat_all-Beaten no_slots run i x e))
  where
    at :
        (feed : Feed)
        → Beaten x (slot_in feed (seat_all no_slots run))
        → Beaten x (speaker feed (session app pid run))
    at cpu_feed b = b
    at memory_feed b = b
