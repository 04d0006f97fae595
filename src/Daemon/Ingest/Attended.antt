-- ===== src/Daemon/Ingest/Attended.antt =====
-- crates/lightwatch-daemon/src/store.rs: the count of a process and its end follow its open connections.
use lightwatch.Base.{
  ℕ, zero, suc, ◌+◌, ◌≤◌, ◌≡◌, refl, Bool, List, [], ◌∷◌, Option, none, some, inl, inr, Bool-cases,
  arith, if◌then◌else◌, Text, key_eq, text_key, get, length, get_elem?,
}
use lightwatch.Proto.Wire.{Message, Hello}
use lightwatch.Proto.Wire
use lightwatch.Daemon.Store.State.{ProcessId, id_of_hello}
use lightwatch.Daemon.Store.Apply.{apply_frame, note_malformed_line}
use lightwatch.Daemon.Store.Registry.{Registry}
use lightwatch.Daemon.Ingest.{Tally, take_message, take_line, is_blank_line}
use lightwatch.Daemon.Ingest.Link.{apply_frame-link}
use lightwatch.Daemon.Ingest.Interleaved.{
  Daemon, idle, Does, admits, opens, reads, closes, Reaches, here, further, count_of, awaits,
  Attended, IsAttended, without,
}
use lightwatch.Daemon.Ingest.Sections.{
  admit-Attended, opened-Attended, keep-Attended, disconnect-Attended,
}

count_le : (id : ProcessId) (ids : List ProcessId) → count_of id ids ≤ length ids
count_le id [] = omega arith
count_le id (j ∷ ids) = ground (arith, count_le id ids)

count-without :
    (j id : ProcessId) (k : ℕ) (ids : List ProcessId)
    → get_elem? ids k ≡ some id
    → count_of j ids ≡ (if key_eq j id then 1 else 0) + count_of j (without k ids)
count-without j id k [] e = cc
count-without j id zero (i ∷ ids) e = let is : i ≡ id = ground arith in rw is refl
count-without j id (suc k) (i ∷ ids) e = omega (arith, count-without j id k ids e)

awaits-without :
    (j : ProcessId) (hello : Hello) (k : ℕ) (hellos : List Hello)
    → get_elem? hellos k ≡ some hello
    → awaits j hellos
      ≡ (if key_eq j (id_of_hello hello) then 1 else 0) + awaits j (without k hellos)
awaits-without j hello k [] e = cc
awaits-without j hello zero (i ∷ hellos) e = let is : i ≡ hello = ground arith in rw is refl
awaits-without j hello (suc k) (i ∷ hellos) e = omega (arith, awaits-without j hello k hellos e)

module _ (parse : Text → Option Message) (is_space : ℕ → Bool) where
  message-Attended :
      (id j : ProcessId) (now : ℕ) (o : Option Message) (tally : Tally) (r : Registry) (n p : ℕ)
      → Attended n p (get j r)
      → Attended n p (get j (take_message parse is_space id now o (tally, r)).1)
  unfolding note_malformed_line
  message-Attended id j now (some (Wire.Message.frame frame)) tally r n p h =
      keep-Attended id j (λ s. apply_frame s frame now) r n p (λ s. apply_frame-link s frame now) h
  message-Attended id j now (some (Wire.Message.hello hello)) tally r n p h =
      keep-Attended id j note_malformed_line r n p (λ s. refl) h
  message-Attended id j now none tally r n p h =
      keep-Attended id j note_malformed_line r n p (λ s. refl) h

  line-Attended :
      (id j : ProcessId) (text : Text) (now : ℕ) (tally : Tally) (r : Registry) (n p : ℕ)
      → Attended n p (get j r)
      → Attended n p (get j (take_line parse is_space id text now (tally, r)).1)
  unfolding take_line
  line-Attended id j text now tally r n p h = elim (Bool-cases (is_blank_line is_space text)) [
    | inl blank ↦ rw blank h
    | inr full ↦ rw full (message-Attended id j now (parse text) tally r n p h)
  ]

  Does-IsAttended : (d e : Daemon) → Does parse is_space d e → IsAttended d → IsAttended e
  Does-IsAttended d e (admits _ hello) h id =
      admit-Attended hello d.registry id (count_of id d.open_ids) (awaits id d.admitted) (h id)
  Does-IsAttended d e (opens _ k hello there few) h id =
      opened-Attended hello d.registry id (count_of id d.open_ids)
        (awaits id (without k d.admitted)) (omega (arith, few, count_le id d.open_ids))
        (rw (awaits-without id hello k d.admitted there) at (h id))
  Does-IsAttended d e (reads _ k now i text tally there) h id =
      line-Attended i id text now tally d.registry (count_of id d.open_ids) (awaits id d.admitted)
        (h id)
  Does-IsAttended d e (closes _ k now i there) h id =
      disconnect-Attended i id now d.registry (count_of id (without k d.open_ids))
        (awaits id d.admitted) (rw (count-without id i k d.open_ids there) at (h id))

  Reaches-IsAttended : (d e : Daemon) → Reaches parse is_space d e → IsAttended d → IsAttended e
  Reaches-IsAttended d e (here _) h = h
  Reaches-IsAttended d e (further _ b _ before last) h =
      Does-IsAttended b e last (Reaches-IsAttended d b before h)

  -- Whatever connections are admitted, open, send lines and close on a daemon that starts with no
  -- process, with the locked sections of all of them in any order, as long as fewer than 2 ^ 32 are
  -- open at once: the number of live connections of every process is the number of its open
  -- connections. The process has no end time while one is open, and it has one when none is open and
  -- none is admitted but not yet open.
  pub reached-IsAttended : (e : Daemon) → Reaches parse is_space idle e → IsAttended e
  unfolding get
  reached-IsAttended e r = Reaches-IsAttended idle e r (λ id. (refl, refl))
