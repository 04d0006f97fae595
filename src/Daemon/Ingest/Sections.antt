-- ===== src/Daemon/Ingest/Sections.antt =====
-- crates/lightwatch-daemon/src/store.rs: what one locked section does to the count of a process and to
-- its end.
use lightwatch.Base.{
  ℕ, zero, suc, ◌+◌, ◌-◌, ◌^◌, ◌<◌, ◌≡◌, refl, sym, ◌∙◌, ap, subst, Bool, true, false, none, some,
  inl, inr, Bool-cases, Option-cases, arith, ◌==◌, if◌then◌else◌, key_eq, text_key, text_refl,
  text_eq_of_cmp, get, get-insert, is_some,
}
use lightwatch.Proto.Wire.{Hello}
use lightwatch.Daemon.Store.State.{ProcessId, ProcessState, id_of_hello, new_state}
use lightwatch.Daemon.Store.Registry.{
  Registry, admit, open_connection, write, close_connection, disconnect,
}
use lightwatch.Daemon.Ingest.Link.{link_of}
use lightwatch.Daemon.Ingest.Ended.{flush-ended}
use lightwatch.Daemon.Ingest.Connection.{write-other, write-none, get-write, flush-live}
use lightwatch.Daemon.Ingest.Interleaved.{EndsAs, Attended}

-- A write moves the counts of its own process and of no other.
write-Attended :
    (id j : ProcessId) (f : ProcessState → ProcessState) (r : Registry) (n p m q : ℕ)
    → (key_eq j id ≡ false → (m ≡ n) × (q ≡ p))
    → (key_eq j id ≡ true → Attended n p none → Attended m q none)
    → ((s : ProcessState) → key_eq j id ≡ true → Attended n p (some s) → Attended m q (some (f s)))
    → Attended n p (get j r)
    → Attended m q (get j (write id f r))
write-Attended id j f r n p m q away absent held h = elim (Bool-cases (key_eq j id)) [
  | inl same ↦
      let key : j ≡ id = ground (arith, text_eq_of_cmp j id) in
      elim (Option-cases (get id r)) [
        | inl gone ↦
            let here : get j r ≡ none = rw key gone in
            let after : get j (write id f r) ≡ none =
              rw key (ap (get id) (write-none id f r gone) ∙ gone) in
            rw after (absent same (rw here at h))
        | inr (s, there) ↦
            let here : get j r ≡ some s = rw key there in
            let after : get j (write id f r) ≡ some (f s) = rw key (get-write id f r s there) in
            rw after (held s same (rw here at h))
      ]
  | inr other ↦ rw (write-other id j f r other) (let e = away other in rw (e.0, e.1) h)
]

-- A connection is opened on a process that is open, admitted, or ended.
open-Attended :
    (hello : Hello) (s : ProcessState) (n p q : ℕ)
    → n + 1 < 2 ^ 32
    → Attended n q (some s)
    → Attended (suc n) p (some (open_connection hello s))
unfolding open_connection
open-Attended hello s n p q few h = (omega (arith, h.0), refl)

EndsAs-closed : (n p : ℕ) → (n == 0) ≡ false → EndsAs n p false
EndsAs-closed zero p h = cc
EndsAs-closed (suc n) p h = refl

EndsAs-ended : (n p : ℕ) → (n == 0) ≡ true → EndsAs n p true
EndsAs-ended zero zero h = refl
EndsAs-ended zero (suc p) h = tt
EndsAs-ended (suc n) p h = absurd (ground arith)

close-Attended :
    (now : ℕ) (s : ProcessState) (n p : ℕ)
    → Attended (suc n) p (some s)
    → Attended n p (some (close_connection now s))
unfolding close_connection
close-Attended now s n p h =
    let left : s.live_connections - 1 ≡ n = omega (arith, h.0) in
    elim (Bool-cases (s.live_connections - 1 == 0)) [
      | inl last ↦
          let none_left : (n == 0) ≡ true = rw left at last in
          let ending = record s {
            live_connections = s.live_connections - 1;
            ended_unix_ms = some now;
          } in
          rw last (
            flush-live ending ∙ left,
            subst (EndsAs n p) (sym (ap is_some (flush-ended ending))) (EndsAs-ended n p none_left),
          )
      | inr more ↦
          let some_left : (n == 0) ≡ false = rw left at more in
          let ended : false ≡ is_some s.ended_unix_ms = sym h.1 in
          rw more (left, subst (EndsAs n p) ended (EndsAs-closed n p some_left))
    ]

-- One more admitted connection says less of the end.
EndsAs-more : (n p : ℕ) (e : Bool) → EndsAs n p e → EndsAs n (suc p) e
EndsAs-more zero p e h = tt
EndsAs-more (suc n) p e h = h

pub admit-Attended :
    (hello : Hello) (r : Registry) (j : ProcessId) (n p : ℕ)
    → Attended n p (get j r)
    → Attended n ((if key_eq j (id_of_hello hello) then 1 else 0) + p) (get j (admit hello r))
unfolding admit new_state
admit-Attended hello r j n p h =
    let id = id_of_hello hello in
    elim (Option-cases (get id r)) [
      | inl new ↦ elim (Bool-cases (key_eq j id)) [
        | inl same ↦
            let key : j ≡ id = ground (arith, text_eq_of_cmp j id) in
            let gone : get j r ≡ none = rw key new in
            let zeroes : Attended n p none = rw gone at h in
            let after : get j (admit hello r) ≡ some (new_state id hello) =
              rw (key, new) (get-insert id (new_state id hello) id r ∙ rw (text_refl id) refl) in
            let next : 1 + p ≡ suc p = omega arith in rw (same, after, zeroes.0, next) (refl, tt)
        | inr other ↦
            let kept : get j (admit hello r) ≡ get j r =
              rw new (get-insert id (new_state id hello) j r ∙ rw other refl) in
            let same_p : 0 + p ≡ p = omega arith in rw (other, kept, same_p) h
      ]
      | inr (s, there) ↦
          let kept : admit hello r ≡ r = rw there refl in
          elim (Bool-cases (key_eq j id)) [
            | inl same ↦
                let key : j ≡ id = ground (arith, text_eq_of_cmp j id) in
                let here : get j r ≡ some s = rw key there in
                let was : Attended n p (some s) = rw here at h in
                let next : 1 + p ≡ suc p = omega arith in
                rw (kept, same, here, next) (was.0, EndsAs-more n p (is_some s.ended_unix_ms) was.1)
            | inr other ↦ let same_p : 0 + p ≡ p = omega arith in rw (kept, other, same_p) h
          ]
    ]

pub opened-Attended :
    (hello : Hello) (r : Registry) (j : ProcessId) (n p : ℕ)
    → n + 1 < 2 ^ 32
    → Attended n ((if key_eq j (id_of_hello hello) then 1 else 0) + p) (get j r)
    → Attended
        ((if key_eq j (id_of_hello hello) then 1 else 0) + n)
        p
        (get j (write (id_of_hello hello) (open_connection hello) r))
opened-Attended hello r j n p few h =
    let id = id_of_hello hello in
    let one : ℕ = if key_eq j id then 1 else 0 in
    write-Attended id j (open_connection hello) r n (one + p) (one + n) p
      (λ other. (rw other (omega arith), rw other (omega arith)))
      (λ same none_there.
        let never : 1 + p ≡ 0 = rw same at none_there.1 in absurd (omega (arith, never)))
      (λ s same at.
        let next : 1 + n ≡ suc n = omega arith in
        rw (same, next) (open-Attended hello s n p (one + p) few at))
      h

pub keep-Attended :
    (id j : ProcessId) (f : ProcessState → ProcessState) (r : Registry) (n p : ℕ)
    → ((s : ProcessState) → link_of (f s) ≡ link_of s)
    → Attended n p (get j r)
    → Attended n p (get j (write id f r))
keep-Attended id j f r n p same h =
    write-Attended id j f r n p n p (λ other. (refl, refl)) (λ same none_there. none_there)
      (λ s key at. (
        ap (λ l. l.0) (same s) ∙ at.0,
        subst (EndsAs n p) (sym (ap (λ l. is_some l.1) (same s))) at.1,
      ))
      h

pub disconnect-Attended :
    (id j : ProcessId) (now : ℕ) (r : Registry) (m p : ℕ)
    → Attended ((if key_eq j id then 1 else 0) + m) p (get j r)
    → Attended m p (get j (disconnect id now r))
unfolding disconnect
disconnect-Attended id j now r m p h =
    write-Attended id j (close_connection now) r ((if key_eq j id then 1 else 0) + m) p m p
      (λ other. (rw other (omega arith), refl))
      (λ same none_there.
        let never : 1 + m ≡ 0 = rw same at none_there.0 in absurd (omega (arith, never)))
      (λ s same at.
        let next : 1 + m ≡ suc m = omega arith in close-Attended now s m p (rw (same, next) at at))
      h
