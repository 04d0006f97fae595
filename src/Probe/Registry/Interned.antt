-- ===== src/Probe/Registry/Interned.antt =====
-- crates/lightwatch-probe/src/registry.rs: the ids of functions and their names.
use lightwatch.Base.{
  ℕ, ◌+◌, ◌-◌, ◌<◌, ◌^◌, ◌≡◌, refl, ◌∙◌, ap, true, false, ◌⊎◌, inl, inr, [], ◌∷◌, ◌++◌, Option,
  none, some, ◌==◌, arith, Bool-cases, length, length-append, get_elem?, get_elem?-append,
  get_elem?_last, get_elem?_snoc, Text,
}
use lightwatch.Probe.Statics.{write_static}
use lightwatch.Probe.Registry.{
  Site, Functions, interned_id, publish_id, push_site, intern_function, site_id, site_id_or,
  function_name,
}

-- A site's id is one more than its position among the functions, or 0 where it is not there.
pub record IsInterned (f : Functions) : Type 0 where
  pub placed : (i site : ℕ) → get_elem? f.functions i ≡ some site → (f.sites site).id ≡ i + 1
  pub named :
      (site : ℕ)
      → ((f.sites site).id ≡ 0) ⊎ (get_elem? f.functions ((f.sites site).id - 1) ≡ some site)

pushed_id :
    (f : Functions) (site : ℕ)
    → length f.functions + 1 < 2 ^ 32
    → (push_site site f none).1 ≡ length f.functions + 1
pushed_id f site room = omega (arith, length-append f.functions (site ∷ []))

written_same :
    (f : Functions) (site other : ℕ) (id : ℕ)
    → (other == site) ≡ true
    → (write_static site (publish_id id (f.sites site)) f.sites other).id ≡ id
unfolding publish_id
written_same f site other id same = rw same refl

written_other :
    (f : Functions) (site other : ℕ) (id : ℕ)
    → (other == site) ≡ false
    → write_static site (publish_id id (f.sites site)) f.sites other ≡ f.sites other
written_other f site other id miss = rw miss refl

push-IsInterned :
    (f : Functions) (site : ℕ)
    → length f.functions + 1 < 2 ^ 32
    → (f.sites site).id ≡ 0
    → IsInterned f
    → IsInterned (push_site site f none).0
push-IsInterned f site room fresh h = record { placed = placed; named = named }
  where
    placed :
        (i other : ℕ)
        → get_elem? (f.functions ++ (site ∷ [])) i ≡ some other
        → ((push_site site f none).0.sites other).id ≡ i + 1
    placed i other e = elim (Bool-cases (other == site)) [
      | inl same ↦
          let key : other ≡ site = ground arith in
          let old : (get_elem? f.functions i ≡ some other)
              ⊎ ((i ≡ length f.functions) × (site ≡ other)) =
            get_elem?_snoc f.functions site i other e in
          elim old [
            | inl before ↦
                let was : (f.sites site).id ≡ i + 1 = rw key at (h.placed i other before) in
                absurd (omega arith)
            | inr (last, is) ↦
                written_same f site other _ same ∙ omega (arith, pushed_id f site room, last)
          ]
      | inr miss ↦ elim (get_elem?_snoc f.functions site i other e) [
        | inl before ↦ ap Site.id (written_other f site other _ miss) ∙ h.placed i other before
        | inr (last, is) ↦ absurd (ground arith)
      ]
    ]

    named :
        (other : ℕ)
        → (((push_site site f none).0.sites other).id ≡ 0)
          ⊎ (get_elem? (f.functions ++ (site ∷ [])) (((push_site site f none).0.sites other).id - 1)
              ≡ some other)
    named other = elim (Bool-cases (other == site)) [
      | inl same ↦
          let key : other ≡ site = ground arith in
          let at_end : ((push_site site f none).0.sites other).id - 1 ≡ length f.functions = omega (
            arith,
            written_same f site other (push_site site f none).1 same,
            pushed_id f site room,
          ) in
          inr (rw (at_end, key) (get_elem?_last f.functions site))
      | inr miss ↦
          let keeps : ((push_site site f none).0.sites other).id ≡ (f.sites other).id =
            ap Site.id (written_other f site other (push_site site f none).1 miss) in
          elim (h.named other) [
            | inl free ↦ inl (keeps ∙ free)
            | inr there ↦ inr (rw keeps (get_elem?-append f.functions (site ∷ []) _ other there))
          ]
    ]

written_name :
    (f : Functions) (site other id : ℕ)
    → (write_static site (publish_id id (f.sites site)) f.sites other).name ≡ (f.sites other).name
unfolding publish_id
written_name f site other id = elim (Bool-cases (other == site)) [
  | inl same ↦ let key : other ≡ site = ground arith in rw (same, key) refl
  | inr miss ↦ rw miss refl
]

-- What a site's id is for: the table is in order, and the id has the site's name.
abbrev pub Named : Functions × ℕ → Text → Type 0
Named (f, id) name = IsInterned f × (function_name f id ≡ some name)

named_by :
    (f : Functions) (site id : ℕ)
    → 0 < id
    → get_elem? f.functions (id - 1) ≡ some site
    → function_name f id ≡ some (f.sites site).name
unfolding function_name
named_by f site id pos e = let some_id : (id == 0) ≡ false = ground arith in rw (some_id, e) refl

push-Named :
    (f : Functions) (site : ℕ) (o : Option ℕ)
    → length f.functions + 1 < 2 ^ 32
    → interned_id (f.sites site) ≡ o
    → IsInterned f
    → Named (push_site site f o) (f.sites site).name
push-Named f site none room e h =
    let fresh : (f.sites site).id ≡ 0 = ground arith in
    let id : ℕ = (push_site site f none).1 in
    let at_end : id - 1 ≡ length f.functions = omega (arith, pushed_id f site room) in
    (
      push-IsInterned f site room fresh h,
      named_by (push_site site f none).0 site id (omega (arith, pushed_id f site room))
            (rw at_end (get_elem?_last f.functions site))
          ∙ ap some (written_name f site site id),
    )
push-Named f site (some id) room e h =
    let is : (f.sites site).id ≡ id = ground arith in
    let pos : 0 < id = ground arith in
    (
      h,
      named_by f site id pos
          (elim (h.named site) [ inl free ↦ absurd (omega arith) | inr there ↦ rw is at there ]),
    )

-- While the ids fit into 32 bits, in a table in which every id names the position of its site: the
-- table after `Site::id` is such a table again, and the id has the name of the site.
pub site_id-Named :
    (f : Functions) (site : ℕ)
    → length f.functions + 1 < 2 ^ 32
    → IsInterned f
    → Named (site_id site f) (f.sites site).name
unfolding site_id intern_function
site_id-Named f site room h = at (interned_id (f.sites site)) refl
  where
    at :
        (o : Option ℕ)
        → interned_id (f.sites site) ≡ o
        → Named (site_id_or site f o) (f.sites site).name
    at none e = push-Named f site (interned_id (f.sites site)) room refl h
    at (some id) e = push-Named f site (some id) room e h
