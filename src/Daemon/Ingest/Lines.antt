-- ===== src/Daemon/Ingest/Lines.antt =====
-- `read_line`: how the stream was cut into reads does not matter.
use lightwatch.Base.{
  ℕ, ◌≤◌, ◌<◌, ◌≡◌, refl, sym, ◌∙◌, true, false, List, [], ◌∷◌, ◌++◌, Option, none, some, inl, inr,
  Bool-cases, Option-cases, arith, ltb, if◌then◌else◌, length, length-append, ◌==◌, Text,
}
use mathlib.Core.List.{append-nil, append_assoc}
use lightwatch.Daemon.Ingest.{
  LineRead, eof, too_long, Reader, max_line_bytes, newline, split_line, is_empty, unread, checked,
  read_from, read_line, take_chunk,
}

-- A stream that fails at no point: pieces with something in them.
abbrev pub IsBytes : Reader → Type 0
IsBytes [] = Unit {0}
IsBytes (none ∷ fills) = ⊥
IsBytes (some [] ∷ fills) = ⊥
IsBytes (some (b ∷ bytes) ∷ fills) = IsBytes fills

abbrev pub flatten : Reader → List ℕ
flatten [] = []
flatten (none ∷ fills) = flatten fills
flatten (some bytes ∷ fills) = bytes ++ flatten fills

-- The first line of the bytes, as one who has them all would read it.
abbrev pub cut : (List ℕ → Text) → List ℕ → Option (List ℕ × List ℕ) → LineRead
cut decode bytes (some (before, after)) = checked decode before
cut decode bytes none = if is_empty bytes then eof else checked decode bytes

abbrev pub first_line : (List ℕ → Text) → List ℕ → LineRead
first_line decode bytes = cut decode bytes (split_line bytes)

abbrev prefixed : List ℕ → Option (List ℕ × List ℕ) → Option (List ℕ × List ℕ)
prefixed xs none = none
prefixed xs (some (before, after)) = some (xs ++ before, after)

split_none-append :
    (xs ys : List ℕ) → split_line xs ≡ none → split_line (xs ++ ys) ≡ prefixed xs (split_line ys)
unfolding split_line
split_none-append [] ys e = elim (Option-cases (split_line ys)) [
  | inl gone ↦ rw gone
  | inr (p, found) ↦ rw found
]
split_none-append (x ∷ xs) ys e = elim (Bool-cases (x == newline)) [
  | inl hit ↦ let never : some ([], xs) ≡ none = rw hit at e in cc
  | inr other ↦ elim (Option-cases (split_line xs)) [
    | inl gone ↦ elim (Option-cases (split_line ys)) [
      | inl none_left ↦ rw (other, split_none-append xs ys gone, none_left)
      | inr (p, found) ↦ rw (other, split_none-append xs ys gone, found)
    ]
    | inr (p, found) ↦ let never : some (x ∷ p.0, p.1) ≡ none = rw (other, found) at e in cc
  ]
]

split_some-append :
    (xs ys : List ℕ) (p : List ℕ × List ℕ)
    → split_line xs ≡ some p
    → split_line (xs ++ ys) ≡ some (p.0, p.1 ++ ys)
unfolding split_line
split_some-append [] ys p e = cc
split_some-append (x ∷ xs) ys p e = elim (Bool-cases (x == newline)) [
  | inl hit ↦
      let found : some ([], xs) ≡ some p = rw hit at e in
      let same : ([], xs) ≡ p = ground arith in rw (hit, sym same)
  | inr other ↦ elim (Option-cases (split_line xs)) [
    | inl gone ↦ let never : none ≡ some p = rw (other, gone) at e in cc
    | inr (q, found) ↦
        let whole : some (x ∷ q.0, q.1) ≡ some p = rw (other, found) at e in
        let same : (x ∷ q.0, q.1) ≡ p = ground arith in
        rw (other, split_some-append xs ys q found, sym same)
  ]
]

flatten-unread :
    (bytes : List ℕ) (fills : Reader) → flatten (unread bytes fills) ≡ bytes ++ flatten fills
flatten-unread [] fills = refl
flatten-unread (b ∷ bytes) fills = refl

unread-IsBytes : (bytes : List ℕ) (fills : Reader) → IsBytes fills → IsBytes (unread bytes fills)
unread-IsBytes [] fills h = h
unread-IsBytes (b ∷ bytes) fills h = h

-- A buffer with no newline in it that is over the limit makes the first line too long.
long_start :
    (decode : List ℕ → Text) (xs ys : List ℕ)
    → split_line xs ≡ none
    → max_line_bytes < length xs
    → first_line decode (xs ++ ys) ≡ too_long
long_start decode xs ys e h = elim (Option-cases (split_line ys)) [
  | inl gone ↦
      let whole : split_line (xs ++ ys) ≡ none = split_none-append xs ys e ∙ rw gone refl in
      rw whole (not_empty xs (omega arith))
  | inr (p, found) ↦
      let whole : split_line (xs ++ ys) ≡ some (xs ++ p.0, p.1) =
        split_none-append xs ys e ∙ rw found refl in
      let over : ltb max_line_bytes (length (xs ++ p.0)) ≡ true =
        ground (arith, length-append xs p.0) in
      rw (whole, over)
]
  where
    not_empty :
        (xs : List ℕ)
        → max_line_bytes < length xs
        → (if is_empty (xs ++ ys) then eof else checked decode (xs ++ ys)) ≡ too_long
    not_empty [] h = absurd (omega arith)
    not_empty (x ∷ xs) h =
        let over : ltb max_line_bytes (length (x ∷ (xs ++ ys))) ≡ true =
          ground (arith, length-append xs ys) in
        rw over

-- What a reader still owes after a line.
abbrev Leaves : List ℕ → Reader → Type 0
Leaves bytes reader =
    (p : List ℕ × List ℕ)
    → split_line bytes ≡ some p
    → length p.0 ≤ max_line_bytes
    → IsBytes reader × (flatten reader ≡ p.1)

abbrev Reads : (List ℕ → Text) → List ℕ → LineRead × Reader → Type 0
Reads decode bytes (read, reader) = (read ≡ first_line decode bytes) × Leaves bytes reader

module _ (decode : List ℕ → Text) (buffer chunk : List ℕ) (fills : Reader) where
  take_chunk-Reads :
      (o : Option (List ℕ × List ℕ)) (more : LineRead × Reader)
      → split_line buffer ≡ none
      → split_line chunk ≡ o
      → IsBytes fills
      → (split_line (buffer ++ chunk) ≡ none
          → length (buffer ++ chunk) ≤ max_line_bytes
          → Reads decode ((buffer ++ chunk) ++ flatten fills) more)
      → Reads decode
          (buffer ++ (chunk ++ flatten fills))
          (take_chunk decode buffer chunk fills more o)
  take_chunk-Reads (some p) more e found h rest =
      let whole : split_line (buffer ++ (chunk ++ flatten fills))
          ≡ some (buffer ++ p.0, p.1 ++ flatten fills) =
        split_none-append buffer (chunk ++ flatten fills) e
        ∙ rw (split_some-append chunk (flatten fills) p found) refl in
      (
        rw whole refl,
        λ q at size.
            let same : some (buffer ++ p.0, p.1 ++ flatten fills) ≡ some q = rw whole at at in
            let tail : p.1 ++ flatten fills ≡ q.1 = ground arith in
            (unread-IsBytes p.1 fills h, flatten-unread p.1 fills ∙ tail),
      )
  take_chunk-Reads none more e gone h rest =
      let both : split_line (buffer ++ chunk) ≡ none =
        split_none-append buffer chunk e ∙ rw gone refl in
      let assoc = append_assoc buffer chunk (flatten fills) in
      elim (Bool-cases (ltb max_line_bytes (length (buffer ++ chunk)))) [
        | inl over ↦
            let long = long_start decode (buffer ++ chunk) (flatten fills) both (ground arith) in
            rw (over, sym assoc)
              (sym long, λ q at size. absurd (too_big q at size (ground arith) both))
        | inr fits ↦ rw (fits, sym assoc) (rest both (ground arith))
      ]
    where
      too_big :
          (q : List ℕ × List ℕ)
          → split_line ((buffer ++ chunk) ++ flatten fills) ≡ some q
          → length q.0 ≤ max_line_bytes
          → max_line_bytes < length (buffer ++ chunk)
          → split_line (buffer ++ chunk) ≡ none
          → ⊥
      too_big q at size over both = elim (Option-cases (split_line (flatten fills))) [
        | inl gone ↦
            let never : none ≡ some q =
              rw (split_none-append (buffer ++ chunk) (flatten fills) both, gone) at at in
            cc
        | inr (p, found) ↦
            let same : some ((buffer ++ chunk) ++ p.0, p.1) ≡ some q =
              rw (split_none-append (buffer ++ chunk) (flatten fills) both, found) at at in
            let before : (buffer ++ chunk) ++ p.0 ≡ q.0 = ground arith in
            let long : max_line_bytes < length ((buffer ++ chunk) ++ p.0) =
              omega (arith, length-append (buffer ++ chunk) p.0) in
            let longer : max_line_bytes < length q.0 = rw before at long in omega arith
      ]

read_from-Reads :
    (decode : List ℕ → Text) (buffer : List ℕ) (reader : Reader)
    → IsBytes reader
    → split_line buffer ≡ none
    → length buffer ≤ max_line_bytes
    → Reads decode (buffer ++ flatten reader) (read_from decode buffer reader)
unfolding read_from
read_from-Reads decode buffer [] h e k =
    let whole : buffer ++ [] ≡ buffer = append-nil buffer in
    let fits : ltb max_line_bytes (length buffer) ≡ false = ground arith in
    rw whole (rw (e, fits) refl, λ p found. let never : none ≡ some p = rw e at found in cc)
read_from-Reads decode buffer (none ∷ fills) h e k = absurd h
read_from-Reads decode buffer (some [] ∷ fills) h e k = absurd h
read_from-Reads decode buffer (some (b ∷ bytes) ∷ fills) h e k =
    take_chunk-Reads decode buffer (b ∷ bytes) fills (split_line (b ∷ bytes))
      (read_from decode (buffer ++ (b ∷ bytes)) fills) e refl h
      (read_from-Reads decode (buffer ++ (b ∷ bytes)) fills h)

split_nil : split_line [] ≡ none
unfolding split_line
split_nil = refl

-- However a stream without read errors is cut into reads, `read_line` gives the first line of its
-- bytes, or says that it is too long or that there is none.
pub read_line-first_line :
    (decode : List ℕ → Text) (reader : Reader)
    → IsBytes reader
    → (read_line decode reader).0 ≡ first_line decode (flatten reader)
unfolding read_line
read_line-first_line decode reader h =
    (read_from-Reads decode [] reader h split_nil (omega arith)).0

-- However a stream without read errors is cut into reads: after a line within the limit that ended in
-- a newline, what is left to read are the bytes behind that newline, again without errors.
pub read_line_rest :
    (decode : List ℕ → Text) (reader : Reader) (before after : List ℕ)
    → IsBytes reader
    → split_line (flatten reader) ≡ some (before, after)
    → length before ≤ max_line_bytes
    → IsBytes (read_line decode reader).1 × (flatten (read_line decode reader).1 ≡ after)
unfolding read_line
read_line_rest decode reader before after h e k =
    (read_from-Reads decode [] reader h split_nil (omega arith)).1 (before, after) e k
