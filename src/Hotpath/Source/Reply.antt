-- ===== src/Hotpath/Source/Reply.antt =====
-- crates/lightwatch-hotpath/src/source.rs: replies of a server that follows HTTP, taken apart.
use lightwatch.Base.{
  ℕ, ◌≡◌, refl, ◌∙◌, ap, true, false, List, [], ◌∷◌, ◌++◌, Option, none, some, ◌==◌, if◌then◌else◌,
  arith, Text, All,
}
use mathlib.Core.List.{append_assoc, append-nil}
use lightwatch.Hotpath.Source.{
  ok, err, status, body_of, split_head, before_first, behind_first, parse_u16, starts_http,
  read_head, read_status, push_front, starts_blank, answer,
}

-- No byte is the separator.
abbrev pub Free : ℕ → List ℕ → Type 0
Free sep text = All (λ b. (b == sep) ≡ false) text

-- The headers, each behind the end of the line before it.
abbrev pub header_bytes : List (ℕ × List ℕ) → List ℕ
header_bytes [] = []
header_bytes ((first, line) ∷ lines) = 13 ∷ 10 ∷ first ∷ (line ++ header_bytes lines)

abbrev pub Headers : List (ℕ × List ℕ) → Type 0
Headers lines = All (λ l. ((l.0 == 13) ≡ false) × Free 13 l.1) lines

-- A reply: its status line, its headers, a blank line and its body.
abbrev pub reply : List ℕ → List (ℕ × List ℕ) → List ℕ → List ℕ
reply line lines body = line ++ (header_bytes lines ++ (13 ∷ 10 ∷ 13 ∷ 10 ∷ body))

abbrev prepend : List ℕ → Option (List ℕ × List ℕ) → Option (List ℕ × List ℕ)
prepend x none = none
prepend x (some (head, rest)) = some (x ++ head, rest)

split-step :
    (b : ℕ) (raw : List ℕ)
    → starts_blank (b ∷ raw) ≡ false
    → split_head (b ∷ raw) ≡ push_front b (split_head raw)
unfolding split_head
split-step b raw h = rw h refl

split-skip :
    (b : ℕ) (raw : List ℕ)
    → (b == 13) ≡ false
    → split_head (b ∷ raw) ≡ push_front b (split_head raw)
split-skip b raw h = split-step b raw (at raw)
  where
    at : (raw : List ℕ) → starts_blank (b ∷ raw) ≡ false
    at [] = refl
    at (c ∷ []) = refl
    at (c ∷ d ∷ []) = refl
    at (c ∷ d ∷ e ∷ raw) = rw h refl

push-prepend :
    (b : ℕ) (x : List ℕ) (o : Option (List ℕ × List ℕ))
    → push_front b (prepend x o) ≡ prepend (b ∷ x) o
push-prepend b x none = refl
push-prepend b x (some p) = refl

prepend-none : (o : Option (List ℕ × List ℕ)) → o ≡ prepend [] o
prepend-none none = refl
prepend-none (some p) = refl

split-segment : (x raw : List ℕ) → Free 13 x → split_head (x ++ raw) ≡ prepend x (split_head raw)
split-segment [] raw h = prepend-none (split_head raw)
split-segment (b ∷ x) raw h =
    split-skip b (x ++ raw) h.0
    ∙ ap (push_front b) (split-segment x raw h.1)
    ∙ push-prepend b x (split_head raw)

split-line :
    (first : ℕ) (raw : List ℕ)
    → (first == 13) ≡ false
    → split_head (13 ∷ 10 ∷ first ∷ raw) ≡ prepend (13 ∷ 10 ∷ first ∷ []) (split_head raw)
split-line first raw h =
    split-step 13 (10 ∷ first ∷ raw) (at raw)
    ∙ ap (push_front 13) (split-skip 10 (first ∷ raw) refl)
    ∙ ap (λ o. push_front 13 (push_front 10 o)) (split-skip first raw h)
    ∙ pushed (split_head raw)
  where
    at : (raw : List ℕ) → starts_blank (13 ∷ 10 ∷ first ∷ raw) ≡ false
    at [] = refl
    at (c ∷ raw) = rw h refl

    pushed :
        (o : Option (List ℕ × List ℕ))
        → push_front 13 (push_front 10 (push_front first o)) ≡ prepend (13 ∷ 10 ∷ first ∷ []) o
    pushed none = refl
    pushed (some p) = refl

-- The blank line behind the headers is the first one.
split-Headers :
    (lines : List (ℕ × List ℕ)) (body : List ℕ)
    → Headers lines
    → split_head (header_bytes lines ++ (13 ∷ 10 ∷ 13 ∷ 10 ∷ body))
      ≡ some (header_bytes lines, body)
unfolding split_head
split-Headers [] body h = refl
split-Headers ((first, line) ∷ lines) body h =
    let tail = 13 ∷ 10 ∷ 13 ∷ 10 ∷ body in
    split-line first ((line ++ header_bytes lines) ++ tail) h.0.0
    ∙ ap (λ r. prepend (13 ∷ 10 ∷ first ∷ []) (split_head r))
        (append_assoc line (header_bytes lines) tail)
    ∙ ap (prepend (13 ∷ 10 ∷ first ∷ [])) (
        split-segment line (header_bytes lines ++ tail) h.0.1
        ∙ ap (prepend line) (split-Headers lines body h.1))

split-reply :
    (line : List ℕ) (lines : List (ℕ × List ℕ)) (body : List ℕ)
    → Free 13 line
    → Headers lines
    → split_head (reply line lines body) ≡ some (line ++ header_bytes lines, body)
split-reply line lines body clean h =
    split-segment line (header_bytes lines ++ (13 ∷ 10 ∷ 13 ∷ 10 ∷ body)) clean
    ∙ ap (prepend line) (split-Headers lines body h)

before-separator :
    (sep : ℕ) (x rest : List ℕ) → Free sep x → before_first sep (x ++ (sep ∷ rest)) ≡ x
unfolding before_first
before-separator sep [] rest h = let same : (sep == sep) ≡ true = ground arith in rw same refl
before-separator sep (b ∷ x) rest h = rw h.0 (ap (λ y. b ∷ y) (before-separator sep x rest h.1))

behind-separator :
    (sep : ℕ) (x rest : List ℕ) → Free sep x → behind_first sep (x ++ (sep ∷ rest)) ≡ some rest
unfolding behind_first
behind-separator sep [] rest h = let same : (sep == sep) ≡ true = ground arith in rw same refl
behind-separator sep (b ∷ x) rest h = rw h.0 (behind-separator sep x rest h.1)

before-all : (sep : ℕ) (x : List ℕ) → Free sep x → before_first sep x ≡ x
unfolding before_first
before-all sep [] h = refl
before-all sep (b ∷ x) h = rw h.0 (ap (λ y. b ∷ y) (before-all sep x h.1))

-- The status line ends where the headers begin.
before-headers :
    (line : List ℕ) (lines : List (ℕ × List ℕ))
    → Free 13 line
    → before_first 13 (line ++ header_bytes lines) ≡ line
before-headers line [] h = ap (before_first 13) (append-nil line) ∙ before-all 13 line h
before-headers line ((first, more) ∷ lines) h = before-separator 13 line _ h

-- The parts of a status line: `HTTP/1.1`, `200` and `OK`.
abbrev pub status_line : Text → Text → Text → Text
status_line version field reason = version ++ (b' ' ∷ (field ++ (b' ' ∷ reason)))

read-status :
    (version field reason : Text) (rest : List ℕ) (code : ℕ)
    → Free b' ' version
    → Free b' ' field
    → starts_http version ≡ true
    → parse_u16 field ≡ some code
    → read_status rest (some (status_line version field reason)) ≡ answer rest (some code)
read-status version field reason rest code v f http num =
    rw
      (
        before-separator b' ' version (field ++ (b' ' ∷ reason)) v,
        behind-separator b' ' version (field ++ (b' ' ∷ reason)) v,
        before-separator b' ' field reason f,
        http,
        num,
      )
      refl

body-head :
    (from_utf8 : List ℕ → Option Text) (raw : List ℕ)
    → body_of from_utf8 raw ≡ read_head from_utf8 (split_head raw)
unfolding body_of split_head
body-head from_utf8 [] = refl
body-head from_utf8 (b ∷ raw) = refl

-- A reply that starts with the bytes of a status line, in the encoding `from_utf8` reads, whose
-- version starts with `HTTP/` and whose second field reads as a number, neither with a blank in it,
-- with headers that are not empty and have no carriage return, and with any body, where the bytes of
-- the status line have no carriage return: `body_of` gives exactly its body if the number is 200, and
-- otherwise that status as the error.
pub body_of-reply :
    (from_utf8 : List ℕ → Option Text) (line : List ℕ) (version field reason : Text)
    (lines : List (ℕ × List ℕ)) (body : List ℕ) (code : ℕ)
    → from_utf8 line ≡ some (status_line version field reason)
    → Free 13 line
    → Headers lines
    → Free b' ' version
    → Free b' ' field
    → starts_http version ≡ true
    → parse_u16 field ≡ some code
    → body_of from_utf8 (reply line lines body)
      ≡ (if code == 200 then ok body else err (status code))
body_of-reply from_utf8 line version field reason lines body code utf8 clean headers v f http num =
    body-head from_utf8 (reply line lines body)
    ∙ ap (read_head from_utf8) (split-reply line lines body clean headers)
    ∙ ap (λ l. read_status body (from_utf8 l)) (before-headers line lines clean)
    ∙ ap (read_status body) utf8
    ∙ read-status version field reason body code v f http num
