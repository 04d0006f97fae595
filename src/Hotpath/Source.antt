-- ===== src/Hotpath/Source.antt =====
-- crates/lightwatch-hotpath/src/source.rs: the reply of the target's metrics server. `from_utf8` is a
-- parameter; the socket gives the reply's bytes or an error.
pub mod Reply
mod Tests
use lightwatch.Base.{
  ℕ, ◌+◌, ◌-◌, ◌*◌, ◌%◌, ◌<◌, Bool, true, false, ◌&&◌, ◌||◌, List, [], ◌∷◌, ◌++◌, Option, none,
  some, ltb, leb, ◌==◌, if◌then◌else◌, Text,
}

-- The error of a reply. `unreachable` and `io` keep no detail.
pub data PollError : Type 0 where
  unreachable : PollError
  io : PollError
  status : ℕ → PollError
  truncated : PollError
  not_http : PollError
  body : PollError

pub data Polled (A : Type 0) : Type 0 where
  ok : A → Polled A
  err : PollError → Polled A

-- `windows(4).position(…)`, with the bytes before the blank line and those behind it.
abbrev pub starts_blank : List ℕ → Bool
starts_blank (a ∷ b ∷ c ∷ d ∷ rest) = (a == 13) && (b == 10) && (c == 13) && (d == 10)
starts_blank _ = false

abbrev pub behind_four : List ℕ → List ℕ
behind_four (a ∷ b ∷ c ∷ d ∷ rest) = rest
behind_four _ = []

abbrev pub push_front : ℕ → Option (List ℕ × List ℕ) → Option (List ℕ × List ℕ)
push_front b none = none
push_front b (some (head, rest)) = some (b ∷ head, rest)

unfoldable pub split_head : List ℕ → Option (List ℕ × List ℕ)
split_head [] = none
split_head (b ∷ raw) =
    let later = push_front b (split_head raw) in
    if starts_blank (b ∷ raw) then some ([], behind_four (b ∷ raw)) else later

-- `split(…).next()`: what stands before the first separator.
unfoldable pub before_first : ℕ → List ℕ → List ℕ
before_first sep [] = []
before_first sep (b ∷ raw) = let later = before_first sep raw in if b == sep then [] else b ∷ later

-- What is left behind the first separator, where there is one.
unfoldable pub behind_first : ℕ → Text → Option Text
behind_first sep [] = none
behind_first sep (b ∷ raw) =
    let later = behind_first sep raw in if b == sep then some raw else later

abbrev pub starts_http : Text → Bool
starts_http (a ∷ b ∷ c ∷ d ∷ e ∷ rest) =
    (a == b'H') && (b == b'T') && (c == b'T') && (d == b'P') && (e == b'/')
starts_http _ = false

abbrev pub is_digit : ℕ → Bool
is_digit c = leb b'0' c && leb c b'9'

-- The digits of a u16 behind what is read of it, the error of an overflow included.
unfoldable pub parse_digits : ℕ → Text → Option ℕ
parse_digits n [] = some n
parse_digits n (c ∷ text) =
    let m : ℕ = n * 10 + (c - b'0') in
    let rest = parse_digits m text in if is_digit c && ltb m 65_536 then rest else none

-- `parse::<u16>`: an optional sign and then digits, at least one.
abbrev pub parse_unsigned : Text → Option ℕ
parse_unsigned [] = none
parse_unsigned (c ∷ text) = parse_digits 0 (c ∷ text)

unfoldable pub parse_u16 : Text → Option ℕ
unfolding parse_digits
parse_u16 [] = none
parse_u16 (c ∷ text) = if c == b'+' then parse_unsigned text else parse_unsigned (c ∷ text)

abbrev pub code_in : Option Text → Option ℕ
code_in none = none
code_in (some fields) = parse_u16 (before_first b' ' fields)

abbrev pub answer : List ℕ → Option ℕ → Polled (List ℕ)
answer rest none = err not_http
answer rest (some code) = if code == 200 then ok rest else err (status code)

abbrev pub read_status : List ℕ → Option Text → Polled (List ℕ)
read_status rest none = err not_http
read_status rest (some line) =
    let code = code_in (behind_first b' ' line) in
    if starts_http (before_first b' ' line) then answer rest code else err not_http

module _ (from_utf8 : List ℕ → Option Text) where
  abbrev pub read_head : Option (List ℕ × List ℕ) → Polled (List ℕ)
  read_head none = err truncated
  read_head (some (head, rest)) = read_status rest (from_utf8 (before_first 13 head))

  unfoldable pub body_of : List ℕ → Polled (List ℕ)
  unfolding split_head before_first behind_first parse_u16
  body_of [] = err truncated
  body_of (b ∷ raw) = read_head (split_head (b ∷ raw))
