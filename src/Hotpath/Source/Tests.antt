-- ===== src/Hotpath/Source/Tests.antt =====
-- crates/lightwatch-hotpath/src/source.rs: a reply with two headers.
use lightwatch.Base.{
  ℕ, ◌+◌, ◌*◌, ◌%◌, ltb, if◌then◌else◌, ◌≡◌, refl, List, [], ◌∷◌, Option, some, Text,
}
use lightwatch.Hotpath.Source.{ok, body_of, parse_u16}
use lightwatch.Hotpath.Source.Reply.{reply, status_line, body_of-reply}

abbrev version : Text
version = b'H' ∷ b'T' ∷ b'T' ∷ b'P' ∷ b'/' ∷ b'1' ∷ []

abbrev field : Text
field = b'2' ∷ b'0' ∷ b'0' ∷ []

abbrev reason : Text
reason = b'K' ∷ 233 ∷ []

abbrev two_headers : List (ℕ × List ℕ)
two_headers = (b'A', b':' ∷ b'1' ∷ []) ∷ (b'B', []) ∷ []

-- Code points of one and two bytes.
abbrev points : List ℕ → Text
points [] = []
points (a ∷ []) = a ∷ []
points (a ∷ b ∷ bytes) =
    let alone = a ∷ points (b ∷ bytes) in
    let both = (a % 32 * 64 + b % 64) ∷ points bytes in if ltb a 128 then alone else both

abbrev decode : List ℕ → Option Text
decode bytes = some (points bytes)

-- The reason ends in a letter that takes two bytes.
abbrev line_bytes : List ℕ
line_bytes = status_line version field (b'K' ∷ 195 ∷ 169 ∷ [])

line_decoded : decode line_bytes ≡ some (status_line version field reason)
line_decoded = refl

-- A body with a blank line of its own.
abbrev own_body : List ℕ
own_body = 13 ∷ 10 ∷ 13 ∷ 10 ∷ b'x' ∷ []

reads_ok : parse_u16 field ≡ some 200
unfolding parse_u16
reads_ok = refl

body_of-reply_example : body_of decode (reply line_bytes two_headers own_body) ≡ ok own_body
body_of-reply_example =
    body_of-reply decode line_bytes version field reason two_headers own_body 200 refl
      (
        refl,
        (
          refl,
          (
            refl,
            (
              refl,
              (refl, (refl, (refl, (refl, (refl, (refl, (refl, (refl, (refl, (refl, tt)))))))))),
            ),
          ),
        ),
      )
      ((refl, (refl, (refl, tt))), ((refl, tt), tt))
      (refl, (refl, (refl, (refl, (refl, (refl, tt)))))) (refl, (refl, (refl, tt))) refl reads_ok
