-- ===== src/Prelude/Texts.antt =====
-- The functions of Go's packages `strings`, `strconv` and `fmt` that the controllers call. Letter
-- cases are those of ASCII: the names that they are applied to are Kubernetes names.
use Prim.Native.Nat.{ℕ, zero, suc, ◌+◌, ◌-◌, ◌*◌, ◌/◌, ◌%◌, ◌^◌}
use Prim.Native.Char.{Char, code}
use Prim.Native.String.{String, ◌++◌ as ◌<>◌, char_at, slice}
use Prim.Native.String.append
use mathlib.Core.Path.{◌≡◌, refl}
use mathlib.Core.Bool.{Bool, true, ◌||◌, ◌&&◌}
use mathlib.Core.Option.{Option, none, some}
use mathlib.Core.List.{List, [], ◌∷◌}
use native.Mathlib.Omega.{arith}
use text.Mathlib.Text.{starts_with, ◌==◌}
use text.Mathlib.TextLemmas.{append_assoc}
use text.Mathlib.TextPositions.{starts_with-append}
use dbaas_controller.Prelude.Tests.{leb, ltb, nat_eq, if◌then◌else◌}
use dbaas_controller.Prelude.Integers.{ℤ, pos, negsuc}

-- `strings.Contains`
unfoldable pub contains : String → String → Bool
contains String.[] sub = starts_with "" sub
contains (String.◌∷◌ c s) sub = starts_with (String.◌∷◌ c s) sub || contains s sub

contains_of_starts_with : (s sub : String) → starts_with s sub ≡ true → contains s sub ≡ true
unfolding contains
contains_of_starts_with String.[] sub h = h
contains_of_starts_with (String.◌∷◌ c s) sub h = ground arith

-- A text that begins with another contains it.
pub contains-append_left : (sub s : String) → contains (sub <> s) sub ≡ true
contains-append_left sub s = contains_of_starts_with (sub <> s) sub (starts_with-append sub s)

-- What stands in a text stands in every extension of it to the left.
pub contains-append_right :
    (p s sub : String) → contains s sub ≡ true → contains (p <> s) sub ≡ true
unfolding contains
contains-append_right String.[] s sub h = rw append.nil h
contains-append_right (String.◌∷◌ c p) s sub h =
    rw append.cons (ground (arith, contains-append_right p s sub h))

-- A text contains each part of its beginning.
pub contains-middle : (p sub q s : String) → contains ((p <> (sub <> q)) <> s) sub ≡ true
contains-middle p sub q s =
    rw (append_assoc p (sub <> q) s) (
      contains-append_right p _ sub (rw (append_assoc sub q s) (contains-append_left sub (q <> s))))

-- `strings.Split` at a separator of one character
cons_head : Char → List String → List String
cons_head c [] = String.◌∷◌ c "" ∷ []
cons_head c (w ∷ ws) = String.◌∷◌ c w ∷ ws

unfoldable pub split : ℕ → String → List String
unfolding cons_head
split sep String.[] = "" ∷ []
split sep (String.◌∷◌ c s) =
    let rest = split sep s in if nat_eq (code c) sep then "" ∷ rest else cons_head c rest

-- `strings.Join` with the empty separator
unfoldable pub join : List String → String
join [] = ""
join (w ∷ ws) = w <> join ws

-- `strings.ReplaceAll(s, "-", "_")`
unfoldable pub dashes_to_underscores : String → String
dashes_to_underscores String.[] = ""
dashes_to_underscores (String.◌∷◌ c s) =
    String.◌∷◌ (if nat_eq (code c) b'-' then char_at "_" 0 else c) (dashes_to_underscores s)

-- `strings.ToUpper`
abbrev upper : Char → Char
upper c =
    if leb b'a' (code c) && leb (code c) b'z'
    then char_at "ABCDEFGHIJKLMNOPQRSTUVWXYZ" (code c - b'a')
    else c

unfoldable pub to_upper : String → String
to_upper String.[] = ""
to_upper (String.◌∷◌ c s) = String.◌∷◌ (upper c) (to_upper s)

-- The verb %d
decimal : ℕ → ℕ → String → String
decimal zero n out = out
decimal (suc fuel) n out =
    let here = slice "0123456789" (n % 10) (n % 10 + 1) <> out in
    let rest = decimal fuel (n / 10) here in if ltb n 10 then here else rest

unfoldable pub itoa : ℤ → String
unfolding decimal
itoa (pos n) = decimal (suc n) n ""
itoa (negsuc n) = "-" <> decimal (suc (suc n)) (suc n) ""

-- `strconv.Atoi`: an optional sign and decimal digits, within 64 bits
digits : ℕ → String → Option ℕ
digits n String.[] = some n
digits n (String.◌∷◌ c s) =
    let rest = digits (n * 10 + (code c - b'0')) s in
    if leb b'0' (code c) && leb (code c) b'9' then rest else none

positive : Option ℕ → Option ℤ
positive none = none
positive (some n) = if ltb n (2 ^ 63) then some (pos n) else none

negative : Option ℕ → Option ℤ
negative none = none
negative (some zero) = some (pos 0)
negative (some (suc n)) = if ltb n (2 ^ 63) then some (negsuc n) else none

abbrev number : String → Option ℕ
unfolding digits
number s = if s == "" then none else digits 0 s

unfoldable pub atoi : String → Option ℤ
unfolding digits positive negative
atoi String.[] = none
atoi (String.◌∷◌ c s) =
    if nat_eq (code c) b'-'
    then negative (number s)
    else if nat_eq (code c) b'+'
    then positive (number s)
    else positive (number (String.◌∷◌ c s))

abbrev without_sign : String → String
without_sign String.[] = ""
without_sign (String.◌∷◌ c s) =
    if nat_eq (code c) b'-' || nat_eq (code c) b'+' then s else String.◌∷◌ c s

abbrev fault_of : Option ℕ → String
fault_of none = "invalid syntax"
fault_of (some n) = "value out of range"

-- What the error of `strconv.Atoi` says of a text that it refuses.
unfoldable pub atoi_fault : String → String
unfolding digits
atoi_fault s = fault_of (number (without_sign s))

itoa_port : (itoa (pos 3306) ≡ "3306") × (itoa (negsuc 4) ≡ "-5") × (itoa (pos 0) ≡ "0")
unfolding itoa
itoa_port = (refl, refl, refl)

atoi_port : (atoi "3306" ≡ some (pos 3306)) × (atoi "-5" ≡ some (negsuc 4)) × (atoi "x" ≡ none)
unfolding atoi
atoi_port = (refl, refl, refl)

split_dashes : split b'-' "add-finalizer" ≡ "add" ∷ "finalizer" ∷ []
unfolding split
split_dashes = refl

to_upper_name : to_upper (dashes_to_underscores "mariadb-0") ≡ "MARIADB_0"
unfolding to_upper dashes_to_underscores
to_upper_name = refl
