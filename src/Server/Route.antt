-- ===== src/Server/Route.antt =====
-- server/internal/route/route.go: which rule an inbound payload fires. Regular expressions are a
-- parameter, and a number of the payload comes with what Go's math and strconv say of it.
pub mod Condition
pub mod Found
mod Tests
use netherchat.Base.{
  ℕ, ◌+◌, Bool, true, false, not, ◌&&◌, ◌||◌, Option, none, some, List, [], ◌∷◌, ◌++◌, Text, codes,
  ◌==◌, eqb, if◌then◌else◌,
}
use netherchat.Base.Int.{ℤ}
use netherchat.Base.Dict.{Dict}

-- A float64, by the calls that toString makes on it: math.IsInf, math.IsNaN, the comparison with
-- math.Trunc, strconv.FormatInt of its int64 and strconv.FormatFloat.
pub record Float64 : Type 0 where
  pub is_inf : Bool
  pub is_nan : Bool
  pub is_trunc : Bool
  pub format_int : Text
  pub format_float : Text

mutual
  -- A decoded JSON value.
  pub data Json : Type 0 where
    text : Text → Json
    boolean : Bool → Json
    number : Float64 → Json
    null : Json
    array : Json
    object : Fields → Json

  pub data Fields : Type 0 where
    empty : Fields
    with_field : Text → Json → Fields → Fields

-- config.RouteConfig
pub record Route : Type 0 where
  pub match : Dict Text
  pub action : Text
  pub invite : List Text
  pub ttl : ℤ
  pub room_prefix : Text
  pub reply_url : Text

-- regexp.Compile of ^(?:pattern)$ and MatchString: nothing for a pattern that does not compile.
pub record Regexp : Type 0 where
  pub match_string : Text → Text → Option Bool

abbrev pub regex_meta : Text
regex_meta = codes ".*+?()[]{}|^$\\"

abbrev pub has_byte : ℕ → Text → Bool
has_byte c [] = false
has_byte c (b ∷ bs) = eqb b c || has_byte c bs

-- strings.ContainsAny
unfoldable pub contains_any : Text → Text → Bool
contains_any [] chars = false
contains_any (b ∷ bs) chars = has_byte b chars || contains_any bs chars

-- m[p]
unfoldable pub field_of : Text → Fields → Option Json
field_of p Fields.empty = none
field_of p (Fields.with_field k v fs) = let rest = field_of p fs in if k == p then some v else rest

abbrev pub child : Json → Text → Option Json
child (Json.object fs) p = field_of p fs
child _ p = none

-- strings.Split(_, ".")
unfoldable pub split_dots : Text → Text → List Text
split_dots word [] = word ∷ []
split_dots word (b ∷ bs) =
    let here = split_dots [] bs in
    let on = split_dots (word ++ b ∷ []) bs in if eqb b 46 then word ∷ here else on

-- The loop of lookup.
unfoldable pub descend : Json → List Text → Option Json
descend cur [] = some cur
descend cur (p ∷ ps) = elim (child cur p) [ none ↦ none | some next ↦ descend next ps ]

-- lookup
unfoldable pub lookup : Fields → Text → Option Json
lookup payload path = descend (Json.object payload) (split_dots [] path)

-- toString
unfoldable pub to_string : Json → Option Text
to_string (Json.text t) = some t
to_string (Json.boolean b) = some (if b then codes "true" else codes "false")
to_string (Json.number x) =
    if not x.is_inf && not x.is_nan && x.is_trunc then some x.format_int else some x.format_float
to_string _ = none

module _ ⦃re : Regexp⦄ where
  -- matchValue
  unfoldable pub match_value : Text → Text → Bool
  match_value pattern actual =
      if contains_any pattern regex_meta
      then elim (re.match_string pattern actual) [ none ↦ false | some b ↦ b ]
      else pattern == actual

  -- The body of the loop of matches.
  unfoldable pub holds : Fields → Text → Text → Bool
  holds payload field pattern = elim (lookup payload field) [
    | none ↦ false
    | some actual ↦ elim (to_string actual) [ none ↦ false | some s ↦ match_value pattern s ]
  ]

  -- matches
  unfoldable pub matches : Dict Text → Fields → Bool
  matches [] payload = true
  matches ((field, pattern) ∷ m) payload = holds payload field pattern && matches m payload

  unfoldable pub match_from : ℕ → List Route → Fields → Option (ℕ × Route)
  match_from i [] payload = none
  match_from i (r ∷ rs) payload =
      let rest = match_from (i + 1) rs payload in
      if not (r.action == codes "break-glass")
      then rest
      else if matches r.match payload
      then some (i, r)
      else rest

  -- Match
  unfoldable pub match_route : List Route → Fields → Option (ℕ × Route)
  match_route routes payload = match_from 0 routes payload
