-- ===== src/Orders/Input.antt =====
-- The checks of app/orders.py on what the customer typed: `validate_link` and `validate_extra`.
use Prim.Native.String.{String}
use Prim.Native.Char.{code}
use smmfalcron.Prelude.{
  ℕ, Bool, true, false, not, Option, none, some, List, map, ◌&&◌, ◌||◌, ◌==◌, string_eq, nat_eq,
  nat_eqb, ltb, leb, length, select, chars, any_char, strip, strip_left, split_at, join_with,
  append, if◌then◌else◌,
}
use smmfalcron.Models.{Extra, Service}
use smmfalcron.Env.{Env}
use smmfalcron.Session.{Session, order_error, throw, return}

-- One of two spellings; the second letter of "s" may also be U+017F, as `re.IGNORECASE` has it.
abbrev is_letter : ℕ → ℕ → ℕ → Bool
is_letter small large c = nat_eqb c small || nat_eqb c large

-- The rest of a text whose first character passes the test.
abbrev eat : (ℕ → Bool) → Option String → Option String
eat p none = none
eat p (some String.[]) = none
eat p (some (String.◌∷◌ c s)) = if p (code c) then some s else none

abbrev or_else : Option String → Option String → Option String
or_else none b = b
or_else (some a) b = some a

abbrev is_some {ℓ} : {A : Type ℓ} → Option A → Bool
is_some none = false
is_some (some a) = true

-- `_LINK_RE.match`: ^https?://
unfoldable pub has_scheme : String → Bool
has_scheme s =
    let t = is_letter b't' b'T' in
    let http = eat (is_letter b'p' b'P') (eat t (eat t (eat (is_letter b'h' b'H') (some s)))) in
    let secure = or_else (eat (λ c. is_letter b's' b'S' c || nat_eqb c 0x17f) http) http in
    let slash = nat_eqb b'/' in is_some (eat slash (eat slash (eat (nat_eqb b':') secure)))

abbrev pub starts_with_at : String → Bool
starts_with_at String.[] = false
starts_with_at (String.◌∷◌ c s) = nat_eqb (code c) b'@'

module _ ⦃env : Env⦄ where
  unfoldable pub validate_link : String → Session String
  validate_link link =
      let cleaned = strip env.is_space link in
      if cleaned == ""
      then throw (order_error "A target link is required")
      else if ltb 1024 (chars cleaned)
      then throw (order_error "Link is too long")
      else if has_scheme cleaned
      then return cleaned
      else if starts_with_at cleaned
      then return cleaned
      else if any_char (nat_eqb b' ') cleaned
      then throw (order_error "Link must not contain spaces")
      else if any_char (nat_eqb b'.') cleaned
      then return cleaned
      else throw (order_error "Enter a valid URL or @username")

  abbrev pub or_empty : Option String → String
  or_empty none = ""
  or_empty (some s) = s

  -- `a or b` of two texts that may be missing
  abbrev pub either_text : Option String → Option String → String
  either_text a b = if or_empty a == "" then or_empty b else or_empty a

  -- The characters at which `splitlines` ends a line.
  abbrev ends_line : ℕ → Bool
  ends_line c =
      (leb 10 c && leb c 13)
      || ((leb 0x1c c && leb c 0x1e) || (nat_eqb c 0x85 || (nat_eqb c 0x2028 || nat_eqb c 0x2029)))

  abbrev stripped_pieces : (ℕ → Bool) → String → List String
  stripped_pieces p s = select (λ w. not (w == "")) (map (strip env.is_space) (split_at p s))

  -- `re.split(r"[\\s,]+", …)`; the empty pieces are dropped afterwards
  abbrev separates : ℕ → Bool
  separates c = env.is_space c || nat_eqb c b','

  abbrev pub comments_kind : String → Bool
  comments_kind stype = stype == "comments" || stype == "custom_comments"

  abbrev pub mentions_kind : String → Bool
  mentions_kind stype = stype == "mentions" || stype == "comment_mentions"

  unfoldable pub with_comments : Extra → Session Extra
  with_comments extra =
      let comments = strip env.is_space (or_empty extra.comments) in
      if comments == ""
      then throw (order_error "This service requires comments (one per line)")
      else (let lines = stripped_pieces ends_line comments in
          return (record extra {
            comments = some (join_with "\n" lines);
            comment_count = some (length lines);
          }))

  unfoldable pub with_mentions : Extra → Session Extra
  with_mentions extra =
      let mentions = strip env.is_space (either_text extra.mentions extra.usernames) in
      if mentions == ""
      then throw (order_error "This service requires usernames to mention")
      else (let names = map (strip_left (nat_eqb b'@')) (stripped_pieces separates mentions) in
          return (record extra {
            mentions = some (join_with " " (map (append "@") names));
            usernames = some (join_with "\n" names);
          }))

  -- No type is of both kinds, so at most one of the two parts of the function runs.
  unfoldable pub validate_extra : Service → Extra → Session Extra
  validate_extra svc extra =
      let stype = env.lower (if svc.service_type == "" then "default" else svc.service_type) in
      if comments_kind stype
      then with_comments extra
      else if mentions_kind stype
      then with_mentions extra
      else return extra
