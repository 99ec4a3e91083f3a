-- ===== src/Bridge/ServiceId.antt =====
-- serviceIDPattern of bridge/bridge.go, ^(.+?):([a-zA-Z0-9][a-zA-Z0-9_.-]+):[0-9]+(?::udp)?$, and
-- FindStringSubmatch with it. The first group is tried from the shortest text on.
pub mod Laws
use registrator.Common.{
  String, Char, code, Bool, true, false, ◌&&◌, ◌||◌, not, Option, none, some, List, [], ◌∷◌, ◌++◌,
  if◌then◌else◌, leb,
}
use registrator.Common.Text.{chars, text, is, is_digit, strip_prefix}

-- [a-zA-Z0-9]
abbrev pub is_alphanumeric : Char → Bool
is_alphanumeric c =
    is_digit c
    || (leb b'a' (code c) && leb (code c) b'z')
    || (leb b'A' (code c) && leb (code c) b'Z')

-- [a-zA-Z0-9_.-]
abbrev pub is_name_char : Char → Bool
is_name_char c = is_alphanumeric c || is b'_' c || is b'.' c || is b'-' c

-- `.` matches all but a line feed.
abbrev pub is_dot : Char → Bool
is_dot c = not (is b'\n' c)

-- (?::udp)?$
unfoldable pub is_end : List Char → Bool
unfolding strip_prefix
is_end [] = true
is_end (c ∷ s) = elim (strip_prefix (chars ":udp") (c ∷ s)) [ some [] ↦ true | _ ↦ false ]

-- [0-9]*(?::udp)?$
unfoldable pub is_port_rest : List Char → Bool
unfolding is_end
is_port_rest [] = true
is_port_rest (c ∷ s) = is_end (c ∷ s) || (is_digit c && is_port_rest s)

-- [0-9]+(?::udp)?$
unfoldable pub is_port_end : List Char → Bool
unfolding is_port_rest
is_port_end [] = false
is_port_end (c ∷ s) = is_digit c && is_port_rest s

-- [a-zA-Z0-9_.-]*:[0-9]+(?::udp)?$, with what the star matches. No name character is a colon, so
-- there is one way to match.
unfoldable pub name_rest : List Char → Option (List Char)
unfolding is_port_end
name_rest [] = none
name_rest (c ∷ s) =
    let more : Option (List Char) = elim (name_rest s) [ none ↦ none | some n ↦ some (c ∷ n) ] in
    if is b':' c
    then (if is_port_end s then some [] else none)
    else if is_name_char c
    then more
    else none

-- [a-zA-Z0-9][a-zA-Z0-9_.-]+:[0-9]+(?::udp)?$
abbrev long_name : Char → Option (List Char) → Option (List Char)
long_name c (some (d ∷ n)) = some (c ∷ d ∷ n)
long_name c _ = none

unfoldable pub match_name : List Char → Option (List Char)
unfolding name_rest
match_name [] = none
match_name (c ∷ s) = if is_alphanumeric c then long_name c (name_rest s) else none

-- The two groups, behind the part of the first that is matched already: the group ends at the first
-- colon at which the rest matches.
unfoldable pub match_from : List Char → List Char → Option (List Char × List Char)
unfolding match_name
match_from host [] = none
match_from host (c ∷ s) =
    let go_on = if is_dot c then match_from (host ++ c ∷ []) s else none in
    if is b':' c
    then elim (match_name s) [ some name ↦ some (host, name) | none ↦ go_on ]
    else go_on

-- `none` where FindStringSubmatch finds no match. The first group has one character at least.
unfoldable pub find_service_id : String → Option (String × String)
unfolding match_from
find_service_id id = elim (chars id) [
  | [] ↦ none
  | c ∷ s ↦
      if is_dot c
      then elim (match_from (c ∷ []) s) [
        | none ↦ none
        | some (host, name) ↦ some (text host, text name)
      ]
      else none
]
