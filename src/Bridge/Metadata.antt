-- ===== src/Bridge/Metadata.antt =====
-- mapDefault, lookupMetaData and serviceMetaData of bridge/util.go. The loop over a map is a loop
-- over a list of its entries, in any order.
pub mod Laws
use registrator.Common.{
  String, Bool, true, false, ◌&&◌, Option, none, some, List, [], ◌∷◌, if◌then◌else◌, ◌==◌,
}
use registrator.Common.Int.{ℤ}
use registrator.Common.Map.{Map, get, get_or, put}
use registrator.Common.Text.{chars, text, cut, strip_prefix, to_lower, atoi}

abbrev or_default : String → Option String → String
or_default default none = default
or_default default (some v) = if v == "" then default else v

unfoldable pub map_default : Map String → String → String → String
unfolding get
map_default m key default = or_default default (get key m)

-- `str[1]` behind a name that matches. `none` is an index out of range.
abbrev value_of : Option String → Option String
value_of none = none
value_of (some v) = some v

-- strings.SplitN(v, "=", 2), as a name and the text behind the first `=` if there is one
unfoldable pub split_variable : String → String × Option String
unfolding cut
split_variable v =
    let (name, value) = cut b'=' (chars v) in
    (text name, elim value [ none ↦ none | some s ↦ some (text s) ])

-- lookupMetaData; `none` is the panic on a matching variable with no `=`.
unfoldable pub lookup_meta_data : List String → String → Option String
unfolding split_variable to_lower
lookup_meta_data [] key = some ""
lookup_meta_data (v ∷ env) key =
    let (name, value) = split_variable v in
    if text (to_lower (chars name)) == text (to_lower (chars key))
    then value
    else lookup_meta_data env key

-- A write to a nil map panics, and so does a variable with no `=`.
abbrev put_label : Option (Map String) → String → Option String → Option (Map String)
put_label none name value = none
put_label (some m) name none = none
put_label (some m) name (some value) = some (put name value m)

-- The first loop of serviceMetaData: the variables are written into the container's own labels.
unfoldable pub merge_env : Option (Map String) → List String → Option (Option (Map String))
unfolding split_variable put
merge_env labels [] = some labels
merge_env labels (v ∷ env) =
    let (name, value) = split_variable v in
    elim (put_label labels name value) [ none ↦ none | some m ↦ merge_env (some m) env ]

-- What a key of the labels sets: nothing, a value for every port, or one for a port. A key for a port
-- is kept whole too, since the second loop looks it up before it reads the port.
pub data Target : Type 0 where
  ignored : Target
  generic : String → Target
  specific : String → String → Target

-- `key` is in lower case, without `SERVICE_`.
abbrev key_target : String → String → String → Option String → Option ℤ → Target
key_target port key first (some rest) (some n) =
    if first == port then specific key rest else ignored
key_target port key first _ _ = generic key

unfoldable pub target : String → String → Target
unfolding strip_prefix to_lower cut atoi
target port ks = elim (strip_prefix (chars "SERVICE_") (chars ks)) [
  | none ↦ ignored
  | some rest ↦
      let key = to_lower rest in
      let (first, after) = cut b'_' key in
      key_target port (text key) (text first) (elim after [ none ↦ none | some s ↦ some (text s) ])
        (atoi first)
]

-- The two maps that serviceMetaData fills: `metadata` and `metadataFromPort`.
pub record Collected : Type 0 where
  pub values : Map String
  pub from_port : Map Bool

-- One round of the second loop.
pub collect_target : Collected → Target → String → Collected
unfolding get_or put
collect_target c ignored kv = c
collect_target c (generic key) kv =
    if get_or false key c.from_port then c else record c { values = put key kv c.values }
collect_target c (specific key rest) kv =
    if get_or false key c.from_port
    then c
    else record { values = put rest kv c.values; from_port = put rest true c.from_port }

pub collect_entries : String → Collected → Map String → Collected
unfolding target collect_target
collect_entries port c [] = c
collect_entries port c ((ks, kv) ∷ meta) =
    collect_entries port (collect_target c (target port ks) kv) meta

abbrev pub nothing_collected : Collected
nothing_collected = record { values = []; from_port = [] }

-- The second loop of serviceMetaData, over the labels as the first loop left them. A key for another
-- port is skipped with its `continue`, which `target` calls ignored; the map lookup before it reads
-- nothing that this changes.
unfoldable pub service_meta_data : String → Map String → Collected
unfolding collect_entries
service_meta_data port meta = collect_entries port nothing_collected meta
