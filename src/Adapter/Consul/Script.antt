-- ===== src/Adapter/Consul/Script.antt =====
-- The texts of the scripts of consul/consul.go.
use registrator.Common.{
  ℕ, zero, suc, ◌-◌, String, Char, Option, none, some, List, [], ◌∷◌, ◌++◌, length,
}
use registrator.Common.Text.{chars, text, strip_prefix}
use registrator.Bridge.Types.{Service}

-- strings.Replace(s, old, new, -1) for an old text that is not empty: the number is that of the
-- characters of a match that are still to be skipped.
unfoldable pub replace_from : ℕ → List Char → List Char → List Char → List Char
unfolding strip_prefix
replace_from skip old new [] = []
replace_from (suc skip) old new (c ∷ s) = replace_from skip old new s
replace_from zero old new (c ∷ s) = elim (strip_prefix old (c ∷ s)) [
  | none ↦ c ∷ replace_from zero old new s
  | some _ ↦ new ++ replace_from (length old - 1) old new s
]

unfoldable pub replace_all : String → String → String → String
unfolding replace_from
replace_all s old new = text (replace_from zero (chars old) (chars new) (chars s))

unfoldable pub interpolate_service : String → Service → String
unfolding replace_all
interpolate_service script s =
    replace_all (replace_all script "$SERVICE_IP" s.origin.host_ip) "$SERVICE_PORT"
      s.origin.host_port

-- containerID[:12], `none` at a shorter id
unfoldable pub short_id : ℕ → List Char → Option (List Char)
short_id zero s = some []
short_id (suc n) [] = none
short_id (suc n) (c ∷ s) = elim (short_id n s) [ none ↦ none | some t ↦ some (c ∷ t) ]
