-- ===== src/Bridge/ServiceId/Laws.antt =====
-- The pattern of bridge/bridge.go and the IDs that newService makes.
use registrator.Common.{
  ◌≡◌, ◌≢◌, refl, ◌∙◌, String, ◌<>◌, Char, true, false, none, some, List, [], ◌∷◌, ◌++◌,
  append_assoc, append-nil, All, arith,
}
use registrator.Common.Text.{chars, text, is, is_digit, text-chars, chars-append}
use registrator.Bridge.ServiceId.{
  is_alphanumeric, is_name_char, is_dot, is_end, is_port_rest, is_port_end, name_rest, match_name,
  match_from, find_service_id,
}

service_id_tests :
    (find_service_id "host1:redis.0:6379" ≡ some ("host1", "redis.0"))
    × (find_service_id "host1:redis.0:6379:udp" ≡ some ("host1", "redis.0"))
    × (find_service_id "fe80::1:web-1:80" ≡ some ("fe80::1", "web-1"))
    × (find_service_id "host1:r:6379" ≡ none)
    × (find_service_id ":redis:6379" ≡ none)
    × (find_service_id "host1:redis:63x" ≡ none)
unfolding find_service_id
service_id_tests = (refl, refl, refl, refl, refl, refl)

-- A host name: no colon and no line feed.
abbrev pub IsHost : List Char → Type 0
IsHost h = (h ≢ []) × All (λ c. (is_dot c ≡ true) × (is b':' c ≡ false)) h

abbrev AreNameChars : List Char → Type 0
AreNameChars = All (λ c. is_name_char c ≡ true)

-- A container's name: two characters at least, and a letter or a digit first, as Docker wants it.
abbrev pub IsContainerName : List Char → Type 0
IsContainerName (c ∷ d ∷ n) = (is_alphanumeric c ≡ true) × AreNameChars (d ∷ n)
IsContainerName _ = ⊥

abbrev AreDigits : List Char → Type 0
AreDigits = All (λ c. is_digit c ≡ true)

abbrev pub IsNumber : List Char → Type 0
IsNumber p = (p ≢ []) × AreDigits p

port_rest_of : (p e : List Char) → AreDigits p → is_end e ≡ true → is_port_rest (p ++ e) ≡ true
unfolding is_port_rest
port_rest_of [] [] h he = refl
port_rest_of [] (c ∷ e) h he = rw he refl
port_rest_of (c ∷ p) e (hc, h) he = ground (arith, port_rest_of p e h he)

port_end_of : (p e : List Char) → IsNumber p → is_end e ≡ true → is_port_end (p ++ e) ≡ true
unfolding is_port_end
port_end_of [] e h he = absurd (h.0 refl)
port_end_of (c ∷ p) e (ne, (hc, h)) he = rw (hc, port_rest_of p e h he) refl

name_char_not_colon : (c : Char) → is_name_char c ≡ true → is b':' c ≡ false
name_char_not_colon c h = ground arith

name_rest_of :
    (n r : List Char)
    → AreNameChars n
    → is_port_end r ≡ true
    → name_rest (n ++ (chars ":" ++ r)) ≡ some n
unfolding name_rest
name_rest_of [] r h hr = rw hr refl
name_rest_of (c ∷ n) r (hc, h) hr = rw (name_char_not_colon c hc, hc, name_rest_of n r h hr) refl

match_name_of :
    (n r : List Char)
    → IsContainerName n
    → is_port_end r ≡ true
    → match_name (n ++ (chars ":" ++ r)) ≡ some n
unfolding match_name
match_name_of [] r h hr = absurd h
match_name_of (c ∷ []) r h hr = absurd h
match_name_of (c ∷ d ∷ n) r (hc, h) hr = rw (hc, name_rest_of (d ∷ n) r h hr) refl

match_from_host :
    (acc h r : List Char)
    → All (λ c. (is_dot c ≡ true) × (is b':' c ≡ false)) h
    → match_from acc (h ++ r) ≡ match_from (acc ++ h) r
unfolding match_from
match_from_host acc [] r hh = rw append-nil refl
match_from_host acc (c ∷ h) r ((hd, hc), hh) =
    rw (hd, hc) (match_from_host (acc ++ c ∷ []) h r hh ∙ rw (append_assoc acc (c ∷ []) h) refl)

match_from_colon :
    (h n r : List Char) → match_name r ≡ some n → match_from h (chars ":" ++ r) ≡ some (h, n)
unfolding match_from
match_from_colon h n r e = rw e refl

find_of_chars :
    (id : String) (h n r : List Char)
    → chars id ≡ h ++ (chars ":" ++ (n ++ (chars ":" ++ r)))
    → IsHost h
    → IsContainerName n
    → is_port_end r ≡ true
    → find_service_id id ≡ some (text h, text n)
unfolding find_service_id
find_of_chars id [] n r e hh hn hr = absurd (hh.0 refl)
find_of_chars id (c ∷ h) n r e (ne, ((hd, hc), hh)) hn hr =
    rw (e, find_service_id)
      (rw
        (
          hd,
          match_from_host (c ∷ []) h (chars ":" ++ (n ++ (chars ":" ++ r))) hh,
          match_from_colon (c ∷ h) n (n ++ (chars ":" ++ r)) (match_name_of n r hn hr),
        )
        refl)

-- The texts of which an ID is made.
module _ (host name port : String) (hh : IsHost (chars host)) (hn : IsContainerName (chars name))
    (hp : IsNumber (chars port)) where
  pub find_of_parts :
      (end : String)
      → is_end (chars end) ≡ true
      → find_service_id (host <> (":" <> (name <> (":" <> (port <> end))))) ≡ some (host, name)
  find_of_parts end he =
      find_of_chars _ (chars host) (chars name) (chars port ++ chars end) (simp chars-append) hh hn
        (port_end_of (chars port) (chars end) hp he)
      ∙ rw (text-chars host, text-chars name) refl
