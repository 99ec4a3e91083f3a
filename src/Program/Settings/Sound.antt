-- ===== src/Program/Settings/Sound.antt =====
-- What the checks of registrator.go promise of a configuration.
use registrator.Common.{
  ℕ, ◌≡◌, inl, inr, refl, sym, String, Bool, true, false, ◌&&◌, not, Option, none, some,
  if◌then◌else◌, ◌==◌, num_eq, arith, eq-cases, Option-cases,
}
use registrator.Common.Int.{ℤ, pos, negsuc, leb_ℤ, pos_part}
use registrator.Bridge.Types.{Config}
use registrator.Program.Address.{is_ipv4}
use registrator.Program.Lookup.{ip_from_external_source}
use registrator.Program.Settings.{
  Flags, Startup, exits, configured, discover, selected, config_of, has_bad_times, check_settings,
  check_discovered, configure, IsAddressOrNone, TimesFit, IsDeregisterCheck, IsSound,
}

same_parts :
    (c c' : Config) (i i' : String) → configured c i ≡ configured c' i' → (c ≡ c') × (i ≡ i')
same_parts c c' i i' e = (ground arith, ground arith)

fit : (ttl interval : ℤ) → has_bad_times ttl interval ≡ false → TimesFit ttl interval
unfolding has_bad_times
fit (pos a) (pos b) h = ground arith
fit (pos a) (negsuc b) h = ground arith
fit (negsuc a) interval h = inl (ground arith)

is_known :
    (s : String) → (not (s == "always") && not (s == "on-success")) ≡ false → IsDeregisterCheck s
is_known s h = elim (eq-cases s "always") [
  | inl (e, t) ↦ inl e
  | inr (e, t) ↦ elim (eq-cases s "on-success") [
    | inl (e', t') ↦ inr e'
    | inr (e', t') ↦ let h' = rw (t, t') at h in cc
  ]
]

same_some : (a b : String) → some a ≡ some b → a ≡ b
same_some a b e = ground arith

-- The cases of the lookup: no source, a failure, an address and another text.
chosen_address :
    (no_source success valid : Bool) (found ip : String)
    → is_ipv4 found ≡ valid
    → (if no_source then some "" else if success then some (if valid then found else "") else none)
      ≡ some ip
    → IsAddressOrNone ip
chosen_address true success valid found ip v e = inl (sym (same_some "" ip e))
chosen_address false true true found ip v e = let same = same_some found ip e in inr (rw (← same) v)
chosen_address false true false found ip v e = inl (sym (same_some "" ip e))
chosen_address false false valid found ip v e = cc

discover_address :
    (answer : ℕ → Option String) (f : Flags) (ip : String)
    → discover answer f ≡ some ip
    → IsAddressOrNone ip
unfolding discover
discover_address answer f ip e =
    chosen_address (f.ip_lookup_source == "") _ _
      (ip_from_external_source answer (pos_part f.ip_lookup_retries)).0 ip refl e

flag_address : (h : String) → (not (h == "") && not (is_ipv4 h)) ≡ false → IsAddressOrNone h
flag_address h e = elim (eq-cases h "") [
  | inl (e', t) ↦ inl e'
  | inr (e', t) ↦ inr (valid (is_ipv4 h) (rw t at e))
]
  where
    valid : (b : Bool) → not b ≡ false → b ≡ true
    valid b e = ground arith

selected_address :
    (f : Flags) (ip : String)
    → (not (f.host_ip == "") && not (is_ipv4 f.host_ip)) ≡ false
    → IsAddressOrNone ip
    → IsAddressOrNone (selected f ip)
selected_address f ip h a = elim (eq-cases ip "") [
  | inl (e, t) ↦ rw t (flag_address f.host_ip h)
  | inr (e, t) ↦ rw t a
]

passed :
    (t r d k : Bool) (c config : Config) (ip i : String)
    → (if t
        then exits 1
        else if r
        then exits 1
        else if d
        then exits 1
        else if k
        then exits 1
        else configured c ip)
      ≡ configured config i
    → (t ≡ false) × (k ≡ false) × (c ≡ config) × (ip ≡ i)
passed true r d k c config ip i e = cc
passed false true d k c config ip i e = cc
passed false false true k c config ip i e = cc
passed false false false true c config ip i e = cc
passed false false false false c config ip i e =
    let (same, same_ip) = same_parts c config ip i e in (refl, refl, same, same_ip)

check_settings-IsSound :
    (docker : Bool) (f : Flags) (ip i : String) (config : Config)
    → (not (f.host_ip == "") && not (is_ipv4 f.host_ip)) ≡ false
    → IsAddressOrNone ip
    → check_settings docker f ip ≡ configured config i
    → IsSound config i
unfolding check_settings
check_settings-IsSound docker f ip i config h a e =
    let (t, k, same, same_ip) =
      passed (has_bad_times f.refresh_ttl f.refresh_interval) (leb_ℤ f.retry_interval (pos 0))
        (not docker) (not (f.deregister == "always") && not (f.deregister == "on-success"))
        (config_of f ip) config ip i e in
    rw (← same, ← same_ip)
      (record {
        address = selected_address f ip h a;
        discovered = a;
        times = fit f.refresh_ttl f.refresh_interval t;
        check = is_known f.deregister k;
      })

-- The guards before the lookup.
guarded :
    (n h l : Bool) (s : Startup) (config : Config) (i : String)
    → (if n then exits 2 else if h then exits 2 else if l then exits 2 else s) ≡ configured config i
    → (h ≡ false) × (s ≡ configured config i)
guarded true h l s config i e = cc
guarded false true l s config i e = cc
guarded false false true s config i e = cc
guarded false false false s config i e = (refl, e)

-- When the program gets past its flags, the host's address of the configuration and the discovered
-- one are each empty or four octets, the times fit, and the check of exited containers is one of the
-- two that there are.
pub configure-IsSound :
    (answer : ℕ → Option String) (docker : Bool) (f : Flags) (config : Config) (ip : String)
    → configure answer docker f ≡ configured config ip
    → IsSound config ip
unfolding configure
configure-IsSound answer docker f config ip e =
    let (h, e') =
      guarded (not (num_eq f.arguments 1)) (not (f.host_ip == "") && not (is_ipv4 f.host_ip))
        (leb_ℤ f.ip_lookup_retries (pos 0)) (check_discovered docker f (discover answer f)) config
        ip e in
    elim (Option-cases (discover answer f)) [
      | inl d ↦ let e'' = rw d at e' in cc
      | inr (i, d) ↦
          check_settings-IsSound docker f i ip config h (discover_address answer f i d) (rw d at e')
    ]

-- The address that the first synchronisation has.
pub configure-selected :
    (answer : ℕ → Option String) (docker : Bool) (f : Flags) (config : Config) (ip : String)
    → configure answer docker f ≡ configured config ip
    → IsAddressOrNone (selected f ip)
unfolding configure
configure-selected answer docker f config ip e =
    let (h, _) =
      guarded (not (num_eq f.arguments 1)) (not (f.host_ip == "") && not (is_ipv4 f.host_ip))
        (leb_ℤ f.ip_lookup_retries (pos 0)) (check_discovered docker f (discover answer f)) config
        ip e in
    let sound : IsSound config ip = configure-IsSound answer docker f config ip e in
    selected_address f ip h sound.discovered
