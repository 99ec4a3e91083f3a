-- ===== src/Program/Settings.antt =====
-- The start of registrator.go, from the parsed flags to the bridge's configuration. The log, and the
-- environment variable that names the Docker host, are not modelled.
pub mod Sound
use registrator.Common.{
  ℕ, ◌≡◌, ◌≢◌, ◌⊎◌, inl, inr, refl, sym, ◌∙◌, String, Bool, true, false, ◌&&◌, ◌||◌, not, Option,
  none, some, if◌then◌else◌, ◌==◌, num_eq, arith, eq_iff, Bool-cases, eq-cases, Option-cases,
}
use registrator.Common.Int.{ℤ, pos, negsuc, leb_ℤ, eq_ℤ, pos_part}
use registrator.Bridge.Types.{Config}
use registrator.Program.Address.{is_ipv4}
use registrator.Program.Lookup.{
  no_lookup, set_external_ip_source, set_ip_lookup_retries, ip_from_external_source,
}

pub record Flags : Type 0 where
  pub arguments : ℕ
  pub host_ip : String
  pub internal : Bool
  pub use_ip_from_label : String
  pub refresh_interval : ℤ
  pub refresh_ttl : ℤ
  pub resync_interval : ℤ
  pub force_tags : String
  pub deregister : String
  pub retry_attempts : ℤ
  pub retry_interval : ℤ
  pub cleanup : Bool
  pub require_label : Bool
  pub ip_lookup_source : String
  pub ip_lookup_retries : ℤ
  pub exit_on_ip_lookup_failure : Bool

-- The program ends with a code, that of log.Fatal being 1, or goes on with a configuration and the
-- discovered address.
pub data Startup : Type 0 where
  exits : ℕ → Startup
  configured : Config → String → Startup

-- The address from the external source: one that is no address is logged, and the start goes on
-- without it.
unfoldable pub discover : (ℕ → Option String) → Flags → Option String
unfolding ip_from_external_source is_ipv4
discover answer f =
    let settings =
      set_external_ip_source f.ip_lookup_source
        (set_ip_lookup_retries f.ip_lookup_retries no_lookup) in
    let (ip, success) = ip_from_external_source answer (pos_part settings.retries) in
    if f.ip_lookup_source == ""
    then some ""
    else if success
    then some (if is_ipv4 ip then ip else "")
    else none

abbrev pub selected : Flags → String → String
selected f ip = if ip == "" then f.host_ip else ip

abbrev pub config_of : Flags → String → Config
config_of f ip = record {
  host_ip = selected f ip;
  internal = f.internal;
  use_ip_from_label = f.use_ip_from_label;
  force_tags = f.force_tags;
  refresh_ttl = f.refresh_ttl;
  refresh_interval = f.refresh_interval;
  deregister_check = f.deregister;
  cleanup = f.cleanup;
  require_label = f.require_label;
  exit_on_ip_lookup_failure = f.exit_on_ip_lookup_failure;
}

-- The checks of the two times.
unfoldable pub has_bad_times : ℤ → ℤ → Bool
has_bad_times ttl interval =
    (eq_ℤ ttl (pos 0) && not (leb_ℤ interval (pos 0)))
    || ((not (leb_ℤ ttl (pos 0)) && eq_ℤ interval (pos 0))
        || (not (leb_ℤ ttl (pos 0)) && leb_ℤ ttl interval))

-- The checks behind the lookup. Whether a Docker client is made is the first argument.
unfoldable pub check_settings : Bool → Flags → String → Startup
unfolding has_bad_times
check_settings docker f ip =
    if has_bad_times f.refresh_ttl f.refresh_interval
    then exits 1
    else if leb_ℤ f.retry_interval (pos 0)
    then exits 1
    else if not docker
    then exits 1
    else if not (f.deregister == "always") && not (f.deregister == "on-success")
    then exits 1
    else configured (config_of f ip) ip

abbrev pub check_discovered : Bool → Flags → Option String → Startup
check_discovered docker f none = exits 2
check_discovered docker f (some ip) = check_settings docker f ip

unfoldable pub configure : (ℕ → Option String) → Bool → Flags → Startup
unfolding check_settings discover is_ipv4
configure answer docker f =
    if not (num_eq f.arguments 1)
    then exits 2
    else if not (f.host_ip == "") && not (is_ipv4 f.host_ip)
    then exits 2
    else if leb_ℤ f.ip_lookup_retries (pos 0)
    then exits 2
    else check_discovered docker f (discover answer f)

-- No address, or one of four octets.
abbrev pub IsAddressOrNone : String → Type 0
IsAddressOrNone ip = (ip ≡ "") ⊎ (is_ipv4 ip ≡ true)

-- The times fit: the time to live is negative, or it is zero and there are no refreshes, or there are
-- refreshes and it is longer than their interval.
abbrev pub TimesFit : ℤ → ℤ → Type 0
TimesFit ttl interval =
    (leb_ℤ ttl (negsuc 0) ≡ true)
    ⊎ (((eq_ℤ ttl (pos 0) ≡ true) × (leb_ℤ interval (pos 0) ≡ true))
        ⊎ ((leb_ℤ ttl interval ≡ false) × (eq_ℤ interval (pos 0) ≡ false)))

abbrev pub IsDeregisterCheck : String → Type 0
IsDeregisterCheck s = (s ≡ "always") ⊎ (s ≡ "on-success")

-- What a configuration promises to the bridge.
pub record IsSound (config : Config) (ip : String) : Type 0 where
  pub address : IsAddressOrNone config.host_ip
  pub discovered : IsAddressOrNone ip
  pub times : TimesFit config.refresh_ttl config.refresh_interval
  pub check : IsDeregisterCheck config.deregister_check
