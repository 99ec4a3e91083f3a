-- ===== src/Examples/Startup.antt =====
-- The start of the program, and its calls of the external source.
use registrator.Common.{
  ℕ, ◌≡◌, refl, String, true, false, Option, some, none, [], leb, Bool, arith, if◌then◌else◌,
}
use registrator.Common.Int.{pos, negsuc}
use registrator.Program.Address.{is_ipv4}
use registrator.Program.Lookup.{lookup_from, ip_from_external_source}
use registrator.Program.Connect.{connect, connected, connect-hit}
use registrator.Program.Settings.{Flags}
use registrator.Program.Events.{resync_process, resynced}
use registrator.Examples.Fixtures.{settings}

is_ipv4_tests :
    (is_ipv4 "10.0.0.255" ≡ true)
    × (is_ipv4 "10.0.0.256" ≡ false)
    × (is_ipv4 "10.0.01.2" ≡ false)
    × (is_ipv4 "10.0.0" ≡ false)
unfolding is_ipv4
is_ipv4_tests = (refl, refl, refl, refl)

-- The second attempt and those after it have an answer.
abbrev second_answer : String → ℕ → Option String
second_answer ip attempt = if leb 2 attempt then some ip else none

-- The registry answers from the third attempt on.
abbrev third_ping : ℕ → Bool
third_ping attempt = leb 2 attempt

connect-hit_example : connect third_ping (negsuc 0) 3 ≡ some (connected 2)
connect-hit_example = connect-hit third_ping (negsuc 0) 2 tt (λ j lt. ground arith) refl

abbrev pub flags : Flags
flags = record {
  arguments = 1;
  host_ip = "10.0.0.1";
  internal = false;
  use_ip_from_label = "";
  refresh_interval = pos 10;
  refresh_ttl = pos 30;
  resync_interval = pos 0;
  force_tags = "";
  deregister = "on-success";
  retry_attempts = pos 0;
  retry_interval = pos 2000;
  cleanup = true;
  require_label = false;
  ip_lookup_source = "http://ip";
  ip_lookup_retries = pos 3;
  exit_on_ip_lookup_failure = false;
}

-- An answer that is no address becomes the discovered one, and no synchronisation is asked for.
resync_process_test :
    resync_process (second_answer "busy") 3 settings "http://ip" "10.0.0.8" ≡ resynced "busy" []
unfolding resync_process ip_from_external_source lookup_from is_ipv4
resync_process_test = refl
