-- ===== src/Bridge/Port.antt =====
-- servicePort of bridge/util.go: a port of a container, and the address it is published at.
use registrator.Common.{String, Bool, ◌&&◌, not, List, [], ◌∷◌, map, if◌then◌else◌, ◌==◌}
use registrator.Common.Map.{Map, get_or}
use registrator.Common.Text.{chars, text, split}
use registrator.Bridge.Types.{PortBinding, Container, ServicePort}

abbrev first_port : List PortBinding → String
first_port [] = ""
first_port (b ∷ bs) = b.host_port

abbrev first_ip : List PortBinding → String
first_ip [] = ""
first_ip (b ∷ bs) = b.host_ip

abbrev head_or : String → List String → String
head_or d [] = d
head_or d (x ∷ xs) = x

-- `exposedPort[1]` if there are two parts, and tcp otherwise
abbrev port_type_of : List String → String
port_type_of (p ∷ t ∷ []) = t
port_type_of _ = "tcp"

-- The loop over the networks leaves the address of the last one.
last_address : String → Map String → String
last_address ip [] = ip
last_address ip ((n, a) ∷ networks) = last_address a networks

abbrev is_plain_network : String → Bool
is_plain_network nm = not (not (nm == "bridge") && not (nm == "default") && not (nm == "host"))

host_ip_of : Container → List PortBinding → String
unfolding get_or
host_ip_of c published =
    let ip = first_ip published in
    let hip = if ip == "" then "0.0.0.0" else ip in
    if not (is_plain_network c.network_mode) then get_or "" c.network_mode c.networks else hip

unfoldable pub exposed_ip_of : Container → String
unfolding last_address
exposed_ip_of c = if c.ip_address == "" then last_address c.ip_address c.networks else c.ip_address

unfoldable pub service_port : Container → String → List PortBinding → ServicePort
unfolding host_ip_of exposed_ip_of split
service_port c port published =
    let parts = map text (split b'/' (chars port)) in
    record {
      host_port = first_port published;
      host_ip = host_ip_of c published;
      exposed_port = head_or "" parts;
      exposed_ip = exposed_ip_of c;
      port_type = port_type_of parts;
      container_hostname = c.container_hostname;
      container_id = c.id;
      container_name = c.name;
    }
