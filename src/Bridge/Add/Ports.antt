-- ===== src/Bridge/Add/Ports.antt =====
-- The ports that `add` of bridge/bridge.go makes of a container.
use registrator.Common.{
  ◌≢◌, eq_of_ne, ℕ, zero, suc, ◌≡◌, ◌⊎◌, inl, inr, refl, ap, ◌∙◌, Char, ◌++◌, ◌<>◌, append_assoc,
  append-nil, String, Bool, true, false, none, some, Option, List, [], ◌∷◌, All, if◌then◌else◌,
  ◌==◌,
}
use registrator.Common.Map.{Map}
use registrator.Common.Text.{chars, is, split, split_from, chars-append, text-chars}
use registrator.Common.Values.{AllValues, put-AllValues}
use registrator.Bridge.Types.{Container, ServicePort, PortBinding, Config}
use registrator.Bridge.Env.{Env}
use registrator.Bridge.Port.{service_port, exposed_ip_of}
use registrator.Bridge.Add.{
  exposed_ports, published_ports, container_ports, is_wanted, keep_port, wanted_ports, insert_at,
  arranged,
}

module _ {A : Type 0} (P : A → Type 0) where
  insert_at-All : (n : ℕ) (x : A) (xs : List A) → P x → All P xs → All P (insert_at n x xs)
  insert_at-All n x [] p h = (p, tt)
  insert_at-All zero x (y ∷ ys) p h = (p, h)
  insert_at-All (suc n) x (y ∷ ys) p (q, h) = (q, insert_at-All n x ys p h)

  arranged-All : (ns : List ℕ) (xs : List A) → All P xs → All P (arranged ns xs)
  arranged-All [] xs h = h
  arranged-All (n ∷ ns) [] h = tt
  arranged-All (n ∷ ns) (x ∷ xs) (p, h) =
      insert_at-All n x (arranged ns xs) p (arranged-All ns xs h)

-- An element of a list.
abbrev pub In : {A : Type 0} → A → List A → Type 0
In x [] = ⊥
In x (y ∷ ys) = (x ≡ y) ⊎ In x ys

abbrev NoSlash : String → Type 0
NoSlash s = All (λ c. is b'/' c ≡ false) (chars s)

-- The port has the number and the protocol of Docker's key, such as `8080/tcp`.
abbrev IsNamedBy : String → ServicePort → Type 0
IsNamedBy key p =
    (number protocol : String)
    → key ≡ number <> ("/" <> protocol)
    → NoSlash number
    → NoSlash protocol
    → (p.exposed_port ≡ number) × (p.port_type ≡ protocol)

-- The host port of the first binding, if there is one.
abbrev bound_port : List PortBinding → String
bound_port [] = ""
bound_port (b ∷ bs) = b.host_port

-- The container's own address, if it has one.
abbrev HasExposedIp : Container → ServicePort → Type 0
HasExposedIp c p = c.ip_address ≢ "" → p.exposed_ip ≡ c.ip_address

-- A port of the container under Docker's key: one that the container exposes, at its own number on
-- the host, or one that is published, at the host's port of its first binding.
abbrev pub IsPortOf : (Env → Type 0) → Container → String → ServicePort → Type 0
IsPortOf Possible c key p =
    (p.container_id ≡ c.id)
    × (p.container_name ≡ c.name)
    × (p.container_hostname ≡ c.container_hostname)
    × HasExposedIp c p
    × IsNamedBy key p
    × (((env : Env) × Possible env × In key c.exposed_ports × (p.host_port ≡ env.port_number key))
        ⊎ ((bindings : List PortBinding) × In (key, bindings) c.ports
            × (p.host_port ≡ bound_port bindings)))

-- The port stands under some key.
abbrev pub IsPort : (Env → Type 0) → Container → ServicePort → Type 0
IsPort Possible c p = (key : String) × IsPortOf Possible c key p

split_from-last :
    (cur s : List Char) → All (λ c. is b'/' c ≡ false) s → split_from b'/' cur s ≡ (cur ++ s) ∷ []
unfolding split_from
split_from-last cur [] h = rw append-nil refl
split_from-last cur (c ∷ s) (e, h) =
    rw (e, split_from) (split_from-last (cur ++ c ∷ []) s h ∙ rw (append_assoc cur (c ∷ []) s) refl)

split_from-at :
    (cur s t : List Char)
    → All (λ c. is b'/' c ≡ false) s
    → split_from b'/' cur (s ++ (chars "/" ++ t)) ≡ (cur ++ s) ∷ split_from b'/' [] t
unfolding split_from
split_from-at cur [] t h = rw append-nil refl
split_from-at cur (c ∷ s) t (e, h) =
    rw (e, split_from) (split_from-at (cur ++ c ∷ []) s t h ∙ rw (append_assoc cur (c ∷ []) s) refl)

split_key :
    (number protocol : String)
    → NoSlash number
    → NoSlash protocol
    → split b'/' (chars (number <> ("/" <> protocol))) ≡ chars number ∷ chars protocol ∷ []
unfolding split
split_key number protocol h k =
    ap (split_from b'/' []) (
      chars-append number ("/" <> protocol)
      ∙ ap (λ x. chars number ++ x) (chars-append "/" protocol))
    ∙ split_from-at [] (chars number) (chars protocol) h
    ∙ ap (λ x. chars number ∷ x) (split_from-last [] (chars protocol) k)

service_port-IsNamedBy :
    (c : Container) (key : String) (published : List PortBinding)
    → IsNamedBy key (service_port c key published)
unfolding service_port
service_port-IsNamedBy c key published number protocol e h k =
    rw (e, service_port, split_key number protocol h k) (text-chars number, text-chars protocol)

service_port-HasExposedIp :
    (c : Container) (key : String) (published : List PortBinding)
    → HasExposedIp c (service_port c key published)
unfolding service_port
service_port-HasExposedIp c key published h =
    rw (service_port, exposed_ip_of, eq_of_ne c.ip_address "" h) refl

bound_port_lem :
    (c : Container) (key : String) (published : List PortBinding)
    → (service_port c key published).host_port ≡ bound_port published
unfolding service_port
bound_port_lem c key [] = refl
bound_port_lem c key (b ∷ bs) = refl

readdress :
    (Possible : Env → Type 0) (c : Container) (key ip : String) (b : Bool) (p : ServicePort)
    → IsPortOf Possible c key p
    → IsPortOf Possible c key (if b then p else record p { host_ip = ip })
readdress Possible c key ip true p h = h
readdress Possible c key ip false p h = h

module _ (Possible : Env → Type 0) (c : Container) where
  abbrev AllPorts : Map ServicePort → Type 0
  AllPorts = AllValues (IsPortOf Possible c)

  exposed_ports-IsPortOf :
      (env : Env) (ip : String) (ports : List String) (m : Map ServicePort)
      → Possible env
      → ((key : String) → In key ports → In key c.exposed_ports)
      → AllPorts m
      → AllPorts (exposed_ports env c ip ports m)
  unfolding exposed_ports service_port
  exposed_ports-IsPortOf env ip [] m possible inside h = h
  exposed_ports-IsPortOf env ip (port ∷ ports) m possible inside h =
      let binding : PortBinding = record {
        host_ip = "0.0.0.0";
        host_port = env.port_number port;
      } in
      exposed_ports-IsPortOf env ip ports _ possible (λ key k. inside key (inr k))
        (put-AllValues (IsPortOf Possible c) port _ m
          (readdress Possible c port ip (ip == "") (service_port c port (binding ∷ [])) (
            refl,
            refl,
            refl,
            service_port-HasExposedIp c port (binding ∷ []),
            service_port-IsNamedBy c port (binding ∷ []),
            inl (env, possible, inside port (inl refl), refl),
          ))
          h)

  published_ports-IsPortOf :
      (published : Map (List PortBinding)) (m : Map ServicePort)
      → ((e : String × List PortBinding) → In e published → In e c.ports)
      → AllPorts m
      → AllPorts (published_ports c published m)
  unfolding published_ports service_port
  published_ports-IsPortOf [] m inside h = h
  published_ports-IsPortOf ((port, bindings) ∷ published) m inside h =
      published_ports-IsPortOf published _ (λ e k. inside e (inr k))
        (put-AllValues (IsPortOf Possible c) port _ m
          (
            refl,
            refl,
            refl,
            service_port-HasExposedIp c port bindings,
            service_port-IsNamedBy c port bindings,
            inr (bindings, inside (port, bindings) (inl refl), bound_port_lem c port bindings),
          )
          h)

  pub container_ports-IsPortOf :
      (env : Env) (ip : String) → Possible env → AllPorts (container_ports env c ip)
  unfolding container_ports
  container_ports-IsPortOf env ip possible =
      arranged-All (λ e. IsPortOf Possible c e.0 e.1) env.port_order _
        (published_ports-IsPortOf c.ports _ (λ e k. k)
          (exposed_ports-IsPortOf env ip c.exposed_ports [] possible (λ key k. k) tt))

-- Where there is a list, all of it is such.
abbrev pub AllSome : (ServicePort → Type 0) → Option (List ServicePort) → Type 0
AllSome P none = Unit
AllSome P (some ps) = All P ps

keep_port-AllSome :
    (P : ServicePort → Type 0) (keep : Option Bool) (p : ServicePort)
    (rest : Option (List ServicePort))
    → P p
    → AllSome P rest
    → AllSome P (keep_port keep p rest)
keep_port-AllSome P none p rest q h = tt
keep_port-AllSome P (some b) p none q h = tt
keep_port-AllSome P (some true) p (some rest) q h = (q, h)
keep_port-AllSome P (some false) p (some rest) q h = h

pub wanted_ports-AllSome :
    (P : String → ServicePort → Type 0) (config : Config) (c : Container) (ports : Map ServicePort)
    → AllValues P ports
    → AllSome (λ p. (key : String) × P key p) (wanted_ports config c ports)
unfolding wanted_ports
wanted_ports-AllSome P config c [] h = tt
wanted_ports-AllSome P config c ((key, p) ∷ ports) (q, h) =
    keep_port-AllSome (λ p. (key : String) × P key p) (is_wanted config c p) p
      (wanted_ports config c ports) (key, q) (wanted_ports-AllSome P config c ports h)
