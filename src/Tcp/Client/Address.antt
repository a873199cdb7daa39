-- ===== src/Tcp/Client/Address.antt =====
-- The id of a node is an address that its clients can read.
use cornus.Base.{◌<◌, ◌^◌, ◌≡◌, refl, some, ◌∷◌, ◌++◌}
use cornus.Base.Split.{Lacks, has_byte-append, before-append, behind-append}
use cornus.Base.Decimal.{to_string, stoi-to_string}
use cornus.Config.Host.{HostJson, HostConfig, new_host_config}
use cornus.Config.Host.Fields.{new_host_config-Names}
use cornus.Tcp.Client.{parse_address, port_of}

address_of_parts :
    (j : HostJson)
    → Lacks b':' j.host
    → j.port < 2 ^ 31
    → parse_address (j.host ++ b':' ∷ to_string j.port) ≡ some (j.host, j.port)
unfolding parse_address port_of
address_of_parts j h p =
    rw
      (
        has_byte-append b':' j.host (to_string j.port),
        before-append b':' j.host (to_string j.port) h,
        behind-append b':' j.host (to_string j.port) h,
        stoi-to_string j.port p,
      )
      refl

-- Where the constructor of HostConfig succeeds for a host name without colon and a port below 2^31, a client
-- that is given the configuration's id connects to the configuration's host and port.
pub parse_address-new_host_config :
    (j : HostJson) (hc : HostConfig)
    → Lacks b':' j.host
    → j.port < 2 ^ 31
    → new_host_config j ≡ some hc
    → parse_address hc.id ≡ some (hc.host, hc.port)
parse_address-new_host_config j hc h p e =
    let (id, host, port) = new_host_config-Names j hc e in
    rw (id, host, port) (address_of_parts j h p)
