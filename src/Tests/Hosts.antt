-- ===== src/Tests/Hosts.antt =====
-- A host that is created where the binding of its socket fails.
use enet.Base.{◌==◌, true, some, [], ◌∷◌, replicate}
use enet.Address.{AddressType}
use enet.Hosting.Create.{System, Memory, create}
use enet.Hosting.Creation.{Outcome, create-Outcome}
use enet.Tests.{localhost, packet_with}

-- Sockets can be had, and bound to port 7777 only.
abbrev system : System
system = record { socket_create = λ type. true; socket_bind = λ a. a.port == 7777; seed = 12345 }

abbrev memory : Memory
memory = record {
  packets = λ p. packet_with 0;
  next_block = 1;
  fresh_bytes = λ n. replicate n 0;
  allocations = true ∷ true ∷ [];
}

create-Outcome_example :
    Outcome 2 (create system AddressType.ipv4 (some localhost) 2 0 57600 14400 memory)
create-Outcome_example =
    create-Outcome system AddressType.ipv4 (some localhost) 2 0 57600 14400 memory
