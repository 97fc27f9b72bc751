-- ===== src/Agent/Main.antt =====
-- ssh-agent-filter/src/main.rs: the socket that `main` serves on, and who connects to it while `main` sets
-- it up. The policy and each connection are Agent.Policy's and Agent.Serve's.
pub mod Admitted
mod Examples
use nix_os_container_podman.Common.{
  ℕ, ◌+◌, ◌-◌, ◌/◌, ◌%◌, Bool, true, false, List, [], ◌∷◌, ◌++◌, Text, Result, ok, err, ◌==◌,
  if◌then◌else◌,
}
use nix_os_container_podman.Agent.Policy.{Policy, PolicyError, new_policy}

-- Who connects, by the bits of a file's mode that are about them.
pub data Class : Type 0 where
  owner group other : Class

-- The weight of the write bit, which `connect` asks for.
abbrev pub write_bit : Class → ℕ
write_bit owner = 0o200
write_bit group = 0o020
write_bit other = 0o002

abbrev pub may_write : ℕ → Class → Bool
may_write mode c = mode / write_bit c % 2 == 1

-- `Args`, and what the host answers; `umask` is the process's.
pub record Start : Type 0 where
  pub allow : List Text
  pub deny : List Text
  pub exists : Bool
  pub can_remove : Bool
  pub can_bind : Bool
  pub can_restrict : Bool
  pub umask : ℕ

-- Where `main` stands; `bound` and `serving` have a listener, and `ended` is a return with an error.
pub data Phase : Type 0 where
  entered permitted cleared bound serving ended : Phase

-- A connection, and whether the mode had been set when it was made.
pub record Connection : Type 0 where
  pub by : Class
  pub restricted : Bool

-- The listener keeps every connection that is made, to be accepted by the loop.
pub record Socket : Type 0 where
  pub phase : Phase
  pub mode : ℕ
  pub connections : List Connection

-- The mode of a socket that is bound, `0o777 & !umask`.
abbrev pub bound_mode : ℕ → ℕ
bound_mode umask = 0o777 - umask % 0o1000

abbrev pub has_policy : Result PolicyError Policy → Phase
has_policy (err e) = ended
has_policy (ok policy) = permitted

abbrev pub go_on : Bool → Socket → Socket → Socket
go_on true s t = t
go_on false s t = record s { phase = ended }

-- One step of `main`: the policy, the socket of an earlier run, `bind`, and `set_permissions`.
unfoldable pub advance_from : Start → Phase → Socket → Socket
unfolding new_policy
advance_from start entered s = record s { phase = has_policy (new_policy start.allow start.deny) }
advance_from start permitted s =
    if start.exists
    then go_on start.can_remove s (record s { phase = cleared })
    else record s { phase = cleared }
advance_from start cleared s =
    go_on start.can_bind s (record s { phase = bound; mode = bound_mode start.umask })
advance_from start bound s = go_on start.can_restrict s (record s { phase = serving; mode = 0o600 })
advance_from start serving s = s
advance_from start ended s = s

-- A connection that someone tries to make.
unfoldable pub connect_in : Phase → Class → Socket → Socket
connect_in bound c s =
    if may_write s.mode c
    then record s { connections = s.connections ++ record { by = c; restricted = false } ∷ [] }
    else s
connect_in serving c s =
    if may_write s.mode c
    then record s { connections = s.connections ++ record { by = c; restricted = true } ∷ [] }
    else s
connect_in _ c s = s

pub data Event : Type 0 where
  step : Event
  connect : Class → Event

abbrev pub happen : Start → Event → Socket → Socket
happen start step s = advance_from start s.phase s
happen start (connect c) s = connect_in s.phase c s

unfoldable pub main_from : Start → List Event → Socket → Socket
unfolding advance_from connect_in
main_from start [] s = s
main_from start (e ∷ events) s = main_from start events (happen start e s)

abbrev pub no_socket : Socket
no_socket = record { phase = entered; mode = 0; connections = [] }

unfoldable pub main : Start → List Event → Socket
unfolding main_from
main start events = main_from start events no_socket
