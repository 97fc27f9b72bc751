-- ===== src/Prison/Start.antt =====
-- prison-start/src/main.rs: `main` with its handler of SIGTERM, which interrupts it between two steps.
pub mod Stopped
use nix_os_container_podman.Common.{
  ℕ, ◌+◌, Bool, true, false, List, [], ◌∷◌, Option, none, some, ◌==◌, if◌then◌else◌,
}

abbrev pub sigterm : ℕ
sigterm = 15

-- An `ExitStatus`: `code()` of one, `signal()` of the other, and neither.
pub data Status : Type 0 where
  exited signalled : ℕ → Status
  neither : Status

-- How the process ends: by a call of `exit`, or by a signal.
pub data End : Type 0 where
  exits dies_by : ℕ → End

-- The command line, what becomes of the program that it names, and the signals whose default action
-- does not end a process.
pub record Start : Type 0 where
  pub has_program : Bool
  -- `none` if it cannot be run
  pub child : Option Status
  pub is_harmless : ℕ → Bool

-- Where `main` stands, with STOPPING from the installation of the handler on.
pub data Phase : Type 0 where
  entered : Phase
  handling : Bool → Phase
  waited : Status → Bool → Phase
  over : End → Phase

-- `die_by`: the signal's default action, or `exit(128 + sig)` behind a `raise` that returned.
abbrev pub die_by : Start → ℕ → End
die_by s sig = if s.is_harmless sig then exits (128 + sig) else dies_by sig

abbrev pub is_success : Status → Bool
is_success (exited code) = code == 0
is_success _ = false

abbrev pub own_end : Start → Status → End
own_end s (exited code) = exits code
own_end s (signalled sig) = die_by s sig
own_end s neither = exits 1

-- The rest of `main` behind the wait: STOPPING is read only if the program failed.
unfoldable pub verdict : Start → Status → Bool → End
verdict s status stopping =
    if is_success status then exits 0 else if stopping then die_by s sigterm else own_end s status

abbrev after_child : Option Status → Bool → Phase
after_child none stopping = over (exits 127)
after_child (some status) stopping = waited status stopping

-- One step of `main`: up to the handler, the program's run, and the end.
unfoldable pub advance : Start → Phase → Phase
unfolding verdict
advance s entered = if s.has_program then handling false else over (exits 2)
advance s (handling stopping) = after_child s.child stopping
advance s (waited status stopping) = over (verdict s status stopping)
advance s (over e) = over e

-- SIGTERM: its default action before the handler is there, `on_term` from then on.
unfoldable pub on_term : Phase → Phase
on_term entered = over (dies_by sigterm)
on_term (handling stopping) = handling true
on_term (waited status stopping) = waited status true
on_term (over e) = over e

pub data Event : Type 0 where
  term step : Event

unfoldable pub main_from : Start → List Event → Phase → Phase
unfolding advance on_term
main_from s [] p = p
main_from s (term ∷ events) p = main_from s events (on_term p)
main_from s (step ∷ events) p = main_from s events (advance s p)

unfoldable pub main : Start → List Event → Phase
unfolding main_from
main s events = main_from s events entered
