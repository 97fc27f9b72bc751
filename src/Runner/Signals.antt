-- ===== src/Runner/Signals.antt =====
-- nix/app/runner.rs: `relay`, which passes signals on to podman, and `supervise`. The handler interrupts the
-- main thread between two of its steps, so the signals of each such gap are an argument.
pub mod Forwarded
use nix_os_container_podman.Common.{
  ℕ, ◌+◌, Bool, true, false, not, ◌&&◌, ◌||◌, List, [], ◌∷◌, Option, none, some, ◌==◌,
  if◌then◌else◌, Result, ok, err,
}

abbrev pub sighup : ℕ
sighup = 1

abbrev pub sigint : ℕ
sigint = 2

abbrev pub sigquit : ℕ
sigquit = 3

abbrev pub sigterm : ℕ
sigterm = 15

-- A signal as it arrives; `foreground` says whether `tcgetpgrp(0) == getpgrp()` then.
pub record Signal : Type 0 where
  pub sig : ℕ
  pub foreground : Bool

-- CHILD and EARLY, and what `kill` was called with, the latest first.
pub record Relay : Type 0 where
  pub child : ℕ
  pub early : ℕ
  pub kills : List (ℕ × ℕ)

abbrev pub must_forward : Signal → Bool
must_forward s = s.sig == sigterm || not s.foreground

unfoldable pub relay : Signal → Relay → Relay
relay s r =
    if r.child == 0
    then record r { early = s.sig }
    else if must_forward s
    then record r { kills = (r.child, s.sig) ∷ r.kills }
    else r

-- The signals of one gap, in their order.
unfoldable pub deliver : List Signal → Relay → Relay
unfolding relay
deliver [] r = r
deliver (s ∷ signals) r = deliver signals (relay s r)

-- A `wait` status: the exit code, or the signal that ended the process.
pub data ExitStatus : Type 0 where
  exited killed_by : ℕ → ExitStatus

abbrev pub exit_code : ExitStatus → ℕ
exit_code (exited code) = code
exit_code (killed_by sig) = 128 + sig

-- The signals behind the installation of the handlers and before CHILD is set, before EARLY is taken,
-- before it is passed on, while podman runs, and before CHILD is reset; and who is in the foreground when
-- EARLY is judged.
pub record Gaps : Type 0 where
  pub starting : List Signal
  pub started : List Signal
  pub taken : List Signal
  pub foreground : Bool
  pub running : List Signal
  pub ended : List Signal

abbrev pub idle : Relay
idle = record { child = 0; early = 0; kills = [] }

-- `if early != 0 && must_forward(early) { kill(pid, early) }`
unfoldable pub pass_early : ℕ → Signal → Relay → Relay
pass_early pid s r =
    if not (s.sig == 0) && must_forward s then record r { kills = (pid, s.sig) ∷ r.kills } else r

-- `EARLY.swap(0)` and what follows it, up to the end of `wait`.
abbrev pub pass_on : ℕ → Gaps → Relay → Relay
pass_on pid g r = deliver g.running (
    pass_early pid (record { sig = r.early; foreground = g.foreground })
      (deliver g.taken (record r { early = 0 })))

-- `supervise` on a child that was spawned with `pid`.
unfoldable pub supervise : ℕ → Gaps → ExitStatus → ℕ × Relay
unfolding deliver pass_early
supervise pid g status = (
  exit_code status,
  record (deliver g.ended
      (pass_on pid g (deliver g.started (record (deliver g.starting idle) { child = pid })))) {
        child = 0;
      },
)
