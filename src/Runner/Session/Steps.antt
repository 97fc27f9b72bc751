-- ===== src/Runner/Session/Steps.antt =====
-- nix/app/runner.rs: what a run may do when, over what it holds.
use nix_os_container_podman.Common.{Bool, true, false, List, [], ◌∷◌, ◌++◌, Text}
use nix_os_container_podman.Runner.Session.{
  Step, claimed, released, made_dir, removed_file, spawned_proxy, killed_proxy, waited_proxy,
  supervised, execed,
}

-- The proxy, by its socket: it runs, it was killed, it was waited for.
pub data Proxy : Type 0 where
  off : Proxy
  up killed gone : Text → Proxy

pub record Held : Type 0 where
  pub proxy : Proxy
  pub lease : Bool

abbrev pub held : Proxy → Bool → Held
held p l = record { proxy = p; lease = l }

-- Which step may be taken when, and what is held behind it. Only a process that holds nothing may become
-- podman; the holder is claimed and given back when no proxy runs; the proxy's socket is removed before
-- it starts and once it is gone.
pub data Takes : Held → Step → Held → Type 0 where
  claims : Takes (held off false) claimed (held off true)
  releases : Takes (held off true) released (held off false)
  makes_dir : {l : Bool} (dir : Text) → Takes (held off l) (made_dir dir) (held off l)
  clears : {l : Bool} (socket : Text) → Takes (held off l) (removed_file socket) (held off l)
  spawns :
      {l : Bool} (socket program : Text) (args : List Text)
      → Takes (held off l) (spawned_proxy socket program args) (held (up socket) l)
  kills :
      {l : Bool} (socket : Text) → Takes (held (up socket) l) killed_proxy (held (killed socket) l)
  waits :
      {l : Bool} (socket : Text)
      → Takes (held (killed socket) l) waited_proxy (held (gone socket) l)
  removes :
      {l : Bool} (socket : Text) → Takes (held (gone socket) l) (removed_file socket) (held off l)
  supervises : {h : Held} (args : List Text) → Takes h (supervised args) h
  execs : (args : List Text) → Takes (held off false) (execed args) (held off false)

-- A sequence of steps.
pub data Runs : Held → List Step → Held → Type 0 where
  end : {h : Held} → Runs h [] h
  next :
      {a b c : Held} {s : Step} {steps : List Step}
      → Takes a s b
      → Runs b steps c
      → Runs a (s ∷ steps) c

pub Runs-append :
    {a b c : Held} (xs ys : List Step) → Runs a xs b → Runs b ys c → Runs a (xs ++ ys) c
Runs-append [] ys end r = r
Runs-append (x ∷ xs) ys (next t q) r = next t (Runs-append xs ys q r)

pub Runs-one :
    {a b c : Held} (xs : List Step) (s : Step) → Runs a xs b → Takes b s c → Runs a (xs ++ s ∷ []) c
Runs-one xs s r t = Runs-append xs (s ∷ []) r (next t end)
