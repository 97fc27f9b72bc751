-- ===== src/StoreFs/Nodes/Times.antt =====
-- The times of a file.
use nix_os_container_podman.Common.{ℕ, ◌+◌, ◌-◌, ◌*◌, ◌^◌, ◌<◌, ◌≡◌, ap, arith}
use nix_os_container_podman.StoreFs.Dirs.{ℤ, pos, negsuc}
use nix_os_container_podman.StoreFs.Nodes.{SystemTime, after, before, system_time}

-- What `st_mtime` and `st_mtime_nsec` mean: `nsec` nanoseconds after the second, also before the epoch.
abbrev pub instant : ℤ → ℕ → SystemTime
instant (pos s) nsec = after (s * 10 ^ 9 + nsec)
instant (negsuc s) nsec = before ((s + 1) * 10 ^ 9 - nsec)

-- `SystemTime - SystemTime` to the past: how much further from the epoch.
abbrev pub further : SystemTime → ℕ → SystemTime
further (after t) n = after (t + n)
further (before t) n = before (t + n)

-- From the epoch on a file's time is the one it has; before the epoch it is twice its nanoseconds too
-- early.
pub system_time_early :
    (s nsec : ℕ)
    → nsec < 10 ^ 9
    → (system_time (pos s) (pos nsec) ≡ instant (pos s) nsec)
      × (system_time (negsuc s) (pos nsec) ≡ further (instant (negsuc s) nsec) (2 * nsec))
unfolding system_time
system_time_early s nsec h = (ap after (omega arith), ap before (omega arith))
