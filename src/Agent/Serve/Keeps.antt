-- ===== src/Agent/Serve/Keeps.antt =====
-- Invariants of a connection's actions, one rule for each way to build an action.
use nix_os_container_podman.Common.{◌≡◌, refl, Bool, true, false, Option, none, some, if◌then◌else◌}
use nix_os_container_podman.Agent.Policy.{Known}
use nix_os_container_podman.Agent.Serve.{Conn, Io, pure, or_default, continue, ◌>>=◌}

pub record Keeps {A : Type 0} (P : Conn → Type 0) (m : Io A) : Type 0 where
  pub at : (c : Conn) → P c → P (m c).1

module _ {A : Type 0} {P : Conn → Type 0} where
  pub Keeps-pure : (a : A) → Keeps P (pure a)
  Keeps-pure a = record { at = λ c h. h }

  pub Keeps-if :
      (b : Bool) (m n : Io A)
      → (b ≡ true → Keeps P m)
      → (b ≡ false → Keeps P n)
      → Keeps P (λ c. if b then m c else n c)
  Keeps-if true m n km kn = record { at = (km refl).at }
  Keeps-if false m n km kn = record { at = (kn refl).at }

module _ {A B : Type 0} {P : Conn → Type 0} where
  pub Keeps-bind :
      (m : Io A) (f : A → Io B) → Keeps P m → ((a : A) → Keeps P (f a)) → Keeps P (m >>= f)
  unfolding ◌>>=◌
  Keeps-bind m f km kf = record { at = λ c h. go (m c).0 (m c).1 (km.at c h) }
    where
      go : (r : Option A) (c : Conn) → P c → P (continue r f c).1
      go none c h = h
      go (some a) c h = (kf a).at c h

module _ {P : Conn → Type 0} where
  pub Keeps-or_default : (m : Io Known) → Keeps P m → Keeps P (or_default m)
  Keeps-or_default m km = record { at = λ c h. km.at c h }

pub ruleset keeps_rules = (Keeps-pure, Keeps-if, Keeps-bind, Keeps-or_default)
