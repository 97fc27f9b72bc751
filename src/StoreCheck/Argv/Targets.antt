-- ===== src/StoreCheck/Argv/Targets.antt =====
-- Which bind target is read off a command line.
use mathlib.Core.List.{reverse-append, reverse-reverse}
use nix_os_container_podman.Common.{
  ◌≡◌, refl, ap, sym, ◌∙◌, false, List, [], ◌∷◌, ◌++◌, none, some, Bytes, All, is_empty, contains,
  split, strip_prefix-append, bytes_eq, arith, append_assoc, append-nil,
}
use nix_os_container_podman.StoreCheck.Argv.{
  bind_target_flag, joined_value, bind_target, dropped, drop_final_nul, cmdline,
}

-- An argument that names no bind target in either spelling.
pub record IsOther (arg : Bytes) : Type 0 where
  pub separate : bytes_eq arg bind_target_flag ≡ false
  pub joined : joined_value arg ≡ none

bind_target-other :
    (args rest : List Bytes) → All IsOther args → bind_target (args ++ rest) ≡ bind_target rest
unfolding bind_target
bind_target-other [] rest h = refl
bind_target-other (a ∷ args) rest h =
    rw (h.0.separate, h.0.joined, joined_value) (bind_target-other args rest h.1)

-- Behind arguments of other kinds, the first bind target is read in both spellings, and without one
-- there is none.
pub bind_target_first :
    (args rest : List Bytes) (value : Bytes)
    → All IsOther args
    → (bind_target (args ++ (bind_target_flag ∷ value ∷ rest)) ≡ some value)
      × (bind_target (args ++ ((bind_target_flag ++ (b'=' ∷ value)) ∷ rest)) ≡ some value)
      × (bind_target args ≡ none)
unfolding bind_target bytes_eq
bind_target_first args rest value h = (
  bind_target-other args _ h ∙ refl,
  bind_target-other args _ h ∙ rw (strip_prefix-append (bind_target_flag ++ (b'=' ∷ [])) value),
  ap bind_target (sym (append-nil args)) ∙ bind_target-other args [] h,
)

-- What the kernel writes: each argument and a NUL.
abbrev pub nul_terminated : List Bytes → Bytes
nul_terminated [] = []
nul_terminated (a ∷ args) = a ++ (0 ∷ nul_terminated args)

abbrev nul_separated : Bytes → List Bytes → Bytes
nul_separated a [] = a
nul_separated a (b ∷ args) = a ++ (0 ∷ nul_separated b args)

nul_terminated-cons :
    (a : Bytes) (args : List Bytes) → nul_terminated (a ∷ args) ≡ nul_separated a args ++ (0 ∷ [])
nul_terminated-cons a [] = refl
nul_terminated-cons a (b ∷ args) =
    ap (λ s. a ++ (0 ∷ s)) (nul_terminated-cons b args)
    ∙ sym (append_assoc a (0 ∷ nul_separated b args) (0 ∷ []))

drop_final_nul-append : (s : Bytes) → drop_final_nul (s ++ (0 ∷ [])) ≡ s
drop_final_nul-append s =
    ap (dropped (s ++ (0 ∷ []))) (reverse-append s (0 ∷ [])) ∙ reverse-reverse s

abbrev pub HasNoNul : Bytes → Type 0
HasNoNul a = contains 0 a ≡ false

split-separated : (a rest : Bytes) → HasNoNul a → split 0 (a ++ (0 ∷ rest)) ≡ a ∷ split 0 rest
unfolding split
split-separated [] rest h = refl
split-separated (x ∷ a) rest h = ground (arith, split-separated a rest)

split-last : (a : Bytes) → HasNoNul a → split 0 a ≡ a ∷ []
unfolding split
split-last [] h = refl
split-last (x ∷ a) h = ground (arith, split-last a)

split-nul_separated :
    (a : Bytes) (args : List Bytes)
    → HasNoNul a
    → All HasNoNul args
    → split 0 (nul_separated a args) ≡ a ∷ args
split-nul_separated a [] h hs = split-last a h
split-nul_separated a (b ∷ args) h hs =
    split-separated a _ h ∙ ap (λ r. a ∷ r) (split-nul_separated b args hs.0 hs.1)

-- The arguments of a process, none of which holds a NUL, are read back from the form in which procfs
-- shows them, if there is at least one.
pub cmdline-nul_terminated :
    (a : Bytes) (args : List Bytes)
    → HasNoNul a
    → All HasNoNul args
    → cmdline (some (nul_terminated (a ∷ args))) ≡ some (a ∷ args)
unfolding cmdline
cmdline-nul_terminated a args h hs = rw (nonempty a) (
    ap (λ raw. some (split 0 (drop_final_nul raw))) (nul_terminated-cons a args)
    ∙ ap (λ raw. some (split 0 raw)) (drop_final_nul-append (nul_separated a args))
    ∙ ap some (split-nul_separated a args h hs))
  where
    nonempty : (a : Bytes) → is_empty (a ++ (0 ∷ nul_terminated args)) ≡ false
    nonempty [] = refl
    nonempty (x ∷ a) = refl
