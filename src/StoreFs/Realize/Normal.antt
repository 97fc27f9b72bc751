-- ===== src/StoreFs/Realize/Normal.antt =====
-- Normalized paths.
use nix_os_container_podman.Common.{
  ℕ, ◌≡◌, refl, ap, sym, ◌∙◌, subst, Bool, true, false, List, [], ◌∷◌, ◌++◌, reverse, reverse-cons,
  All-append, All,
}
use nix_os_container_podman.StoreFs.Realize.{
  Component, cur_dir, parent_dir, normal, PathBuf, go_up, push_part, collapse, or_dot, normalize,
}

-- Names only.
abbrev pub IsName : Component → Type 0
IsName c = (n : List ℕ) × (c ≡ normal n)

-- A stack that `collapse` leaves: names over `..`s, and no `..` under a root.
abbrev pub IsStack : Bool → List Component → Type 0
IsStack absolute [] = Unit {0}
IsStack absolute (normal n ∷ out) = IsStack absolute out
IsStack true (parent_dir ∷ out) = ⊥
IsStack false (parent_dir ∷ out) = All (λ c. c ≡ parent_dir) out
IsStack absolute (cur_dir ∷ out) = ⊥

ups : (out : List Component) → All (λ c. c ≡ parent_dir) out → IsStack false out
ups [] h = tt
ups (parent_dir ∷ out) h = h.1
ups (normal n ∷ out) h = cc h.0
ups (cur_dir ∷ out) h = cc h.0

go_up-IsStack :
    (absolute : Bool) (out : List Component)
    → IsStack absolute out
    → IsStack absolute (go_up absolute out)
go_up-IsStack absolute (normal n ∷ out) h = h
go_up-IsStack true [] h = h
go_up-IsStack false [] h = h
go_up-IsStack true (parent_dir ∷ out) h = h
go_up-IsStack false (parent_dir ∷ out) h = (refl, h)
go_up-IsStack absolute (cur_dir ∷ out) h = h

push_part-IsStack :
    (absolute : Bool) (out : List Component) (c : Component)
    → IsStack absolute out
    → IsStack absolute (push_part absolute out c)
push_part-IsStack absolute out cur_dir h = h
push_part-IsStack absolute out parent_dir h = go_up-IsStack absolute out h
push_part-IsStack absolute out (normal n) h = h

pub collapse-IsStack :
    (absolute : Bool) (out cs : List Component)
    → IsStack absolute out
    → IsStack absolute (collapse absolute out cs)
unfolding collapse
collapse-IsStack absolute out [] h = h
collapse-IsStack absolute out (c ∷ cs) h =
    collapse-IsStack absolute (push_part absolute out c) cs (push_part-IsStack absolute out c h)

collapse-append :
    (absolute : Bool) (out xs ys : List Component)
    → collapse absolute out (xs ++ ys) ≡ collapse absolute (collapse absolute out xs) ys
unfolding collapse
collapse-append absolute out [] ys = refl
collapse-append absolute out (x ∷ xs) ys = collapse-append absolute (push_part absolute out x) xs ys

collapse-snoc :
    (absolute : Bool) (c : Component) (out : List Component)
    → collapse absolute [] (reverse out) ≡ out
    → collapse absolute [] (reverse (c ∷ out)) ≡ push_part absolute out c
unfolding collapse
collapse-snoc absolute c out h =
    ap (collapse absolute []) (reverse-cons c out)
    ∙ collapse-append absolute [] (reverse out) (c ∷ [])
    ∙ ap (λ o. push_part absolute o c) h

go_up-parents :
    (out : List Component) → All (λ c. c ≡ parent_dir) out → go_up false out ≡ parent_dir ∷ out
go_up-parents [] h = refl
go_up-parents (c ∷ out) h = rw h.0

collapse-reverse :
    (absolute : Bool) (out : List Component)
    → IsStack absolute out
    → collapse absolute [] (reverse out) ≡ out
unfolding collapse
collapse-reverse absolute [] h = refl
collapse-reverse absolute (normal n ∷ out) h =
    collapse-snoc absolute (normal n) out (collapse-reverse absolute out h)
collapse-reverse true (parent_dir ∷ out) h = absurd h
collapse-reverse false (parent_dir ∷ out) h =
    collapse-snoc false parent_dir out (collapse-reverse false out (ups out h))
    ∙ go_up-parents out h
collapse-reverse absolute (cur_dir ∷ out) h = absurd h

collapse-or_dot :
    (absolute : Bool) (cs : List Component)
    → collapse absolute [] (or_dot absolute cs) ≡ collapse absolute [] cs
unfolding collapse
collapse-or_dot true cs = refl
collapse-or_dot false [] = refl
collapse-or_dot false (c ∷ cs) = refl

-- Normalizing a path twice gives what normalizing it once does.
pub normalize_idempotent : (p : PathBuf) → normalize (normalize p) ≡ normalize p
unfolding normalize
normalize_idempotent p =
    let a = p.absolute in
    let out = collapse a [] p.parts in
    ap (λ cs. record { absolute = a; parts = or_dot a (reverse cs) })
      (collapse-or_dot a (reverse out)
        ∙ collapse-reverse a out (collapse-IsStack a [] p.parts (empty a)))
  where
    empty : (absolute : Bool) → IsStack absolute []
    empty absolute = tt

All-reverse : (P : Component → Type 0) (cs : List Component) → All P cs → All P (reverse cs)
All-reverse P [] h = tt
All-reverse P (c ∷ cs) h =
    subst (All P) (sym (reverse-cons c cs))
      (All-append P (reverse cs) (c ∷ []) (All-reverse P cs h.1) (h.0, tt))

names : (out : List Component) → IsStack true out → All IsName out
names [] h = tt
names (normal n ∷ out) h = ((n, refl), names out h)
names (parent_dir ∷ out) h = absurd h
names (cur_dir ∷ out) h = absurd h

-- An absolute path is normalized to a root and names: neither `.` nor `..` is left.
pub normalize-names :
    (p : PathBuf)
    → p.absolute ≡ true
    → ((normalize p).absolute ≡ true) × All IsName (normalize p).parts
unfolding normalize
normalize-names p h = (h, rooted p.absolute h p.parts)
  where
    rooted :
        (absolute : Bool)
        → absolute ≡ true
        → (cs : List Component) → All IsName (or_dot absolute (reverse (collapse absolute [] cs)))
    rooted true h cs =
        All-reverse IsName (collapse true [] cs)
          (names (collapse true [] cs) (collapse-IsStack true [] cs tt))
    rooted false h cs = cc
