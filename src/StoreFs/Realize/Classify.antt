-- ===== src/StoreFs/Realize/Classify.antt =====
-- Which symlinks are realized, and where.
use nix_os_container_podman.Common.{
  ◌⊎◌, ◌≡◌, refl, ap, sym, ◌∙◌, subst, true, false, ◌||◌, List, [], ◌∷◌, ◌++◌, some, All, arith,
  bytes_eq_refl, bytes_eq→eq, Bool-cases, inl, inr, Option-cases,
}
use nix_os_container_podman.StoreFs.Realize.{
  Component, cur_dir, parent_dir, normal, PathBuf, component_eq, strip_parts, strip_base,
  starts_with, parts_eq, path_eq, normalize, is_inside, realize, keep_symlink, classify,
}
use nix_os_container_podman.StoreFs.Realize.Normal.{IsName, normalize_idempotent, normalize-names}

component_eq→eq : (a b : Component) → component_eq a b ≡ true → a ≡ b
component_eq→eq cur_dir cur_dir h = refl
component_eq→eq parent_dir parent_dir h = refl
component_eq→eq (normal a) (normal b) h = ap normal (bytes_eq→eq a b h)
component_eq→eq cur_dir parent_dir h = cc
component_eq→eq cur_dir (normal b) h = cc
component_eq→eq parent_dir cur_dir h = cc
component_eq→eq parent_dir (normal b) h = cc
component_eq→eq (normal a) cur_dir h = cc
component_eq→eq (normal a) parent_dir h = cc

component_eq_refl : (a : Component) → component_eq a a ≡ true
component_eq_refl cur_dir = refl
component_eq_refl parent_dir = refl
component_eq_refl (normal n) = bytes_eq_refl n

strip_parts_sound : (bs cs rest : List Component) → strip_parts bs cs ≡ some rest → cs ≡ bs ++ rest
unfolding strip_parts
strip_parts_sound [] cs rest h = ground arith
strip_parts_sound (b ∷ bs) [] rest h = cc
strip_parts_sound (b ∷ bs) (c ∷ cs) rest h =
    ground (arith, component_eq→eq b c, strip_parts_sound bs cs rest)

parts_eq-strip : (cs bs : List Component) → parts_eq cs bs ≡ true → strip_parts bs cs ≡ some []
unfolding parts_eq strip_parts
parts_eq-strip [] [] h = refl
parts_eq-strip [] (b ∷ bs) h = cc
parts_eq-strip (c ∷ cs) [] h = cc
parts_eq-strip (c ∷ cs) (b ∷ bs) h =
    let (heads, tails) : (component_eq c b ≡ true) × (parts_eq cs bs ≡ true) =
      (ground arith, ground arith) in
    let e : b ≡ c = sym (component_eq→eq c b heads) in
    ground (arith, parts_eq-strip cs bs tails, e, component_eq_refl c)

-- What a base contains is its path, and parts behind it.
abbrev pub IsBehind : PathBuf → PathBuf → PathBuf → Type 0
IsBehind base p rel = (rel.absolute ≡ false) × (p.parts ≡ base.parts ++ rel.parts)

strip_base_sound : (base p rel : PathBuf) → strip_base base p ≡ some rel → IsBehind base p rel
strip_base_sound base p rel h = elim (Option-cases (strip_parts base.parts p.parts)) [
  | inl e ↦ absurd (ground (arith, e))
  | inr (rest, e) ↦
      let eq : some (record { absolute = false; parts = rest }) ≡ some rel = ground (arith, e) in
      let r : rel ≡ record { absolute = false; parts = rest } = cc eq in
      (
        ap (λ q. q.absolute) r,
        strip_parts_sound base.parts p.parts rest e ∙ ap (λ q. base.parts ++ q.parts) (sym r),
      )
]

starts-strip :
    (base p : PathBuf)
    → path_eq p base || starts_with p base ≡ true
    → (rel : PathBuf) × (strip_base base p ≡ some rel)
starts-strip base p h = elim (Option-cases (strip_base base p)) [
  | inl e ↦ absurd (ground (arith, e, parts_eq-strip p.parts base.parts))
  | inr found ↦ found
]

All-behind : (bs rest : List Component) → All IsName (bs ++ rest) → All IsName rest
All-behind [] rest h = h
All-behind (b ∷ bs) rest h = All-behind bs rest h.1

is_inside_normal : (p q : PathBuf) → is_inside (normalize p) (normalize q) ≡ is_inside p q
unfolding is_inside
is_inside_normal p q = rw (normalize_idempotent p, normalize_idempotent q)

is_inside-strip :
    (p q : PathBuf)
    → is_inside p q ≡ true
    → (rel : PathBuf) × (strip_base (normalize q) (normalize p) ≡ some rel)
unfolding is_inside
is_inside-strip p q h = starts-strip (normalize q) (normalize p) h

-- An absolute symlink target is realized exactly when it is inside the resolution root and not inside
-- the bind target. The path under the redirect root is then relative, has names only, hence no `..`,
-- and the normalized target is the normalized resolution root with it behind. Every other target stays a
-- symlink, and the `expect` never fails.
pub classify_lem :
    (target resolution_root bind_target : PathBuf)
    → target.absolute ≡ true
    → ((rel : PathBuf) × (classify target resolution_root bind_target ≡ realize rel)
        × (is_inside target resolution_root ≡ true)
        × (is_inside target bind_target ≡ false)
        × All IsName rel.parts
        × IsBehind (normalize resolution_root) (normalize target) rel)
      ⊎ ((classify target resolution_root bind_target ≡ keep_symlink)
          × ((is_inside target resolution_root ≡ false) ⊎ (is_inside target bind_target ≡ true)))
unfolding classify
classify_lem t r b h = elim (Bool-cases (is_inside t r)) [
  | inr out ↦ inr (ground (arith, is_inside_normal t r), inl out)
  | inl within ↦ elim (Bool-cases (is_inside t b)) [
    | inl loops ↦ inr (ground (arith, is_inside_normal t r, is_inside_normal t b), inr loops)
    | inr free ↦
        let (rel, e) = is_inside-strip t r within in
        let behind = strip_base_sound (normalize r) (normalize t) rel e in
        inl (
          rel,
          ground (arith, is_inside_normal t r, is_inside_normal t b, e),
          within,
          free,
          All-behind (normalize r).parts rel.parts
              (subst (All IsName) behind.1 (normalize-names t h).1),
          behind,
        )
  ]
]
