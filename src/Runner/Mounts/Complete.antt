-- ===== src/Runner/Mounts/Complete.antt =====
-- nix/app/runner.rs: a provider's rule binds every path that it grants.
use nix_os_container_podman.Common.{
  ◌≡◌, ◌∙◌, inl, inr, refl, sym, Bool, true, false, ◌||◌, List, [], ◌∷◌, ◌++◌, Option, none, some,
  Text, bytes_eq, bytes_eq_refl, bytes_eq→eq, any, ltb, length, arith, subst, ap, if◌then◌else◌,
  Result, ok, err, codes,
}
use nix_os_container_podman.Runner.Texts.{rsplit_once}
use nix_os_container_podman.Runner.Wild.{glob_match, glob_match_lem}
use nix_os_container_podman.Runner.Template.{Error, Vars, expand, too_many_binds}
use nix_os_container_podman.Runner.Mounts.{
  FileSystem, Rule, mount, mount_as, bindable, or_root, path_in, entries, insert_sorted, sort,
  matching, found, bind, mount_safe, mount_value, ◌>>◌, ◌>>=◌, bind_all, mount_found, expand_rule,
  max_binds,
}
use nix_os_container_podman.Runner.Mounts.Found.{IsAllowed}
use nix_os_container_podman.Runner.Mounts.Rules.{IsGranted, options_of}

-- A text is in a list.
abbrev pub lists : List Text → Text → Bool
lists texts t = any (bytes_eq t) texts

lists-insert_sorted :
    (t s : Text) (ts : List Text) → lists (insert_sorted s ts) t ≡ (bytes_eq t s || lists ts t)
unfolding insert_sorted
lists-insert_sorted t s [] = refl
lists-insert_sorted t s (u ∷ ts) = ground (arith, lists-insert_sorted t s ts)

lists-sort : (t : Text) (ts : List Text) → lists (sort ts) t ≡ lists ts t
unfolding sort
lists-sort t [] = refl
lists-sort t (s ∷ ts) = ground (arith, lists-insert_sorted t s (sort ts), lists-sort t ts)

lists-append : (t : Text) (xs ys : List Text) → lists (xs ++ ys) t ≡ (lists xs t || lists ys t)
lists-append t [] ys = refl
lists-append t (x ∷ xs) ys = ground (arith, lists-append t xs ys)

lists-matching :
    (fs : FileSystem) (dir name : Text) (files : List Text) (file : Text)
    → lists files file ≡ true
    → glob_match name file ≡ true
    → bindable fs (path_in dir file) ≡ true
    → lists (matching fs dir name files) (path_in dir file) ≡ true
unfolding matching
lists-matching fs dir name [] file l g b = cc
lists-matching fs dir name (f ∷ files) file l g b =
    here (λ l. lists-matching fs dir name files file l g b) (bytes_eq file f) refl l
  where
    here :
        (lists files file ≡ true → lists (matching fs dir name files) (path_in dir file) ≡ true)
        → (e : Bool) → bytes_eq file f ≡ e
        → (e || lists files file) ≡ true
        → lists (matching fs dir name (f ∷ files)) (path_in dir file) ≡ true
    here rest true e l =
        let same : file ≡ f = bytes_eq→eq file f e in
        subst (λ f. lists (matching fs dir name (f ∷ files)) (path_in dir file) ≡ true) same
          (ground (arith, g, b, bytes_eq_refl (path_in dir file)))
    here rest false e l = ground (arith, rest l)

lists-found :
    (fs : FileSystem) (pattern dir name path : Text)
    → IsAllowed fs pattern dir name path
    → lists (found fs pattern dir name) path ≡ true
unfolding found
lists-found fs pattern dir name path (inl (w, (file, e, l, stands, hidden, b))) =
    let g = (glob_match_lem name file).1 (stands, hidden) in
    let b2 : bindable fs (path_in (or_root dir) file) ≡ true = ap (bindable fs) (sym e) ∙ b in
    let m =
      lists-matching fs (or_root dir) name (entries (fs.read_dir (or_root dir))) file l g b2 in
    simp w (
      subst
        (λ p. lists (matching fs (or_root dir) name (entries (fs.read_dir (or_root dir)))) p ≡ true)
        (sym e) m)
lists-found fs pattern dir name path (inr (w, e, x)) =
    subst (λ p. lists (found fs pattern dir name) p ≡ true) (sym e)
      (ground (arith, w, x, bytes_eq_refl pattern))

lists-bind :
    (source destination options : Text) {args : List Text}
    → bind source destination options ≡ ok args
    → lists args (mount_value source destination options) ≡ true
unfolding bind
lists-bind source destination options {args} h = made (mount_safe source) (mount_safe destination) h
  where
    made :
        (r q : Result Error (Unit {0}))
        → (r >> (q >> ok (codes "--mount" ∷ mount_value source destination options ∷ []))) ≡ ok args
        → lists args (mount_value source destination options) ≡ true
    made (err e) q h = cc
    made (ok u) (err e) h = cc
    made (ok u) (ok w) h =
        let e : args ≡ codes "--mount" ∷ mount_value source destination options ∷ [] = cc in
        rw e (ground (arith, bytes_eq_refl (mount_value source destination options)))

lists-bind_all :
    (options : Text) (paths : List Text) (path : Text) {args : List Text}
    → lists paths path ≡ true
    → bind_all options paths ≡ ok args
    → lists args (mount_value path path options) ≡ true
unfolding bind_all
lists-bind_all options [] path l h = cc
lists-bind_all options (p ∷ paths) path {args} l h =
    bound (bind p p options) refl (bind_all options paths) h
      (λ rest l e. lists-bind_all options paths path {args = rest} l e)
  where
    bound :
        (r : Result Error (List Text))
        → bind p p options ≡ r
        → (q : Result Error (List Text)) → (r >>= λ xs. q >>= λ ys. ok (xs ++ ys)) ≡ ok args
        → ((rest : List Text)
            → lists paths path ≡ true
            → q ≡ ok rest
            → lists rest (mount_value path path options) ≡ true)
        → lists args (mount_value path path options) ≡ true
    bound (err e) r q h f = cc
    bound (ok xs) r (err e) h f = cc
    bound (ok xs) r (ok ys) h f =
        let e : args ≡ xs ++ ys = cc in
        let value = mount_value path path options in
        rw e (here xs ys r (bytes_eq path p) refl l λ l. f ys l refl)
      where
        here :
            (xs ys : List Text)
            → bind p p options ≡ ok xs
            → (b : Bool) → bytes_eq path p ≡ b
            → (b || lists paths path) ≡ true
            → (lists paths path ≡ true → lists ys (mount_value path path options) ≡ true)
            → lists (xs ++ ys) (mount_value path path options) ≡ true
        here xs ys r true e l f =
            let same : path ≡ p = bytes_eq→eq path p e in
            let m : lists xs (mount_value path path options) ≡ true =
              subst (λ x. lists xs (mount_value x x options) ≡ true) (sym same)
                (lists-bind p p options r) in
            ground (arith, lists-append (mount_value path path options) xs ys, m)
        here xs ys r false e l f =
            ground (arith, lists-append (mount_value path path options) xs ys, f l)

module _ (fs : FileSystem) (vars : Vars) (template options : Text) where
  mount_found_complete :
      (pattern : Text) {args : List Text} (o : Option (Text × Text)) (source destination : Text)
      → expand template vars ≡ ok pattern
      → rsplit_once b'/' pattern ≡ o
      → mount_found fs pattern options o ≡ ok args
      → IsGranted fs vars (mount template options) source destination
      → lists args (mount_value source destination options) ≡ true
  unfolding IsGranted
  mount_found_complete pattern none source destination e o h g = cc
  mount_found_complete pattern {args} (some (dir, name)) source destination e o h
        (pattern2, dir2, name2, e2, o2, a, same) =
      let p : pattern2 ≡ pattern = cc in
      let o3 : rsplit_once b'/' pattern ≡ some (dir2, name2) = ap (rsplit_once b'/') (sym p) ∙ o2 in
      let d : dir2 ≡ dir = cc in
      let n : name2 ≡ name = cc in
      let a2 : IsAllowed fs pattern dir name source =
        subst (λ n. IsAllowed fs pattern dir n source) n
          (subst (λ d. IsAllowed fs pattern d name2 source) d
            (subst (λ p. IsAllowed fs p dir2 name2 source) p a)) in
      let l =
        lists-sort source (found fs pattern dir name) ∙ lists-found fs pattern dir name source a2 in
      rw same (limited (ltb max_binds (length (sort (found fs pattern dir name)))) h l)
    where
      limited :
          (b : Bool)
          → (if b
              then err (too_many_binds pattern)
              else bind_all options (sort (found fs pattern dir name)))
            ≡ ok args
          → lists (sort (found fs pattern dir name)) source ≡ true
          → lists args (mount_value source source options) ≡ true
      limited true h l = cc
      limited false h l = lists-bind_all options (sort (found fs pattern dir name)) source l h

-- A rule that becomes mounts leaves out none that it grants for the launch's values: of every entry that
-- the wildcard stands for and that can be bound, of the named path if it is there, and of a source that is
-- there, the value with its destination and the rule's options is among the arguments.
pub expand_rule_complete :
    (fs : FileSystem) (rule : Rule) (vars : Vars) (args : List Text) (source destination : Text)
    → expand_rule fs rule vars ≡ ok args
    → IsGranted fs vars rule source destination
    → lists args (mount_value source destination (options_of rule)) ≡ true
unfolding expand_rule IsGranted
expand_rule_complete fs (mount template options) vars args source destination h g =
    filled (expand template vars) refl h
  where
    filled :
        (r : Result Error Text)
        → expand template vars ≡ r
        → (r >>= λ pattern. mount_found fs pattern options (rsplit_once b'/' pattern)) ≡ ok args
        → lists args (mount_value source destination options) ≡ true
    filled (err e) r h = cc
    filled (ok pattern) r h =
        mount_found_complete fs vars template options pattern (rsplit_once b'/' pattern) source
          destination r refl h g
expand_rule_complete fs (mount_as source_template destination_template options) vars args source
      destination h (s, d, x) =
    let e : expand_rule fs (mount_as source_template destination_template options) vars
        ≡ bind source destination options =
      simp (s, x, d) in
    lists-bind source destination options (sym e ∙ h)
