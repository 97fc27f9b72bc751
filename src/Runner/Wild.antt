-- ===== src/Runner/Wild.antt =====
-- nix/app/runner.rs: `glob_match`, the wildcards of a mount rule, and what they match.
use nix_os_container_podman.Common.{
  ℕ, ◌≡◌, ◌↔◌, refl, Bool, true, false, not, ◌&&◌, ◌||◌, [], ◌∷◌, ◌++◌, Text, codes, starts_with,
  strip_prefix, is_empty, ap, sym, ◌==◌, ==_iff, if◌then◌else◌, arith, Bool-cases, inl, inr,
}

-- `(0..=n.len()).any(|skip| f(&n[skip..]))`
unfoldable pub any_skip : (Text → Bool) → Text → Bool
any_skip f [] = f []
any_skip f (x ∷ n) = f (x ∷ n) || any_skip f n

abbrev after_any : (Text → Bool) → Text → Bool
after_any f [] = false
after_any f (x ∷ n) = f n

abbrev after_same : ℕ → (Text → Bool) → Text → Bool
after_same c f [] = false
after_same c f (x ∷ n) = x == c && f n

-- One step of `go`, on the first character of the pattern.
abbrev step : ℕ → (Text → Bool) → Text → Bool
step c f n =
    if c == b'*' then any_skip f n else if c == b'?' then after_any f n else after_same c f n

unfoldable pub wild : Text → Text → Bool
unfolding any_skip
wild [] n = is_empty n
wild (c ∷ p) n = step c (wild p) n

unfoldable pub glob_match : Text → Text → Bool
unfolding wild
glob_match pattern name =
    if starts_with (codes ".") name && not (starts_with (codes ".") pattern)
    then false
    else wild pattern name

-- A wildcard pattern's own definition: `*` stands for any text, `?` for any one character.
pub data Stands : Text → Text → Type 0 where
  nil : Stands [] []
  star : (p skipped n : Text) → Stands p n → Stands (b'*' ∷ p) (skipped ++ n)
  any_one : (p : Text) (x : ℕ) (n : Text) → Stands p n → Stands (b'?' ∷ p) (x ∷ n)
  same : (p : Text) (x : ℕ) (n : Text) → Stands p n → Stands (x ∷ p) (x ∷ n)

abbrev pub IsHidden : Text → Type 0
IsHidden name = (n : Text) × (name ≡ b'.' ∷ n)

any_skip-of : (f : Text → Bool) (skipped n : Text) → f n ≡ true → any_skip f (skipped ++ n) ≡ true
unfolding any_skip
any_skip-of f [] [] h = h
any_skip-of f [] (x ∷ n) h = ground (arith, h)
any_skip-of f (x ∷ skipped) n h = ground (arith, any_skip-of f skipped n h)

any_skip_sound :
    (f : Text → Bool) (n : Text)
    → any_skip f n ≡ true
    → (skipped : Text) × (rest : Text) × (n ≡ skipped ++ rest) × (f rest ≡ true)
unfolding any_skip
any_skip_sound f [] h = ([], [], refl, h)
any_skip_sound f (x ∷ n) h = elim (Bool-cases (f (x ∷ n))) [
  | inl e ↦ ([], x ∷ n, refl, e)
  | inr e ↦
      let (skipped, rest, q, r) = any_skip_sound f n (ground (arith, h, e)) in
      (x ∷ skipped, rest, cc q, r)
]

wild_sound : (p n : Text) → wild p n ≡ true → Stands p n
unfolding wild
wild_sound [] [] h = nil
wild_sound [] (x ∷ n) h = cc
wild_sound (c ∷ p) n h = elim (Bool-cases (c == b'*')) [
  | inl e ↦
      let (skipped, rest, q, r) = any_skip_sound (wild p) n (ground (arith, h, e)) in
      let s : Stands (b'*' ∷ p) (skipped ++ rest) = star p skipped rest (wild_sound p rest r) in
      rw ((==_iff c b'*').0 e, q) s
  | inr d ↦ elim (Bool-cases (c == b'?')) [
    | inl e ↦ rw ((==_iff c b'?').0 e) (any_one_sound (wild_sound p) n (ground (arith, h, d, e)))
    | inr k ↦ same_sound (wild_sound p) n (ground (arith, h, d, k))
  ]
]
  where
    any_one_sound :
        ((n : Text) → wild p n ≡ true → Stands p n)
        → (n : Text) → after_any (wild p) n ≡ true
        → Stands (b'?' ∷ p) n
    any_one_sound ih [] h = cc
    any_one_sound ih (x ∷ n) h = any_one p x n (ih n h)

    same_sound :
        ((n : Text) → wild p n ≡ true → Stands p n)
        → (n : Text) → after_same c (wild p) n ≡ true
        → Stands (c ∷ p) n
    same_sound ih [] h = cc
    same_sound ih (x ∷ n) h =
        let e : x ≡ c = ground (arith, h) in rw e (same p c n (ih n (ground (arith, h))))

step-same : (x : ℕ) (f : Text → Bool) (n : Text) → f n ≡ true → step x f (x ∷ n) ≡ true
step-same x f n h =
    let skipped : any_skip f (x ∷ n) ≡ true = any_skip-of f (x ∷ []) n h in
    ground (arith, h, skipped)

wild_complete : {p n : Text} → Stands p n → wild p n ≡ true
unfolding wild
wild_complete nil = refl
wild_complete (star p skipped n s) = any_skip-of (wild p) skipped n (wild_complete s)
wild_complete (any_one p x n s) = wild_complete s
wild_complete (same p x n s) = step-same x (wild p) n (wild_complete s)

dot_first : (name : Text) → (starts_with (codes ".") name ≡ true) ↔ IsHidden name
unfolding strip_prefix
dot_first [] = (λ h. cc, λ (n, e). cc)
dot_first (x ∷ name) = (λ h. (name, first h), λ (n, e). starts n e)
  where
    first : starts_with (codes ".") (x ∷ name) ≡ true → x ∷ name ≡ b'.' ∷ name
    first h = elim (Bool-cases (b'.' == x)) [
      | inl e ↦ ap (λ y. y ∷ name) (sym ((==_iff b'.' x).0 e))
      | inr d ↦ ground (arith, h, d)
    ]

    starts : (n : Text) → x ∷ name ≡ b'.' ∷ n → starts_with (codes ".") (x ∷ name) ≡ true
    starts n e = ground (arith, e)

-- A name matches a wildcard pattern exactly when the pattern stands for the whole name, `*` for any
-- text and `?` for any one character, and the pattern starts with `.` if the name does.
pub glob_match_lem :
    (pattern name : Text)
    → (glob_match pattern name ≡ true) ↔ (Stands pattern name × (IsHidden name → IsHidden pattern))
unfolding glob_match
glob_match_lem pattern name = (forth, back)
  where
    forth :
        glob_match pattern name ≡ true → Stands pattern name × (IsHidden name → IsHidden pattern)
    forth h =
        elim (Bool-cases (starts_with (codes ".") name && not (starts_with (codes ".") pattern))) [
          | inl e ↦ ground (arith, h, e)
          | inr d ↦ (
            wild_sound pattern name (ground (arith, h, d)),
            λ hidden. (dot_first pattern).0 (ground (arith, (dot_first name).1 hidden, d)),
          )
        ]

    back : Stands pattern name × (IsHidden name → IsHidden pattern) → glob_match pattern name ≡ true
    back (s, f) = elim (Bool-cases (starts_with (codes ".") name)) [
      | inl e ↦
          let d : starts_with (codes ".") pattern ≡ true =
            (dot_first pattern).1 (f ((dot_first name).0 e)) in
          ground (arith, e, d, wild_complete s)
      | inr e ↦ ground (arith, e, wild_complete s)
    ]
