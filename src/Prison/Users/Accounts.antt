-- ===== src/Prison/Users/Accounts.antt =====
-- nix/prison/user-manager-generator.rs: `account_uid` on a file of accounts.
use nix_os_container_podman.Common.{
  ℕ, ◌≡◌, ◌<◌, ◌⊎◌, refl, sym, subst, ap, ◌∙◌, length, Result, ok, err, false, List, [], ◌∷◌, ◌++◌,
  map, reverse, reverse-cons, none, Text, bytes_eq, contains, split, All, if◌then◌else◌, ◌==◌,
  Bool-cases, inl, inr, arith,
}
use nix_os_container_podman.Runner.Texts.{
  lines, lines_of, strip_first, strip_suffix, split-append, contains-append,
}
use nix_os_container_podman.StoreCheck.Decimal.{parse_u32}
use nix_os_container_podman.Prison.Users.{
  Error, missing_account, duplicate_account, uids_of, uid_in, onto, only, account_uid,
}

-- An account as a line shows it; `rest` is what stands behind the uid.
pub record Account : Type 0 where
  pub name : Text
  pub password : Text
  pub uid : Text
  pub rest : Text

abbrev pub line_of : Account → Text
line_of a = a.name ++ (b':' ∷ (a.password ++ (b':' ∷ (a.uid ++ (b':' ∷ a.rest)))))

abbrev pub passwd_of : List Account → Text
passwd_of [] = []
passwd_of (a ∷ accounts) = line_of a ++ (b'\n' ∷ passwd_of accounts)

pub record IsWritable (a : Account) : Type 0 where
  pub name : contains b':' a.name ≡ false
  pub password : contains b':' a.password ≡ false
  pub uid : contains b':' a.uid ≡ false
  pub no_newline : contains b'\n' (line_of a) ≡ false
  pub no_return : contains b'\r' (line_of a) ≡ false

contains-reverse : (c : ℕ) (s : Text) → contains c (reverse s) ≡ contains c s
contains-reverse c [] = refl
contains-reverse c (x ∷ s) =
    ap (contains c) (reverse-cons x s)
    ∙ contains-append c (reverse s) (x ∷ [])
    ∙ ground (arith, contains-reverse c s)

strip_suffix-none : (c : ℕ) (s : Text) → contains c s ≡ false → strip_suffix c s ≡ none
unfolding strip_suffix
strip_suffix-none c s h = first (reverse s) (contains-reverse c s ∙ h)
  where
    first : (r : Text) → contains c r ≡ false → strip_first c r ≡ none
    first [] h = refl
    first (x ∷ r) h = ground arith

split_nonempty : (c : ℕ) (s : Text) → (p : Text) × (ps : List Text) × (split c s ≡ p ∷ ps)
unfolding split
split_nonempty c [] = ([], [], refl)
split_nonempty c (x ∷ s) =
    let (p, ps, e) = split_nonempty c s in
    elim (Bool-cases (x == c)) [
      | inl same ↦ ([], split c s, simp same)
      | inr differs ↦ (x ∷ p, ps, simp (differs, e))
    ]

-- A line is read off.
lines-cons :
    (line more : Text)
    → contains b'\n' line ≡ false
    → contains b'\r' line ≡ false
    → lines (line ++ (b'\n' ∷ more)) ≡ line ∷ lines more
unfolding lines lines_of
lines-cons line more h r =
    let (p, ps, e) = split_nonempty b'\n' more in
    rw (split-append b'\n' line more h, e, strip_suffix-none b'\r' line r) refl

lines-passwd_of :
    (accounts : List Account)
    → All IsWritable accounts
    → lines (passwd_of accounts) ≡ map line_of accounts
unfolding lines lines_of split
lines-passwd_of [] h = refl
lines-passwd_of (a ∷ accounts) h =
    lines-cons (line_of a) (passwd_of accounts) h.0.no_newline h.0.no_return
    ∙ ap (λ ls. line_of a ∷ ls) (lines-passwd_of accounts h.1)

-- The uids of the accounts of that name, less those that are no `u32`.
abbrev pub named_uids : Text → List Account → List ℕ
named_uids user [] = []
named_uids user (a ∷ accounts) =
    if bytes_eq a.name user
    then onto (parse_u32 a.uid) (named_uids user accounts)
    else named_uids user accounts

uid_in-line_of :
    (user : Text) (a : Account)
    → IsWritable a
    → uid_in user (split b':' (line_of a))
      ≡ (if bytes_eq a.name user then parse_u32 a.uid else none)
uid_in-line_of user a h = simp (
  split-append b':' a.name (a.password ++ (b':' ∷ (a.uid ++ (b':' ∷ a.rest)))) h.name,
  split-append b':' a.password (a.uid ++ (b':' ∷ a.rest)) h.password,
  split-append b':' a.uid a.rest h.uid,
)

uids_of-map :
    (user : Text) (accounts : List Account)
    → All IsWritable accounts
    → uids_of user (map line_of accounts) ≡ named_uids user accounts
unfolding uids_of
uids_of-map user [] h = refl
uids_of-map user (a ∷ accounts) h = elim (Bool-cases (bytes_eq a.name user)) [
  | inl same ↦ simp (uid_in-line_of user a h.0, same, uids_of-map user accounts h.1)
  | inr differs ↦ simp (uid_in-line_of user a h.0, differs, uids_of-map user accounts h.1)
]

account_uid-passwd_of :
    (user : Text) (accounts : List Account)
    → All IsWritable accounts
    → account_uid (passwd_of accounts) user ≡ only user (named_uids user accounts)
unfolding account_uid
account_uid-passwd_of user accounts h =
    ap (λ ls. only user (uids_of user ls)) (lines-passwd_of accounts h)
    ∙ ap (only user) (uids_of-map user accounts h)

-- What the result says of the uids: none, one, or more than one.
abbrev pub Tells : Text → List ℕ → Result Error ℕ → Type 0
Tells user uids (ok uid) = uids ≡ uid ∷ []
Tells user uids (err e) =
    ((e ≡ missing_account user) × (length uids ≡ 0))
    ⊎ ((e ≡ duplicate_account user) × (1 < length uids))

only-Tells : (user : Text) (uids : List ℕ) → Tells user uids (only user uids)
only-Tells user [] = inl (refl, refl)
only-Tells user (uid ∷ []) = refl
only-Tells user (uid ∷ again ∷ more) = inr (refl, omega arith)

-- On a file of accounts, whose fields hold no colon and whose lines no newline and no carriage return, of
-- the accounts of that name take those whose uid is a `u32`: `account_uid` gives a uid only if it is that
-- of the only one of them, and otherwise says that the account is missing, only if there is none, or that
-- it is there twice, only if there are more than one.
pub account_uid-accounts :
    (user : Text) (accounts : List Account)
    → All IsWritable accounts
    → Tells user (named_uids user accounts) (account_uid (passwd_of accounts) user)
account_uid-accounts user accounts h =
    subst (Tells user (named_uids user accounts)) (sym (account_uid-passwd_of user accounts h))
      (only-Tells user (named_uids user accounts))
