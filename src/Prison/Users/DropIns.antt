-- ===== src/Prison/Users/DropIns.antt =====
-- nix/prison/user-manager-generator.rs: what `generate` writes.
use nix_os_container_podman.Common.{
  ℕ, ◌≡◌, refl, sym, ap, ◌∙◌, subst, Bool, true, false, List, [], ◌∷◌, ◌++◌, append_assoc,
  append-nil, Text, ok, err, Result, Result-cases, Bool-cases, inl, inr, ◌⊎◌,
}
use nix_os_container_podman.Prison.Users.{
  Error, account_uid, is_account_name, directory_of, drop_in, temporary, final, Change, made_dir,
  wrote, renamed, change, ◌>>◌, write_drop_in, generate_user, generate, continue,
}

-- The changes for one user: the directory, the whole file under its temporary name, and its renaming.
abbrev pub changes_for : Text → Text → ℕ → List Change
changes_for output user uid =
    let directory = directory_of output user in
    made_dir directory
    ∷ wrote (temporary directory) (drop_in uid)
    ∷ renamed (temporary directory) (final directory)
    ∷ []

-- The changes for a list of users, in order: of all of them, or of the first ones and a part of the next.
pub data Writes (output passwd : Text) : List Text → Bool → List Change → Type 0 where
  complete : Writes output passwd [] true []
  none_more : (users : List Text) → Writes output passwd users false []
  one_part :
      (user : Text) (users : List Text) (uid : ℕ) (part rest : List Change)
      → is_account_name user ≡ true
      → account_uid passwd user ≡ ok uid
      → part ++ rest ≡ changes_for output user uid
      → Writes output passwd (user ∷ users) false part
  one_more :
      (user : Text) (users : List Text) (uid : ℕ) {whole : Bool} {log : List Change}
      → is_account_name user ≡ true
      → account_uid passwd user ≡ ok uid
      → Writes output passwd users whole log
      → Writes output passwd (user ∷ users) whole (changes_for output user uid ++ log)

abbrev pub is_ok : Result Error (Unit {0}) → Bool
is_ok (ok u) = true
is_ok (err e) = false

module _ (disk : Change → Bool) (output passwd : Text) where
  -- What is written behind the log that was there.
  abbrev Wrote : List Text → List Change → Result Error (Unit {0}) × List Change → Type 0
  Wrote users log (r, log') =
      (new : List Change) × (log' ≡ log ++ new) × Writes output passwd users (is_ok r) new

  -- Changes that were all made, or an error behind the first ones.
  abbrev Made : List Change → List Change → Result Error (Unit {0}) × List Change → Type 0
  Made changes log (r, log') =
      ((r ≡ ok tt) × (log' ≡ log ++ changes))
      ⊎ ((part rest : List Change) × (is_ok r ≡ false)
          × (log' ≡ log ++ part)
          × (part ++ rest ≡ changes))

  three-Made :
      (a b c : Change) (log : List Change)
      → Made (a ∷ b ∷ c ∷ []) log ((do change disk a; change disk b; change disk c) log)
  three-Made a b c log = elim (Bool-cases (disk a)) [
    | inr stop ↦ inr ([], a ∷ b ∷ c ∷ [], simp stop, simp (stop, append-nil log), refl)
    | inl first ↦ elim (Bool-cases (disk b)) [
      | inr stop ↦ inr (a ∷ [], b ∷ c ∷ [], simp (first, stop), simp (first, stop), refl)
      | inl second ↦ elim (Bool-cases (disk c)) [
        | inr stop ↦ inr (
          a ∷ b ∷ [],
          c ∷ [],
          simp (first, second, stop),
          simp (first, second, stop, append_assoc log (a ∷ []) (b ∷ [])),
          refl,
        )
        | inl third ↦ inl (
          simp (first, second, third),
          simp (
            first,
            second,
            third,
            append_assoc log (a ∷ []) (b ∷ []),
            append_assoc log (a ∷ b ∷ []) (c ∷ []),
          ),
        )
      ]
    ]
  ]

  write_drop_in-Made :
      (user : Text) (uid : ℕ) (log : List Change)
      → Made
          (changes_for output user uid)
          log
          (write_drop_in disk output passwd (directory_of output user) uid log)
  unfolding write_drop_in
  write_drop_in-Made user uid log = three-Made _ _ _ log

  -- What follows the drop-in of the first user.
  Wrote-user :
      (user : Text) (users : List Text) (uid : ℕ) (log : List Change)
      → (r : Result Error (Unit {0}) × List Change) → is_account_name user ≡ true
      → account_uid passwd user ≡ ok uid
      → Made (changes_for output user uid) log r
      → ((log' : List Change) → Wrote users log' (generate disk output passwd users log'))
      → Wrote (user ∷ users) log (continue r.0 (λ _. generate disk output passwd users) r.1)
  Wrote-user user users uid log (ok u, log') n a (inl (whole, e)) rest =
      let (new, more, w) = rest log' in
      (
        changes_for output user uid ++ new,
        more ∙ ap (λ l. l ++ new) e ∙ append_assoc log (changes_for output user uid) new,
        one_more user users uid n a w,
      )
  Wrote-user user users uid log (err x, log') n a (inl (whole, e)) rest = cc whole
  Wrote-user user users uid log (ok u, log') n a (inr (part, more, failed, e, split)) rest =
      cc failed
  Wrote-user user users uid log (err x, log') n a (inr (part, more, failed, e, split)) rest =
      (part, e, one_part user users uid part more n a split)

  generate-Wrote :
      (users : List Text) (log : List Change)
      → Wrote users log (generate disk output passwd users log)
  unfolding generate generate_user
  generate-Wrote [] log = ([], sym (append-nil log), complete)
  generate-Wrote (user ∷ users) log = elim (Bool-cases (is_account_name user)) [
    | inr bad ↦ simp bad ([], sym (append-nil log), none_more (user ∷ users))
    | inl good ↦ elim (Result-cases (account_uid passwd user)) [
      | inr (e, missing) ↦ simp (good, missing) ([], sym (append-nil log), none_more (user ∷ users))
      | inl (uid, found) ↦
          simp (good, found)
            (Wrote-user user users uid log
              (write_drop_in disk output passwd (directory_of output user) uid log) good found
              (write_drop_in-Made user uid log) (generate-Wrote users))
    ]
  ]

  -- Whatever the disk refuses, `generate` writes nothing but drop-ins of its users, in their order, each
  -- with the directory first and the file complete before it gets its name, each for a valid name and
  -- with the uid of the one account of that name. If it returns Ok it has written all of them, and
  -- otherwise those of some first users and a part of the next one's.
  pub generate-Writes :
      (users : List Text)
      → Writes output passwd users
          (is_ok (generate disk output passwd users []).0)
          (generate disk output passwd users []).1
  generate-Writes users =
      let (new, e, w) = generate-Wrote users [] in
      subst (Writes output passwd users (is_ok (generate disk output passwd users []).0)) (sym e) w
