-- ===== src/Runner/Signals/Forwarded.antt =====
-- nix/app/runner.rs: which signals reach podman, and which one is lost.
use nix_os_container_podman.Common.{
  ℕ, ◌≡◌, ◌≢◌, refl, sym, ap, ◌∙◌, Bool, true, false, not, ◌||◌, List, [], ◌∷◌, ◌++◌, append_assoc,
  append-nil, reverse, reverse-cons, map, filter, ◌==◌, if◌then◌else◌, arith, Bool-cases, inl, inr,
}
use nix_os_container_podman.Runner.Signals.{
  Signal, sigterm, Relay, must_forward, relay, deliver, ExitStatus, exit_code, Gaps, idle,
  pass_early, pass_on, supervise,
}

-- A SIGTERM, or a signal while podman is not in the terminal's foreground group.
abbrev pub is_forwarded : Signal → Bool
is_forwarded s = s.sig == 15 || not s.foreground

abbrev pub killed : ℕ → List Signal → List (ℕ × ℕ)
killed pid signals = map (λ s. (pid, s.sig)) (filter is_forwarded signals)

-- The last signal of a list as EARLY has it.
abbrev pub last_of : ℕ → List Signal → ℕ
last_of e [] = e
last_of e (s ∷ signals) = last_of s.sig signals

-- Before there is a child, the last signal is kept and nothing sent.
deliver-early :
    (signals : List Signal) (r : Relay)
    → r.child ≡ 0
    → deliver signals r ≡ record r { early = last_of r.early signals }
unfolding deliver relay
deliver-early [] r h = refl
deliver-early (s ∷ signals) r h =
    let e : (r.child == 0) ≡ true = ground (arith, h) in
    simp e (deliver-early signals (record r { early = s.sig }) h)

sent : ℕ → List Signal → List (ℕ × ℕ) → List (ℕ × ℕ)
sent pid [] kills = kills
sent pid (s ∷ signals) kills =
    sent pid signals (if must_forward s then (pid, s.sig) ∷ kills else kills)

deliver-child :
    (signals : List Signal) (r : Relay)
    → (r.child == 0) ≡ false
    → deliver signals r ≡ record r { kills = sent r.child signals r.kills }
unfolding deliver relay sent
deliver-child [] r h = refl
deliver-child (s ∷ signals) r h = elim (Bool-cases (must_forward s)) [
  | inl e ↦ simp (h, e) (deliver-child signals (record r { kills = (r.child, s.sig) ∷ r.kills }) h)
  | inr e ↦ simp (h, e) (deliver-child signals r h)
]

reverse-sent :
    (pid : ℕ) (signals : List Signal) (kills : List (ℕ × ℕ))
    → reverse (sent pid signals kills) ≡ reverse kills ++ killed pid signals
unfolding sent
reverse-sent pid [] kills = sym (append-nil (reverse kills))
reverse-sent pid (s ∷ signals) kills = elim (Bool-cases (must_forward s)) [
  | inl e ↦ simp e (
      reverse-sent pid signals ((pid, s.sig) ∷ kills)
      ∙ ap (λ t. t ++ killed pid signals) (reverse-cons (pid, s.sig) kills)
      ∙ append_assoc (reverse kills) ((pid, s.sig) ∷ []) (killed pid signals))
  | inr e ↦ simp e (reverse-sent pid signals kills)
]

-- The signal that EARLY keeps, if any, as it is judged when podman has been started.
abbrev pub early_signals : Gaps → List Signal
early_signals g =
    if last_of 0 g.starting == 0
    then []
    else record { sig = last_of 0 g.starting; foreground = g.foreground } ∷ []

pass_early_lem :
    (pid : ℕ) (g : Gaps) (r : Relay)
    → pass_early pid (record { sig = last_of 0 g.starting; foreground = g.foreground }) r
      ≡ record r { kills = sent pid (early_signals g) r.kills }
unfolding pass_early sent
pass_early_lem pid g r = elim (Bool-cases (last_of 0 g.starting == 0)) [
  | inl e ↦ simp e refl
  | inr e ↦
      elim (Bool-cases
        (must_forward (record { sig = last_of 0 g.starting; foreground = g.foreground }))) [
          | inl f ↦ simp (e, f) refl
          | inr f ↦ simp (e, f) refl
        ]
]

-- What `kill` was called with in the end.
abbrev sents : ℕ → Gaps → List (ℕ × ℕ)
sents pid g =
    sent pid g.ended
      (sent pid g.running (sent pid (early_signals g) (sent pid g.taken (sent pid g.started []))))

supervised :
    (pid : ℕ) (g : Gaps)
    → (pid == 0) ≡ false
    → deliver g.ended
        (pass_on pid g (deliver g.started (record (deliver g.starting idle) { child = pid })))
      ≡ record { child = pid; early = 0; kills = sents pid g }
supervised pid g h =
    let start = deliver-early g.starting idle refl in
    let r : Relay = record { child = pid; early = last_of 0 g.starting; kills = [] } in
    let s : Relay = record r { early = 0; kills = sent pid g.started [] } in
    let t : Relay = record s { kills = sent pid g.taken s.kills } in
    let u : Relay = record s { kills = sent pid (early_signals g) t.kills } in
    let v : Relay = record s { kills = sent pid g.running u.kills } in
    simp
      (
        start,
        deliver-child g.started r h,
        deliver-child g.taken s h,
        pass_early_lem pid g t,
        deliver-child g.running u h,
        deliver-child g.ended v h,
      )
      refl

reverse-sents :
    (pid : ℕ) (g : Gaps)
    → reverse (sents pid g)
      ≡ killed pid g.started
        ++ (killed pid g.taken
            ++ (killed pid (early_signals g) ++ (killed pid g.running ++ killed pid g.ended)))
reverse-sents pid g = simp (reverse-sent, append_assoc) refl

-- Of the signals that reach `supervise`, podman is sent, each once and in this order: all that arrive
-- between its start and the taking of EARLY, and until EARLY is passed on; of those before, only the last;
-- and all from there on until CHILD is reset. Left out are those that a foreground group's terminal sends,
-- except SIGTERM. The status is podman's, as a shell reports it, and CHILD and EARLY are reset.
pub supervise_forwards :
    (pid : ℕ) (g : Gaps) (status : ExitStatus)
    → pid ≢ 0
    → ((supervise pid g status).0 ≡ exit_code status)
      × ((supervise pid g status).1.child ≡ 0)
      × ((supervise pid g status).1.early ≡ 0)
      × (reverse (supervise pid g status).1.kills
          ≡ killed pid g.started
            ++ (killed pid g.taken
                ++ (killed pid (early_signals g) ++ (killed pid g.running ++ killed pid g.ended))))
unfolding supervise
supervise_forwards pid g status h =
    simp (supervised pid g (ground (arith, h))) (refl, refl, refl, reverse-sents pid g)

-- Signals that all arrive before CHILD is set, with this process in the foreground of its terminal.
abbrev pub early_only : List Signal → Gaps
early_only signals = record {
  starting = signals;
  started = [];
  taken = [];
  foreground = true;
  running = [];
  ended = [];
}

last_of-append :
    (e : ℕ) (signals : List Signal) (s : Signal) → last_of e (signals ++ (s ∷ [])) ≡ s.sig
last_of-append e [] s = refl
last_of-append e (t ∷ signals) s = last_of-append t.sig signals s

-- If the last signal before podman's start is not SIGTERM and the terminal's foreground group is this
-- process's, podman is sent nothing: not that signal, which podman was not there to get from the terminal,
-- and no SIGTERM that came before it.
pub early_signals_lost :
    (pid : ℕ) (signals : List Signal) (s : Signal) (status : ExitStatus)
    → pid ≢ 0
    → s.sig ≢ sigterm
    → (supervise pid (early_only (signals ++ (s ∷ []))) status).1.kills ≡ []
unfolding supervise sent
early_signals_lost pid signals s status h d =
    let last = last_of-append 0 signals s in
    let other : (s.sig == 15) ≡ false = ground (arith, d) in
    simp (supervised pid (early_only (signals ++ (s ∷ []))) (ground (arith, h)), last)
      (elim (Bool-cases (s.sig == 0)) [ inl e ↦ simp e refl | inr e ↦ simp (e, other) refl ])
