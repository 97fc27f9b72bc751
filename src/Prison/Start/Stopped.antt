-- ===== src/Prison/Start/Stopped.antt =====
-- prison-start/src/main.rs: which end a stop's SIGTERM leads to.
use nix_os_container_podman.Common.{
  ℕ, zero, suc, ◌+◌, ◌≤◌, ◌≡◌, ◌∙◌, refl, Bool, true, false, ◌||◌, List, [], ◌∷◌, Option, none,
  some, if◌then◌else◌, arith, Option-cases, Bool-cases, inl, inr,
}
use nix_os_container_podman.Prison.Start.{
  Start, Status, End, exits, dies_by, handling, waited, over, sigterm, exited, signalled, neither,
  verdict, advance, on_term, Event, term, step, main_from, main,
}

abbrev pub steps : List Event → ℕ
steps [] = 0
steps (term ∷ events) = steps events
steps (step ∷ events) = suc (steps events)

-- Whether a SIGTERM comes before step `n` counted from 1, the last of them included.
abbrev pub stopped_before : ℕ → List Event → Bool
stopped_before n [] = false
stopped_before zero (e ∷ events) = false
stopped_before (suc n) (term ∷ events) = true
stopped_before (suc n) (step ∷ events) = stopped_before n events

-- Ended by the signal, or with the status that a shell shows for it if the signal does no harm.
abbrev pub killed_by : Start → ℕ → End
killed_by s sig = if s.is_harmless sig then exits (sig + 128) else dies_by sig

-- The end by what became of the program, and whether a stop came.
abbrev pub ended_by : Start → Option Status → Bool → End
ended_by s none stopped = exits 127
ended_by s (some (exited zero)) stopped = exits 0
ended_by s (some (exited (suc code))) stopped =
    if stopped then killed_by s sigterm else exits (suc code)
ended_by s (some (signalled sig)) stopped = killed_by s (if stopped then sigterm else sig)
ended_by s (some neither) stopped = if stopped then killed_by s sigterm else exits 1

-- The end by the time of the first SIGTERM.
abbrev pub end_of : Start → List Event → End
end_of s events =
    if stopped_before 1 events
    then dies_by sigterm
    else if s.has_program
    then ended_by s s.child (stopped_before 3 events)
    else exits 2

over-stays : (s : Start) (events : List Event) (e : End) → main_from s events (over e) ≡ over e
unfolding main_from
over-stays s [] e = refl
over-stays s (term ∷ events) e = over-stays s events e
over-stays s (step ∷ events) e = over-stays s events e

verdict-ends :
    (s : Start) (status : Status) (stopped : Bool)
    → over (verdict s status stopped) ≡ over (ended_by s (some status) stopped)
unfolding verdict
verdict-ends s (exited zero) stopped = refl
verdict-ends s (exited (suc code)) true = ground arith
verdict-ends s (exited (suc code)) false = ground arith
verdict-ends s (signalled sig) true = ground arith
verdict-ends s (signalled sig) false = ground arith
verdict-ends s neither true = ground arith
verdict-ends s neither false = refl

waited-ends :
    (s : Start) (events : List Event) (status : Status) (stopping : Bool)
    → 1 ≤ steps events
    → main_from s events (waited status stopping)
      ≡ over (ended_by s (some status) (stopping || stopped_before 1 events))
unfolding main_from
waited-ends s [] status stopping h = absurd (omega arith)
waited-ends s (term ∷ events) status true h = waited-ends s events status true h
waited-ends s (term ∷ events) status false h = waited-ends s events status true h
waited-ends s (step ∷ events) status true h =
    over-stays s events (verdict s status true) ∙ verdict-ends s status true
waited-ends s (step ∷ []) status false h = verdict-ends s status false
waited-ends s (step ∷ e ∷ events) status false h =
    over-stays s (e ∷ events) (verdict s status false) ∙ verdict-ends s status false

handling-ends :
    (s : Start) (events : List Event) (stopping : Bool)
    → 2 ≤ steps events
    → main_from s events (handling stopping)
      ≡ over (ended_by s s.child (stopping || stopped_before 2 events))
unfolding main_from advance on_term
handling-ends s [] stopping h = absurd (omega arith)
handling-ends s (term ∷ events) true h = handling-ends s events true h
handling-ends s (term ∷ events) false h = handling-ends s events true h
handling-ends s (step ∷ events) stopping h = elim (Option-cases s.child) [
  | inl none_ran ↦ simp none_ran (over-stays s events (exits 127))
  | inr (status, ran) ↦ simp ran (waited-ends s events status stopping (omega arith))
]

-- Once `main` has made its three steps it has ended: by SIGTERM if one came before the handler was there;
-- with 2 if no program is named and with 127 if it cannot be run; with 0 if the program succeeded, even
-- when a stop came; and if it failed as SIGTERM ends a process when one came before STOPPING was read,
-- and otherwise as the program itself ended. Nothing that comes later changes that.
pub main_lem :
    (s : Start) (events : List Event) → 3 ≤ steps events → main s events ≡ over (end_of s events)
unfolding main main_from advance on_term
main_lem s [] h = absurd (omega arith)
main_lem s (term ∷ events) h = over-stays s events (dies_by sigterm)
main_lem s (step ∷ []) h = absurd (omega arith)
main_lem s (step ∷ e ∷ events) h = elim (Bool-cases s.has_program) [
  | inl named ↦ simp named (handling-ends s (e ∷ events) false (omega arith))
  | inr unnamed ↦ simp unnamed (over-stays s (e ∷ events) (exits 2))
]
