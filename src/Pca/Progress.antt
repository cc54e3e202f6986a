-- ===== src/Pca/Progress.antt =====
-- The threads of producer_consumer_async.c do not stand still while there is data, and come to rest.
pub mod Measure
use mathlib.Core.Path.{subst}
use csi_hal.Prelude.{
  ℕ, zero, suc, ◌+◌, ◌*◌, ◌<◌, ◌≤◌, ◌≡◌, ◌⊎◌, inl, inr, refl, ap, sym, ◌∙◌, Bool, true, false,
  Option, none, some, List, [], ◌∷◌, ◌++◌, arith, length, get_elem?, if◌then◌else◌, ◌==◌,
  Bool-cases, Option-cases,
}
use csi_hal.Pca.State.{Phase, waiting, woken, holding, ThreadInfo, Consumer, Dispatcher}
use csi_hal.Pca.Threads.{
  Act, produce, wake, lock_data, dispatch, wake_at, lock_at, run_at, step, step_at, is_phase,
  dispatcher_wake, dispatcher_lock, dispatcher_run, consumer_wake, consumer_lock, consumer_run,
  put_at,
}
use csi_hal.Pca.Steps.Consumers.{IsReady, AllReady}
use csi_hal.Pca.Steps.Invariant.{DispatcherReady, IsSound}
use csi_hal.Pca.Steps.Sound.{step-IsSound}
use csi_hal.Pca.Ledger.Conserved.{run}
use csi_hal.Pca.Progress.Measure.{is_thread, steps_left, work, thread-step_less}

-- No thread has a datum that is still to be handled.
abbrev pub AllQuiet : List Consumer → Type 0
AllQuiet [] = Unit {0}
AllQuiet (c ∷ cs) = (c.thread_info.has_new_data ≡ false) × AllQuiet cs

abbrev pub IsQuiet : Dispatcher → Type 0
IsQuiet p = (p.thread_info.has_new_data ≡ false) × AllQuiet p.consumer_list

-- A thread that can take its next step
abbrev pub CanStep : Dispatcher → Type 0
CanStep p = (a : Act) × (p' : Dispatcher) × (is_thread a ≡ true) × (step a p ≡ some p')

Phase-cases :
    (ph : Phase)
    → (is_phase ph waiting ≡ true) ⊎ ((is_phase ph woken ≡ true) ⊎ (is_phase ph holding ≡ true))
Phase-cases waiting = inl refl
Phase-cases woken = inr (inl refl)
Phase-cases holding = inr (inr refl)

-- One phase excludes another.
woken-apart :
    (ph : Phase)
    → is_phase ph woken ≡ true
    → (is_phase ph waiting ≡ false) × (is_phase ph holding ≡ false)
woken-apart waiting h = cc
woken-apart woken h = (refl, refl)
woken-apart holding h = cc

stuck-dispatcher :
    (p : Dispatcher)
    → DispatcherReady p.thread_info
    → dispatcher_wake p ≡ none
    → dispatcher_lock p ≡ none
    → dispatcher_run p ≡ none
    → p.thread_info.has_new_data ≡ false
unfolding dispatcher_wake dispatcher_lock dispatcher_run
stuck-dispatcher p ready no_wake no_lock no_run = elim (Phase-cases p.thread_info.phase) [
  | inl waits ↦ ground (arith, ready.0)
  | inr (inl awake) ↦
      let out = woken-apart p.thread_info.phase awake in ground (arith, ready.2, out.1)
  | inr (inr held) ↦ let e = rw held at no_run in cc
]

stuck-consumer :
    (i : ℕ) (p : Dispatcher) (c : Consumer)
    → IsReady c
    → consumer_wake c ≡ none
    → consumer_lock c ≡ none
    → consumer_run i c p ≡ none
    → c.thread_info.has_new_data ≡ false
unfolding consumer_wake consumer_lock consumer_run
stuck-consumer i p c ready no_wake no_lock no_run = elim (Phase-cases c.thread_info.phase) [
  | inl waits ↦ ground (arith, ready.woken_up waits)
  | inr (inl awake) ↦
      let out = woken-apart c.thread_info.phase awake in ground (arith, ready.locked, out.1)
  | inr (inr held) ↦ let e = rw held at no_run in cc
]

get_elem?-middle :
    (before : List Consumer) (c : Consumer) (cs all : List Consumer)
    → all ≡ before ++ c ∷ cs
    → get_elem? all (length before) ≡ some c
get_elem?-middle [] c cs all e = rw e refl
get_elem?-middle (b ∷ before) c cs all e =
    rw e (get_elem?-middle before c cs (before ++ c ∷ cs) refl)

append-shift :
    (before : List Consumer) (c : Consumer) (cs : List Consumer)
    → before ++ c ∷ cs ≡ (before ++ c ∷ []) ++ cs
append-shift [] c cs = refl
append-shift (b ∷ before) c cs = ap (λ z. b ∷ z) (append-shift before c cs)

own-stuck :
    (i : ℕ) (f : Consumer → Option Consumer) (p : Dispatcher) (c : Consumer)
    → get_elem? p.consumer_list i ≡ some c
    → step_at i (λ c. put_at i p (f c)) p ≡ none
    → f c ≡ none
unfolding step_at
own-stuck i f p c at stuck = elim (Option-cases (f c)) [
  | inl no_step ↦ no_step
  | inr (c', moved) ↦ cc (rw (at, moved, step_at) at stuck)
]

-- The consumers from place `i` on: one can step, or all are quiet.
consumers-move :
    (p : Dispatcher) (before cs : List Consumer)
    → p.consumer_list ≡ before ++ cs
    → AllReady cs
    → CanStep p ⊎ AllQuiet cs
unfolding step step_at
consumers-move p before [] split ready = inr tt
consumers-move p before (c ∷ cs) split ready =
    elim (Option-cases (step (wake_at (length before)) p)) [
      | inr (p', e) ↦ inl (wake_at (length before), p', refl, e)
      | inl no_wake ↦ elim (Option-cases (step (lock_at (length before)) p)) [
        | inr (p', e) ↦ inl (lock_at (length before), p', refl, e)
        | inl no_lock ↦ elim (Option-cases (step (run_at (length before)) p)) [
          | inr (p', e) ↦ inl (run_at (length before), p', refl, e)
          | inl no_run ↦
              let at = get_elem?-middle before c cs (p.consumer_list) split in
              let quiet =
                stuck-consumer (length before) p c ready.0
                  (own-stuck (length before) consumer_wake p c at no_wake)
                  (own-stuck (length before) consumer_lock p c at no_lock)
                  (let e = rw (at, step_at) at no_run in e) in
              elim (consumers-move p (before ++ c ∷ []) cs (split ∙ append-shift before c cs)
                ready.1) [ inl moves ↦ inl moves | inr rest ↦ inr (quiet, rest) ]
        ]
      ]
    ]

progress : (p : Dispatcher) → IsSound p → CanStep p ⊎ IsQuiet p
unfolding step
progress p sound = elim (Option-cases (dispatcher_wake p)) [
  | inr (p', e) ↦ inl (wake, p', refl, e)
  | inl no_wake ↦ elim (Option-cases (dispatcher_lock p)) [
    | inr (p', e) ↦ inl (lock_data, p', refl, e)
    | inl no_lock ↦ elim (Option-cases (dispatcher_run p)) [
      | inr (p', e) ↦ inl (dispatch, p', refl, e)
      | inl no_run ↦ elim (consumers-move p [] p.consumer_list refl sound.ready) [
        | inl moves ↦ inl moves
        | inr quiet ↦ inr (stuck-dispatcher p sound.dispatcher no_wake no_lock no_run, quiet)
      ]
    ]
  ]
]

abbrev pub AllThreads : List Act → Type 0
AllThreads [] = Unit {0}
AllThreads (a ∷ acts) = (is_thread a ≡ true) × AllThreads acts

-- Where no producer feeds, the threads of a sound system come to rest, in whatever order they run: a run has no
-- more steps than `steps_left` tells from its start, and at its end some thread can take a step, or no
-- thread has a datum that is still to be handled.
pub run-IsQuiet :
    (acts : List Act) (p p' : Dispatcher)
    → IsSound p
    → AllThreads acts
    → run acts p ≡ some p'
    → (length acts + steps_left p' ≤ steps_left p) × (CanStep p' ⊎ IsQuiet p')
unfolding run
run-IsQuiet [] p p' sound threads e =
    let same : p ≡ p' = cc in
    (rw same (omega arith), subst (λ z. CanStep z ⊎ IsQuiet z) same (progress p sound))
run-IsQuiet (a ∷ acts) p p' sound (thread, threads) e = elim (Option-cases (step a p)) [
  | inl stuck ↦ cc (rw (stuck, run) at e)
  | inr (p₁, moved) ↦
      let (bound, rest) =
        run-IsQuiet acts p₁ p' (step-IsSound a p p₁ sound moved) threads (rw (moved, run) at e) in
      (omega (arith, bound, thread-step_less a p p₁ thread moved), rest)
]
