-- ===== src/Bounds/Threads/Isolation.antt =====
-- What a thread does not see of the other one.
use simplex.Base.{
  ℕ, ◌≡◌, refl, ap, sym, subst, ◌∙◌, arith, List, [], ◌∷◌, ◌≤◌, inl, inr, Bool-cases, sub64, add64,
}
use simplex.Machine.{Machine, mpx_on, slot, bndmov, bndmk, mov_load, andq, report}
use simplex.Machine.Bytes.{Memory, store64}
use simplex.Machine.Stores.{store64-off}
use simplex.Bounds.Api.{Call, exec_all}
use simplex.Bounds.Interrupts.Code.{Code, done, spill, make, read, mask, print, code_all}
use simplex.Bounds.Interrupts.Safety.{
  zone, Agrees, Interrupted, InZone, ends, spills, makes, reads, masks, prints, disturbed, Same,
}
use simplex.Bounds.Interrupts.Transparent.{InZone-code_all, code_all-Same}
use simplex.Bounds.Threads.{Thread, advance, step, resume, Turn, first, second, schedule, Apart}
use simplex.Bounds.Threads.Turns.{all_swapped, schedule-all_swapped, Finished, fair_schedule}

-- An instruction keeps the stack pointer, and memory outside the red zone.
record Steps (p : Code (List ℕ)) (m : Machine) : Type 0 where
  in_zone : InZone (advance p m).left
  rsp : (advance p m).machine.rsp ≡ m.rsp
  mem : (x : ℕ) → zone ≤ sub64 x (slot zone m) → (advance p m).machine.mem x ≡ m.mem x

advance-Steps : (p : Code (List ℕ)) (m : Machine) → InZone p → Steps p m
unfolding advance mov_load andq report
advance-Steps (done vs) m z = record { in_zone = z; rsp = refl; mem = λ x h. refl }
advance-Steps (spill n d p) m z =
    unfold bndmov in
    (elim (Bool-cases (mpx_on m)) [
      | inl on ↦ record {
        in_zone = z.2;
        rsp = rw on refl;
        mem = λ x h. rw on (
            store64-off (store64 m.mem (slot d m) (m.bnds n).lb) (add64 (slot d m) 8) (m.bnds n).ub
              x (omega (arith, z.0, z.1))
            ∙ store64-off m.mem (slot d m) (m.bnds n).lb x (omega (arith, z.0, z.1)));
      }
      | inr off ↦ record { in_zone = z.2; rsp = rw off refl; mem = λ x h. rw off refl }
    ])
advance-Steps (make n base index p) m z =
    unfold bndmk in
    (elim (Bool-cases (mpx_on m)) [
      | inl on ↦ record { in_zone = z; rsp = rw on refl; mem = λ x h. rw on refl }
      | inr off ↦ record { in_zone = z; rsp = rw off refl; mem = λ x h. rw off refl }
    ])
advance-Steps (read d k) m z = record { in_zone = z.2 _; rsp = refl; mem = λ x h. refl }
advance-Steps (mask imm d p) m z = record {
  in_zone = z.2;
  rsp = refl;
  mem = λ x h. store64-off m.mem (slot d m) _ x (omega (arith, z.0, z.1));
}
advance-Steps (print caller reg p) m z = record { in_zone = z; rsp = refl; mem = λ x h. refl }

-- Two threads between two turns.
record AreThreads (top other : ℕ) (a b : Thread) : Type 0 where
  shared : a.machine.mem ≡ b.machine.mem
  first_rsp : a.machine.rsp ≡ top
  second_rsp : b.machine.rsp ≡ other
  first_code : InZone a.left
  second_code : InZone b.left

by_instruction :
    (p : Code (List ℕ)) (m : Machine) {vs : List ℕ} {m' : Machine}
    → Interrupted (advance p m).left (advance p m).machine vs m'
    → Interrupted p m vs m'
unfolding advance
by_instruction (done vs) m r = r
by_instruction (spill n d p) m r = spills r
by_instruction (make n base index p) m r = makes r
by_instruction (read d k) m r = reads r
by_instruction (mask imm d p) m r = masks r
by_instruction (print caller reg p) m r = prints r

module _ {top other : ℕ} (apart : Apart top other) where
  first-AreThreads :
      {a b : Thread}
      → AreThreads top other a b
      → AreThreads top other (step a) (resume (step a).machine.mem b)
  first-AreThreads {a} t =
      let s = advance-Steps a.left a.machine t.first_code in
      record {
        shared = refl;
        first_rsp = s.rsp ∙ t.first_rsp;
        second_rsp = t.second_rsp;
        first_code = s.in_zone;
        second_code = t.second_code;
      }

  second-AreThreads :
      {a b : Thread}
      → AreThreads top other a b
      → AreThreads top other (resume (step b).machine.mem a) (step b)
  second-AreThreads {a} {b} t =
      let s = advance-Steps b.left b.machine t.second_code in
      record {
        shared = refl;
        first_rsp = t.first_rsp;
        second_rsp = s.rsp ∙ t.second_rsp;
        first_code = t.first_code;
        second_code = s.in_zone;
      }

  -- To the first thread, a turn of the second one is a handler.
  second-Agrees :
      {a b : Thread}
      → AreThreads top other a b
      → Agrees a.machine (resume (step b).machine.mem a).machine
  second-Agrees {a} {b} t =
      let s = advance-Steps b.left b.machine t.second_code in
      record {
        bnds = refl;
        bndcfgu = refl;
        bndstatus = refl;
        xcr0 = refl;
        osxsave = refl;
        rsp = refl;
        red_zone = λ x h.
            s.mem x (rw t.second_rsp (apart x (rw (← t.first_rsp) h)))
            ∙ ap (λ (mem : Memory). mem x) (sym t.shared);
      }

  first-Interrupted :
      (turns : List Turn) {a b : Thread}
      → AreThreads top other a b
      → {vs : List ℕ} → (schedule turns a b).0.left ≡ done vs
      → Interrupted a.left a.machine vs (schedule turns a b).0.machine
  unfolding schedule
  first-Interrupted [] {a} t {vs} e =
      subst (λ p. Interrupted p a.machine vs a.machine) (sym e) (ends vs a.machine)
  first-Interrupted (first ∷ turns) {a} t e =
      by_instruction a.left a.machine (first-Interrupted turns (first-AreThreads t) e)
  first-Interrupted (second ∷ turns) t e =
      disturbed (second-Agrees t) (first-Interrupted turns (second-AreThreads t) e)

-- The two at the start.
abbrev pub starting : List Call → Machine → Thread
starting cs m = record { left = code_all cs; machine = m }

module _ (cs ds : List Call) (m m' : Machine) (turns : List Turn) where
  abbrev pub ran : Thread × Thread
  ran = schedule turns (starting cs m) (resume m.mem (starting ds m'))

  first_runs :
      Apart m.rsp m'.rsp
      → {vs : List ℕ} → ran.0.left ≡ done vs
      → Interrupted (code_all cs) m vs ran.0.machine
  first_runs apart e =
      first-Interrupted apart turns
        (record {
          shared = refl;
          first_rsp = refl;
          second_rsp = refl;
          first_code = InZone-code_all cs;
          second_code = InZone-code_all ds;
        })
        e

  second_runs :
      Apart m'.rsp m.rsp
      → {ws : List ℕ} → ran.1.left ≡ done ws
      → Interrupted (code_all ds) (record m' { mem = m.mem }) ws ran.1.machine
  second_runs apart {ws} e =
      let other = schedule-all_swapped turns (starting cs m) (resume m.mem (starting ds m')) in
      subst
        (λ (r : Thread × Thread).
          Interrupted (code_all ds) (record m' { mem = m.mem }) ws r.0.machine)
        other
        (first-Interrupted apart (all_swapped turns)
          (record {
            shared = refl;
            first_rsp = refl;
            second_rsp = refl;
            first_code = InZone-code_all ds;
            second_code = InZone-code_all cs;
          })
          (ap (λ (r : Thread × Thread). r.0.left) other ∙ e))

-- Two threads with registers of their own, with stacks whose red zones do not meet, and with one memory run
-- under a schedule that switches between any two instructions. If both finish their calls, each has got what
-- its calls return when it runs alone from the same registers and memory, and has the registers and the red
-- zone that it then leaves; and there is a schedule under which both finish.
pub schedule-Same :
    (cs ds : List Call) (m m' : Machine) (turns : List Turn) {vs ws : List ℕ}
    → Apart m.rsp m'.rsp
    → Apart m'.rsp m.rsp
    → (ran cs ds m m' turns).0.left ≡ done vs
    → (ran cs ds m m' turns).1.left ≡ done ws
    → Same (exec_all cs m) vs (ran cs ds m m' turns).0.machine
      × Same (exec_all ds (record m' { mem = m.mem })) ws (ran cs ds m m' turns).1.machine
      × ((fair : List Turn) × Finished (ran cs ds m m' fair))
schedule-Same cs ds m m' turns {vs} {ws} apart apart' e e' = (
  (code_all-Same cs m (first_runs cs ds m m' turns apart e)).0,
  (code_all-Same ds (record m' { mem = m.mem }) (second_runs cs ds m m' turns apart' e')).0,
  fair_schedule (starting cs m) (resume m.mem (starting ds m')),
)
