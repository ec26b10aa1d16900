-- ===== src/Bounds/Threads/Turns.antt =====
-- Schedules: the two threads the other way round, and one under which both finish.
use simplex.Base.{ℕ, ◌≡◌, refl, ap, ◌∙◌, List, [], ◌∷◌, ◌++◌}
use simplex.Machine.{Machine}
use simplex.Bounds.Interrupts.Code.{Code, done, spill, make, read, mask, print}
use simplex.Bounds.Threads.{Thread, advance, resume, Turn, first, second, schedule}

abbrev pub swapped : Turn → Turn
swapped first = second
swapped second = first

abbrev pub all_swapped : List Turn → List Turn
all_swapped [] = []
all_swapped (t ∷ ts) = swapped t ∷ all_swapped ts

pub schedule-all_swapped :
    (turns : List Turn) (a b : Thread)
    → schedule (all_swapped turns) b a ≡ ((schedule turns a b).1, (schedule turns a b).0)
unfolding schedule
schedule-all_swapped [] a b = refl
schedule-all_swapped (first ∷ turns) a b = schedule-all_swapped turns _ _
schedule-all_swapped (second ∷ turns) a b = schedule-all_swapped turns _ _

schedule-append :
    (xs ys : List Turn) (a b : Thread)
    → schedule (xs ++ ys) a b ≡ schedule ys (schedule xs a b).0 (schedule xs a b).1
unfolding schedule
schedule-append [] ys a b = refl
schedule-append (first ∷ xs) ys a b = schedule-append xs ys _ _
schedule-append (second ∷ xs) ys a b = schedule-append xs ys _ _

pub record Finished (r : Thread × Thread) : Type 0 where
  first_results : List ℕ
  second_results : List ℕ
  pub first_done : r.0.left ≡ done first_results
  pub second_done : r.1.left ≡ done second_results

-- The first thread alone, to its end.
record RunsAlone (p : Code (List ℕ)) (m : Machine) (b : Thread) : Type 0 where
  turns : List Turn
  results : List ℕ
  ended : (schedule turns (record { left = p; machine = m }) b).0.left ≡ done results
  other : (schedule turns (record { left = p; machine = m }) b).1.left ≡ b.left

one_more :
    {p : Code (List ℕ)} {m : Machine} {b : Thread}
    → let a = advance p m in RunsAlone a.left a.machine (resume a.machine.mem b) → RunsAlone p m b
unfolding schedule
one_more r = record {
  turns = first ∷ r.turns;
  results = r.results;
  ended = r.ended;
  other = r.other;
}

alone : (p : Code (List ℕ)) (m : Machine) (b : Thread) → RunsAlone p m b
unfolding advance schedule
alone (done vs) m b = record { turns = []; results = vs; ended = refl; other = refl }
alone (spill n d p) m b = one_more (alone p _ _)
alone (make n base index p) m b = one_more (alone p _ _)
alone (read d k) m b = one_more (alone (k _) _ _)
alone (mask imm d p) m b = one_more (alone p _ _)
alone (print caller reg p) m b = one_more (alone p _ _)

-- One thread after the other.
pub fair_schedule : (a b : Thread) → (fair : List Turn) × Finished (schedule fair a b)
fair_schedule a b =
    let r = alone a.left a.machine b in
    let a1 = (schedule r.turns a b).0 in
    let b1 = (schedule r.turns a b).1 in
    let s = alone b1.left b1.machine a1 in
    let e =
      schedule-append r.turns (all_swapped s.turns) a b ∙ schedule-all_swapped s.turns b1 a1 in
    (
      r.turns ++ all_swapped s.turns,
      record {
        first_results = r.results;
        second_results = s.results;
        first_done = ap (λ (t : Thread × Thread). t.0.left) e ∙ s.other ∙ r.ended;
        second_done = ap (λ (t : Thread × Thread). t.1.left) e ∙ s.ended;
      },
    )
