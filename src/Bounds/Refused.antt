-- ===== src/Bounds/Refused.antt =====
-- Calls with a number above 3 in the middle of a program: the program without them does the same.
use simplex.Base.{ℕ, ◌≡◌, List, [], ◌∷◌, ◌++◌, ltb, if◌then◌else◌}
use simplex.Machine.{BndName, Machine, Message}
use simplex.Bounds.Blocks.{IsMachine}
use simplex.Bounds.Errors.{reg_of, lines_of}
use simplex.Bounds.Api.{Call, exec, exec_all}

-- The machine with another log.
abbrev logged : List Message → Machine → Machine
logged lines m = record m { stderr = lines }

-- A call on a register reads nothing from the log, and adds nothing to it.
module _ (lines : List Message) {m : Machine} (ok : IsMachine m) (n : BndName) where
  abbrev Same : Call → Type 0
  Same c = exec c (logged lines m) ≡ ((exec c m).0, logged lines (exec c m).1)

-- The calls on one of the four registers.
abbrev pub accepted : List Call → List Call
accepted [] = []
accepted (c ∷ cs) = if ltb (reg_of c) 4 then c ∷ accepted cs else accepted cs

-- Their results, with a 0 for each other call.
abbrev next : (ℕ → List ℕ → List ℕ) → List ℕ → List ℕ
next k [] = k 0 []
next k (v ∷ vs) = k v vs

abbrev pub spread : List Call → List ℕ → List ℕ
spread [] vs = []
spread (c ∷ cs) vs =
    if ltb (reg_of c) 4 then next (λ v rest. v ∷ spread cs rest) vs else 0 ∷ spread cs vs

-- The log behind the calls, the latest line first.
abbrev pub log_of : List Call → List Message → List Message
log_of [] log = log
log_of (c ∷ cs) log = log_of cs (lines_of c ++ log)

-- A program beside the one without its refused calls.
pub record Skips (cs : List Call) (m : Machine) : Type 0 where
  pub results : (exec_all cs m).0 ≡ spread cs (exec_all (accepted cs) m).0
  pub machine :
      (exec_all cs m).1 ≡ record ((exec_all (accepted cs) m).1) { stderr = log_of cs m.stderr }
  pub silent : (exec_all (accepted cs) m).1.stderr ≡ m.stderr
