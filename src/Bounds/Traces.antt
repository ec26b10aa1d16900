-- ===== src/Bounds/Traces.antt =====
-- What a client that reads a register leaves of it behind: nothing, unless it uses `qgetbndl`.
use simplex.Base.{◌≡◌, ◌≢◌, inl, inr, List, [], ◌∷◌}
use simplex.Machine.{BndName, Machine}
use simplex.Bounds.Bndreg.{encode}
use simplex.Bounds.Blocks.{IsMachine}
use simplex.Bounds.Reads.{getbndl-encode, getbndu-encode, getbnd-encode}
use simplex.Bounds.Errors.{reg_of}
use simplex.Bounds.Calls.{decode_cases}
use simplex.Bounds.Kept.{exec-Keeps}
use simplex.Bounds.Differ.{Differ, scrubbed-Differ}
use simplex.Bounds.Secrecy.{discreet-Hides, invalid-Hides}
use simplex.Bounds.Api.{
  Call, get_lower, get_upper, get_both, quick_get, set_lower, set_upper, set_both, quick_set, exec,
  exec_all, AllTyped,
}

-- Not the quick function that leaves register `n` on the stack.
abbrev pub Sanitizes : BndName → Call → Type 0
Sanitizes n (quick_get reg) = reg ≢ encode n
Sanitizes n _ = Unit

abbrev pub AllSanitize : BndName → List Call → Type 0
AllSanitize n [] = Unit
AllSanitize n (c ∷ cs) = Sanitizes n c × AllSanitize n cs

module _ {n : BndName} {m m' : Machine} (ok : IsMachine m) (ok' : IsMachine m')
    (d : Differ n m m') where
  on_register :
      (c : Call) (k : BndName)
      → reg_of c ≡ encode k
      → Sanitizes n c
      → Differ n (exec c m).1 (exec c m').1
  unfolding exec
  on_register (get_lower reg) k e h =
      rw (e, getbndl-encode ok k, getbndl-encode ok' k) (scrubbed-Differ d)
  on_register (get_upper reg) k e h =
      rw (e, getbndu-encode ok k, getbndu-encode ok' k) (scrubbed-Differ d)
  on_register (get_both reg) k e h =
      rw (e, getbnd-encode ok k, getbnd-encode ok' k) (scrubbed-Differ d)
  on_register (quick_get reg) k e h = (discreet-Hides ok ok' d (quick_get reg) k e h).machines
  on_register (set_lower reg val) k e h =
      (discreet-Hides ok ok' d (set_lower reg val) k e tt).machines
  on_register (set_upper reg val) k e h =
      (discreet-Hides ok ok' d (set_upper reg val) k e tt).machines
  on_register (set_both reg val) k e h =
      (discreet-Hides ok ok' d (set_both reg val) k e tt).machines
  on_register (quick_set reg val) k e h =
      (discreet-Hides ok ok' d (quick_set reg val) k e tt).machines

  exec-Differ : (c : Call) → Sanitizes n c → Differ n (exec c m).1 (exec c m').1
  exec-Differ c h = elim (decode_cases (reg_of c)) [
    | inl (k, e) ↦ on_register c k e h
    | inr other ↦ (invalid-Hides ok ok' d c other).machines
  ]

-- On two machines of 64-bit registers and bytes that differ at most in one register, with MPX on or off, any
-- well-typed calls of which none is `qgetbndl` of that register leave machines that differ at most in it: they
-- leave no trace of it in memory, messages or other registers, even where they read it.
pub exec_all-AllSanitize :
    {n : BndName} (cs : List Call) {m m' : Machine}
    → IsMachine m
    → IsMachine m'
    → Differ n m m'
    → AllTyped cs
    → AllSanitize n cs
    → Differ n (exec_all cs m).1 (exec_all cs m').1
unfolding exec_all
exec_all-AllSanitize [] ok ok' d t h = d
exec_all-AllSanitize (c ∷ cs) ok ok' d t h =
    exec_all-AllSanitize cs ((exec-Keeps c ok t.0).machine ok) ((exec-Keeps c ok' t.0).machine ok')
      (exec-Differ ok ok' d c h.0) t.1 h.1
