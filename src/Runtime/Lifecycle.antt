-- ===== src/Runtime/Lifecycle.antt =====
-- A process over time: calls of `process_specific_init`, `process_specific_finish` and the functions over
-- bounds registers, in any order.
use simplex.Base.{◌==◌, ◌%◌, ℕ, ◌≡◌, refl, ap, ◌∙◌, arith, Bool, true, false, List, [], ◌∷◌}
use simplex.Cpuid.{Cpu}
use simplex.Machine.{Machine, mpx_on}
use simplex.Bounds.Blocks.{IsMachine}
use simplex.Bounds.Frame.{Keeps, Keeps-mpx_on}
use simplex.Bounds.Api.{Call, exec, IsTyped}
use simplex.Bounds.Kept.{exec-Keeps}
use simplex.Runtime.Support.{check_mpx_support}
use simplex.Runtime.Xsave.{Outcome, ok, ◌>>=◌, bit}
use simplex.Runtime.Process.{process_specific_init, process_specific_finish}
use simplex.Runtime.Outcomes.{
  configured, configuring_ok, process_specific_init_lem, process_specific_finish_lem,
}

-- What the operating system must have set up, and what a machine is.
pub record IsHosted (m : Machine) : Type 0 where
  pub machine : IsMachine m
  pub os : m.osxsave ≡ true
  pub has_bndregs : bit 3 m.xcr0 ≡ true
  pub has_bndcsr : bit 4 m.xcr0 ≡ true

pub data Event : Type 0 where
  starts finishes : Event
  calls : Call → Event

-- What the process sees of an event: a Boolean as 0 or 1, or what the call returns.
abbrev number : Bool → ℕ
number true = 1
number false = 0

unfoldable pub react : Cpu → Event → Machine → Outcome ℕ
react cpu starts = do b ← process_specific_init cpu; ok (number b)
react cpu finishes = do b ← process_specific_finish cpu; ok (number b)
react cpu (calls c) = λ m. ok (exec c m).0 (exec c m).1

unfoldable pub react_all : Cpu → List Event → Machine → Outcome (List ℕ)
react_all cpu [] = ok []
react_all cpu (e ∷ es) = do v ← react cpu e; vs ← react_all cpu es; ok (v ∷ vs)

-- Whether MPX is on after an event, and after a sequence of them.
abbrev pub on_after : Event → Bool → Bool
on_after starts on = true
on_after finishes on = false
on_after (calls c) on = on

abbrev pub on_after_all : List Event → Bool → Bool
on_after_all [] on = on
on_after_all (e ∷ es) on = on_after_all es (on_after e on)

abbrev pub IsTypedEvent : Event → Type 0
IsTypedEvent (calls c) = IsTyped c
IsTypedEvent _ = Unit

abbrev pub AllTypedEvents : List Event → Type 0
AllTypedEvents [] = Unit
AllTypedEvents (e ∷ es) = IsTypedEvent e × AllTypedEvents es

-- A run that ends without a fault, in a machine of the given mode.
pub record Ends {A : Type 0} (on : Bool) (o : Outcome A) : Type 0 where
  pub result : A
  pub final : Machine
  pub ends : o ≡ ok result final
  pub hosted : IsHosted final
  pub mode : mpx_on final ≡ on

pub configured-IsHosted : (cfg : ℕ) {m : Machine} → IsHosted m → IsHosted (configured cfg m)
configured-IsHosted cfg {m} h = record {
  machine = record {
    lb_fits = λ n. ground (arith, h.machine.lb_fits n);
    ub_fits = λ n. ground (arith, h.machine.ub_fits n);
    bytes = h.machine.bytes;
  };
  os = h.os;
  has_bndregs = h.has_bndregs;
  has_bndcsr = h.has_bndcsr;
}

module _ (cpu : Cpu) (supported : check_mpx_support cpu ≡ true) {m : Machine} (h : IsHosted m) where
  pub init_ok : process_specific_init cpu m ≡ ok true (configured 3 m)
  init_ok =
      process_specific_init_lem cpu m ∙ rw supported (configuring_ok true 3 m h.os h.has_bndcsr)

  pub finish_ok : process_specific_finish cpu m ≡ ok true (configured 0 m)
  finish_ok =
      process_specific_finish_lem cpu m ∙ rw supported (configuring_ok true 0 m h.os h.has_bndcsr)

pub mpx_on-configured : (cfg : ℕ) (m : Machine) → mpx_on (configured cfg m) ≡ (cfg % 2 == 1)
unfolding mpx_on
mpx_on-configured cfg m = refl

pub Keeps-IsHosted : {m m' : Machine} → Keeps m m' → IsHosted m → IsHosted m'
Keeps-IsHosted k h = record {
  machine = k.machine h.machine;
  os = k.osxsave ∙ h.os;
  has_bndregs = rw k.xcr0 h.has_bndregs;
  has_bndcsr = rw k.xcr0 h.has_bndcsr;
}

module _ (cpu : Cpu) (supported : check_mpx_support cpu ≡ true) where
  react-Ends :
      (e : Event) {m : Machine}
      → IsHosted m
      → IsTypedEvent e
      → Ends (on_after e (mpx_on m)) (react cpu e m)
  unfolding react
  react-Ends starts {m} h t = record {
    result = 1;
    final = configured 3 m;
    ends = rw (init_ok cpu supported h);
    hosted = configured-IsHosted 3 h;
    mode = mpx_on-configured 3 m;
  }
  react-Ends finishes {m} h t = record {
    result = 1;
    final = configured 0 m;
    ends = rw (finish_ok cpu supported h);
    hosted = configured-IsHosted 0 h;
    mode = mpx_on-configured 0 m;
  }
  react-Ends (calls c) {m} h t =
      let kept = exec-Keeps c h.machine t in
      record {
        result = (exec c m).0;
        final = (exec c m).1;
        ends = refl;
        hosted = Keeps-IsHosted kept h;
        mode = Keeps-mpx_on kept;
      }

  -- On a processor that passes the check and a machine of 64-bit registers and bytes whose
  -- operating system has enabled XSAVE with the two MPX components, no sequence of initialisations,
  -- finishes and well-typed calls faults; the machine at its end is one of the same kind, and MPX
  -- is on there exactly if the last initialisation came after the last finish, or, where there was
  -- neither, if it was on before.
  pub react_all-Ends :
      (es : List Event) {m : Machine}
      → IsHosted m
      → AllTypedEvents es
      → Ends (on_after_all es (mpx_on m)) (react_all cpu es m)
  unfolding react_all
  react_all-Ends [] {m} h t = record {
    result = [];
    final = m;
    ends = refl;
    hosted = h;
    mode = refl;
  }
  react_all-Ends (e ∷ es) {m} h t =
      let first = react-Ends e h t.0 in
      let rest = react_all-Ends es first.hosted t.1 in
      record {
        result = first.result ∷ rest.result;
        final = rest.final;
        ends = rw (first.ends, rest.ends);
        hosted = rest.hosted;
        mode = rest.mode ∙ ap (on_after_all es) first.mode;
      }
