-- ===== src/Bounds/Secrecy.antt =====
-- What a client can learn of a register that it does not read: nothing.
use simplex.Base.{
  ℕ, ◌≤◌, ◌≡◌, ◌≢◌, refl, ap, ap₂, ◌∙◌, inl, inr, Bool-cases, List, [], ◌∷◌, ◌++◌, sub64, not64,
}
use simplex.Machine.{BndName, Machine, Message, same}
use simplex.Bounds.Bndreg.{encode}
use simplex.Bounds.Accessors.{join128}
use simplex.Bounds.Blocks.{IsMachine}
use simplex.Bounds.Reads.{getbndl-encode, getbndu-encode, getbnd-encode, qgetbndl-encode}
use simplex.Bounds.Writes.{setbndl_case, setbndu_case, setbnd_case, qsetbndl_case}
use simplex.Bounds.Errors.{reg_of, complaints, messages, exec_of_invalid}
use simplex.Bounds.Calls.{decode_cases}
use simplex.Bounds.Kept.{exec-Keeps}
use simplex.Bounds.Differ.{
  Differ, apart_names, same_lower, same_upper, scrubbed-Differ, spilled-Differ, bndmk-Differ,
}
use simplex.Bounds.Api.{
  Call, get_lower, get_upper, get_both, quick_get, set_lower, set_upper, set_both, quick_set, exec,
  exec_all, AllTyped,
}

-- A call that does not ask for register `n`; it may set it, and may set its halves one by one.
abbrev pub IsDiscreet : BndName → Call → Type 0
IsDiscreet n (get_lower reg) = reg ≢ encode n
IsDiscreet n (get_upper reg) = reg ≢ encode n
IsDiscreet n (get_both reg) = reg ≢ encode n
IsDiscreet n (quick_get reg) = reg ≢ encode n
IsDiscreet n _ = Unit

abbrev pub AllDiscreet : BndName → List Call → Type 0
AllDiscreet n [] = Unit
AllDiscreet n (c ∷ cs) = IsDiscreet n c × AllDiscreet n cs

-- Results that do not tell the machines apart.
pub record Hides (n : BndName) (r r' : ℕ × Machine) : Type 0 where
  pub value : r'.0 ≡ r.0
  pub machines : Differ n r.1 r'.1

Hides-eq :
    {n : BndName} {r r' : ℕ × Machine} {v v' : ℕ} {a a' : Machine}
    → r ≡ (v, a)
    → r' ≡ (v', a')
    → v' ≡ v
    → Differ n a a'
    → Hides n r r'
Hides-eq e e' same_value d = record { value = rw (e, e') same_value; machines = rw (e, e') d }

stderr-Differ :
    {n : BndName} {m m' : Machine}
    → Differ n m m'
    → (lines : List Message)
    → Differ n (record m { stderr = lines ++ m.stderr }) (record m' { stderr = lines ++ m'.stderr })
stderr-Differ d lines = record {
  others = d.others;
  bndcfgu = d.bndcfgu;
  bndstatus = d.bndstatus;
  xcr0 = d.xcr0;
  osxsave = d.osxsave;
  rsp = d.rsp;
  mem = d.mem;
  stderr = ap (λ (s : List Message). lines ++ s) d.stderr;
}

module _ {n : BndName} {m m' : Machine} (ok : IsMachine m) (ok' : IsMachine m')
    (d : Differ n m m') where
  pub invalid-Hides : (c : Call) → 4 ≤ reg_of c → Hides n (exec c m) (exec c m')
  invalid-Hides c h =
      Hides-eq (exec_of_invalid c m h) (exec_of_invalid c m' h) refl
        (stderr-Differ d (messages (reg_of c) (complaints c)))

  pub discreet-Hides :
      (c : Call) (k : BndName)
      → reg_of c ≡ encode k
      → IsDiscreet n c
      → Hides n (exec c m) (exec c m')
  unfolding exec
  discreet-Hides (get_lower reg) k e h =
      let other = apart_names n k (λ q. h (e ∙ q)) in
      rw e (
        Hides-eq (getbndl-encode ok k) (getbndl-encode ok' k) (same_lower d k other)
          (scrubbed-Differ d))
  discreet-Hides (get_upper reg) k e h =
      let other = apart_names n k (λ q. h (e ∙ q)) in
      rw e (
        Hides-eq (getbndu-encode ok k) (getbndu-encode ok' k) (ap not64 (same_upper d k other))
          (scrubbed-Differ d))
  discreet-Hides (get_both reg) k e h =
      let other = apart_names n k (λ q. h (e ∙ q)) in
      rw e (
        Hides-eq (getbnd-encode ok k) (getbnd-encode ok' k)
          (ap₂ join128 (same_upper d k other) (same_lower d k other)) (scrubbed-Differ d))
  discreet-Hides (quick_get reg) k e h =
      let other = apart_names n k (λ q. h (e ∙ q)) in
      rw e (
        Hides-eq (qgetbndl-encode ok k) (qgetbndl-encode ok' k) (same_lower d k other)
          (spilled-Differ d k other))
  discreet-Hides (set_lower reg val) k e h =
      rw (e, setbndl_case ok k val, setbndl_case ok' k val)
        (record {
          value = refl;
          machines = bndmk-Differ (scrubbed-Differ d) k (elim (Bool-cases (same n k)) [
            | inl self ↦ inl self
            | inr other ↦ inr (refl, ap (λ u. sub64 (not64 u) val) (same_upper d k other))
          ]);
        })
  discreet-Hides (set_upper reg val) k e h =
      rw (e, setbndu_case ok k val, setbndu_case ok' k val)
        (record {
          value = refl;
          machines = bndmk-Differ (scrubbed-Differ d) k (elim (Bool-cases (same n k)) [
            | inl self ↦ inl self
            | inr other ↦ inr (same_lower d k other, ap (λ l. sub64 val l) (same_lower d k other))
          ]);
        })
  discreet-Hides (set_both reg val) k e h =
      rw (e, setbnd_case k val m, setbnd_case k val m')
        (record { value = refl; machines = bndmk-Differ d k (inr (refl, refl)) })
  discreet-Hides (quick_set reg val) k e h =
      rw (e, qsetbndl_case k val m, qsetbndl_case k val m')
        (record { value = refl; machines = bndmk-Differ d k (inr (refl, refl)) })

  exec-Hides : (c : Call) → IsDiscreet n c → Hides n (exec c m) (exec c m')
  exec-Hides c h = elim (decode_cases (reg_of c)) [
    | inl (k, e) ↦ discreet-Hides c k e h
    | inr other ↦ invalid-Hides c other
  ]

-- On two machines of 64-bit registers and bytes that differ at most in one register, with MPX on or off, any
-- well-typed calls of which none asks for that register return the same, and the machines differ at most in
-- that register afterwards: neither results, nor memory, nor messages, nor other registers depend on it.
pub exec_all-Differ :
    {n : BndName} (cs : List Call) {m m' : Machine}
    → IsMachine m
    → IsMachine m'
    → Differ n m m'
    → AllTyped cs
    → AllDiscreet n cs
    → ((exec_all cs m').0 ≡ (exec_all cs m).0) × Differ n (exec_all cs m).1 (exec_all cs m').1
unfolding exec_all
exec_all-Differ [] ok ok' d t h = (refl, d)
exec_all-Differ (c ∷ cs) {m} {m'} ok ok' d t h =
    let first = exec-Hides ok ok' d c h.0 in
    let rest =
      exec_all-Differ cs ((exec-Keeps c ok t.0).machine ok) ((exec-Keeps c ok' t.0).machine ok')
        first.machines t.1 h.1 in
    (ap₂ ◌∷◌ first.value rest.0, rest.1)
