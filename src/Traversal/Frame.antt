-- ===== src/Traversal/Frame.antt =====
-- Code between a push and its pop that spares the stack above it gives the value back.
use simplex.Base.{
  ℕ, ◌+◌, ◌-◌, ◌^◌, ◌≤◌, ◌<◌, ◌≡◌, refl, ap, ◌∙◌, arith, Bool, List, add64, sub64, IsWord,
}
use simplex.Machine.{Machine, Message}
use simplex.Machine.Bytes.{load64}
use simplex.Machine.Stores.{load64-agree, load64-store64_self, store64-off}
use simplex.Traversal.{push, pop}

-- What no push, pop or load changes.
abbrev pub Rest : Type 0
Rest = ℕ × ℕ × ℕ × Bool × List Message

abbrev pub rest_of : Machine → Rest
rest_of m = (m.bndcfgu, m.bndstatus, m.xcr0, m.osxsave, m.stderr)

-- Memory is the same but for the `depth` bytes below the stack pointer, which is the same.
pub record Spares (depth : ℕ) (m m' : Machine) : Type 0 where
  pub rsp : m'.rsp ≡ m.rsp
  pub mem : (x : ℕ) → sub64 x m.rsp < 2 ^ 64 - depth → m'.mem x ≡ m.mem x
  pub rest : rest_of m' ≡ rest_of m

pub Spares-trans :
    {depth : ℕ} {m m' m'' : Machine} → Spares depth m m' → Spares depth m' m'' → Spares depth m m''
Spares-trans s s' = record {
  rsp = s'.rsp ∙ s.rsp;
  mem = λ x h. s'.mem x (rw s.rsp h) ∙ s.mem x h;
  rest = s'.rest ∙ s.rest;
}

pub Spares-refl : (depth : ℕ) (m : Machine) → Spares depth m m
Spares-refl depth m = record { rsp = refl; mem = λ x h. refl; rest = refl }

pub record Popped (v depth : ℕ) (m : Machine) (r : ℕ × Machine) : Type 0 where
  pub value : r.0 ≡ v
  pub spares : Spares (depth + 8) m r.1

push-Popped :
    (v depth : ℕ) (m m' : Machine)
    → IsWord v
    → IsWord m.rsp
    → depth + 8 ≤ 2 ^ 64
    → Spares depth (push v m) m'
    → Popped v depth m (pop m')
unfolding push pop
push-Popped v depth m m' hv hr hd s = record {
  value =
      ap (load64 m'.mem) s.rsp
      ∙ load64-agree m'.mem (push v m).mem (sub64 m.rsp 8)
          (λ i h. s.mem (add64 (sub64 m.rsp 8) i) (omega arith))
      ∙ load64-store64_self m.mem (sub64 m.rsp 8) v (omega arith) hv;
  spares = record {
    rsp = ap (λ (r : ℕ). add64 r 8) s.rsp ∙ omega arith;
    mem = λ x h. s.mem x (omega arith) ∙ store64-off m.mem (sub64 m.rsp 8) v x (omega arith);
    rest = s.rest;
  };
}

-- Six pushes, and the pops that answer them.
abbrev pub push_six : ℕ → ℕ → ℕ → ℕ → ℕ → ℕ → Machine → Machine
push_six v1 v2 v3 v4 v5 v6 m = push v6 (push v5 (push v4 (push v3 (push v2 (push v1 m)))))

abbrev pub after_pop : Machine → Machine
after_pop m = (pop m).1

pub record SixPopped (v1 v2 v3 v4 v5 v6 depth : ℕ) (m m' : Machine) : Type 0 where
  pub sixth : (pop m').0 ≡ v6
  pub fifth : (pop (after_pop m')).0 ≡ v5
  pub fourth : (pop (after_pop (after_pop m'))).0 ≡ v4
  pub third : (pop (after_pop (after_pop (after_pop m')))).0 ≡ v3
  pub second : (pop (after_pop (after_pop (after_pop (after_pop m'))))).0 ≡ v2
  pub first : (pop (after_pop (after_pop (after_pop (after_pop (after_pop m')))))).0 ≡ v1
  pub spares :
      Spares
        (depth + 48)
        m
        (after_pop (after_pop (after_pop (after_pop (after_pop (after_pop m'))))))

push-rsp : (v : ℕ) (m : Machine) → IsWord (push v m).rsp
unfolding push
push-rsp v m = omega arith

pub push_six-SixPopped :
    (v1 v2 v3 v4 v5 v6 depth : ℕ) (m m' : Machine)
    → IsWord v1
    → IsWord v2
    → IsWord v3
    → IsWord v4
    → IsWord v5
    → IsWord v6
    → IsWord m.rsp
    → depth + 48 ≤ 2 ^ 64
    → Spares depth (push_six v1 v2 v3 v4 v5 v6 m) m'
    → SixPopped v1 v2 v3 v4 v5 v6 depth m m'
push_six-SixPopped v1 v2 v3 v4 v5 v6 depth m m' h1 h2 h3 h4 h5 h6 hr hd s =
    let m1 = push v1 m in
    let m2 = push v2 m1 in
    let m3 = push v3 m2 in
    let m4 = push v4 m3 in
    let m5 = push v5 m4 in
    let p6 = push-Popped v6 depth m5 m' h6 (push-rsp v5 m4) (omega arith) s in
    let p5 = push-Popped v5 (depth + 8) m4 _ h5 (push-rsp v4 m3) (omega arith) p6.spares in
    let p4 = push-Popped v4 (depth + 8 + 8) m3 _ h4 (push-rsp v3 m2) (omega arith) p5.spares in
    let p3 = push-Popped v3 (depth + 8 + 8 + 8) m2 _ h3 (push-rsp v2 m1) (omega arith) p4.spares in
    let p2 =
      push-Popped v2 (depth + 8 + 8 + 8 + 8) m1 _ h2 (push-rsp v1 m) (omega arith) p3.spares in
    let p1 = push-Popped v1 (depth + 8 + 8 + 8 + 8 + 8) m _ h1 hr (omega arith) p2.spares in
    record {
      sixth = p6.value;
      fifth = p5.value;
      fourth = p4.value;
      third = p3.value;
      second = p2.value;
      first = p1.value;
      spares = deeper (omega arith) p1.spares;
    }
  where
    deeper : {d d' : ℕ} {k k' : Machine} → d ≡ d' → Spares d k k' → Spares d' k k'
    deeper e t = rw (← e) t
