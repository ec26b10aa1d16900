-- ===== src/Benchmark/LoadStore/Lifetime.antt =====
-- The life of the fixture: `SetUp`, its benchmarks in any order, `TearDown`.
use simplex.Base.{ℕ, ◌%◌, ◌==◌, ◌≡◌, refl, ap, true, Option, List, sub64, IsWord}
use simplex.Cpuid.{Cpu}
use simplex.Machine.{mpx_on}
use simplex.Runtime.Support.{check_mpx_support}
use simplex.Runtime.Outcomes.{configured}
use simplex.Runtime.Lifecycle.{IsHosted, configured-IsHosted, mpx_on-configured, init_ok, finish_ok}
use simplex.Benchmark.Alive.{IsCleared, configured-IsCleared}
use simplex.Benchmark.LoadStore.{
  Processor, returns, and_then, Benchmark, bodies, Kernel, first_word, arch_prctl, set_up,
  tear_down, lifetime,
}
use simplex.Benchmark.LoadStore.Words.{HoldsWords, holding}
use simplex.Benchmark.LoadStore.Running.{IsRunning, Leaves, then_returns, bodies-Leaves}

-- What the kernel does with ARCH_SET_GS on the page it mapped.
pub record IsKernel (k : Kernel) : Type 0 where
  pub sets_gs :
      (p : Processor)
      → (g : ℕ) × IsWord g
        × (k.syscall k.sys_arch_prctl k.arch_set_gs k.mapped p
            ≡ record p { gs = g; gs_base = k.mapped })

module _ (k : Kernel) (documented : IsKernel k) (cpu : Cpu)
    (supported : check_mpx_support cpu ≡ true) (urandom : Option ℕ) (p : Processor)
    (h : IsHosted p.machine) where
  set_up-Leaves :
      IsWord (first_word urandom)
      → HoldsWords p
      → Leaves (IsRunning p.machine.rsp k.mapped) (set_up k cpu urandom p)
  unfolding set_up arch_prctl
  set_up-Leaves fits words =
      let p2 = record p {
        machine = configured 3 p.machine;
        val = first_word urandom;
        clave = k.mapped;
      } in
      let set = documented.sets_gs p2 in
      record {
        final = record p2 { gs = set.0; gs_base = k.mapped };
        ends = rw (init_ok cpu supported h) (ap returns set.2);
        holds = record {
          alive = record { hosted = configured-IsHosted 3 h; on = mpx_on-configured 3 p.machine };
          rsp = refl;
          gs_base = refl;
          words = holding words set.1 fits;
        };
      }

  tear_down-Leaves :
      {top base : ℕ} {q : Processor}
      → IsRunning top base q
      → Leaves (λ q'. IsCleared q'.machine × (q'.gs_base ≡ base)) (tear_down k cpu q)
  unfolding tear_down mpx_on
  tear_down-Leaves {q} r = record {
    final = record q {
      machine = record (configured 0 q.machine) { mem = k.munmap q.clave q.machine.mem };
    };
    ends = rw (finish_ok cpu supported r.alive.hosted) refl;
    holds = (
      let c = configured-IsCleared r.alive.hosted in record { off = c.off; bnds = c.bnds },
      r.gs_base,
    );
  }

  -- On a processor that passes the check and a machine of 64-bit registers and bytes whose operating system
  -- has enabled XSAVE with the two MPX components, under a kernel that points GS at the page it mapped, from
  -- words in the other registers and with a word from urandom, and where the stack slot is aligned to 16
  -- bytes: `SetUp`, any sequence of the ten benchmarks, and `TearDown` end without a fault, with MPX off and
  -- no word left in a bounds register, but with GS still pointing at the page that was unmapped.
  pub lifetime-Completes :
      IsWord (first_word urandom)
      → HoldsWords p
      → (sub64 p.machine.rsp 0x80 % 16 == 0) ≡ true
      → (bs : List Benchmark)
      → (final : Processor) × (lifetime k cpu urandom bs p ≡ returns final)
        × IsCleared final.machine
        × (final.gs_base ≡ k.mapped)
  unfolding lifetime
  lifetime-Completes fits words on_16 bs =
      let s = set_up-Leaves fits words in
      let b = bodies-Leaves on_16 bs s.holds in
      let t = tear_down-Leaves b.holds in
      (
        t.final,
        then_returns (λ q. and_then (bodies bs q) (tear_down k cpu)) s.ends
            (then_returns (tear_down k cpu) b.ends t.ends),
        t.holds.0,
        t.holds.1,
      )
