-- ===== src/Benchmark/LoadStore/Words.antt =====
-- The registers that the ten benchmarks of `LoadStoreFixture` move words between.
use simplex.Base.{ℕ, IsWord}
use simplex.Benchmark.LoadStore.{Processor}

-- The words that a benchmark moves.
pub record AreWords (r gs mm low high v : ℕ) : Type 0 where
  pub r15_fits : IsWord r
  pub gs_fits : IsWord gs
  pub mm0_fits : IsWord mm
  pub low_fits : IsWord low
  pub high_fits : IsWord high
  pub val_fits : IsWord v

abbrev pub HoldsWords : Processor → Type 0
HoldsWords p = AreWords p.r15 p.gs p.mm0 p.xmm1_low p.xmm1_high p.val

-- The same words, two of them changed.
pub changed :
    {r gs mm low high v : ℕ}
    → AreWords r gs mm low high v
    → {r' mm' : ℕ} → IsWord r'
    → IsWord mm'
    → AreWords r' gs mm' low high v
changed w hr hm = record {
  r15_fits = hr;
  gs_fits = w.gs_fits;
  mm0_fits = hm;
  low_fits = w.low_fits;
  high_fits = w.high_fits;
  val_fits = w.val_fits;
}

pub spread :
    {r gs mm low high v : ℕ}
    → AreWords r gs mm low high v
    → {low' high' : ℕ} → IsWord low'
    → IsWord high'
    → AreWords r gs mm low' high' v
spread w hl hh = record {
  r15_fits = w.r15_fits;
  gs_fits = w.gs_fits;
  mm0_fits = w.mm0_fits;
  low_fits = hl;
  high_fits = hh;
  val_fits = w.val_fits;
}

pub holding :
    {r gs mm low high v : ℕ}
    → AreWords r gs mm low high v
    → {gs' v' : ℕ} → IsWord gs'
    → IsWord v'
    → AreWords r gs' mm low high v'
holding w hg hv = record {
  r15_fits = w.r15_fits;
  gs_fits = hg;
  mm0_fits = w.mm0_fits;
  low_fits = w.low_fits;
  high_fits = w.high_fits;
  val_fits = hv;
}
