-- ===== src/Machine/Samples.antt =====
-- Machines for tests: an operating system has enabled XSAVE with the two MPX components.
use simplex.Base.{◌%◌, ◌^◌, true, [], not64}
use simplex.Machine.{Machine}

abbrev pub idle : Machine
idle = record {
  bnds = λ _. record { lb = 0x1000; ub = not64 0x1FFF };
  bndcfgu = 0;
  bndstatus = 0;
  xcr0 = 0x1F;
  osxsave = true;
  rsp = 0x7FFF_0000;
  mem = λ x. x % 2 ^ 8;
  stderr = [];
}

abbrev pub active : Machine
active = record idle { bndcfgu = 3 }
