-- ===== src/Runtime/Directory.antt =====
-- The numbers of simplex/include/mpxrt.h about the bounds directory, for both of its architectures.
use simplex.Base.{ℕ, ◌*◌, ◌^◌}

pub data Arch : Type 0 where
  i386 x86_64 : Arch

-- `sizeof(void *)`.
abbrev pub pointer_size : Arch → ℕ
pointer_size i386 = 4
pointer_size x86_64 = 8

unfoldable pub num_l1_bits : Arch → ℕ
num_l1_bits i386 = 20
num_l1_bits x86_64 = 28

unfoldable pub num_l2_bits : Arch → ℕ
num_l2_bits i386 = 10
num_l2_bits x86_64 = 17

unfoldable pub num_ign_bits : Arch → ℕ
num_ign_bits i386 = 2
num_ign_bits x86_64 = 3

unfoldable pub mpx_l1_addr_mask : Arch → ℕ
mpx_l1_addr_mask i386 = 0xfffff000
mpx_l1_addr_mask x86_64 = 0xfffffffffffff000

unfoldable pub mpx_l2_addr_mask : Arch → ℕ
mpx_l2_addr_mask i386 = 0xfffffffc
mpx_l2_addr_mask x86_64 = 0xfffffffffffffff8

unfoldable pub mpx_l2_valid_mask : Arch → ℕ
mpx_l2_valid_mask i386 = 0x00000001
mpx_l2_valid_mask x86_64 = 0x0000000000000001

-- `(1UL << NUM_L1_BITS) * sizeof(void *)`.
unfoldable pub mpx_l1_size : Arch → ℕ
unfolding num_l1_bits
mpx_l1_size arch = 2 ^ num_l1_bits arch * pointer_size arch
