-- ===== src/KernelModule/Directory.antt =====
-- The same numbers in simplex/eval/kmod/simplexkm.h.
use simplex.Base.{ℕ, ◌*◌, ◌^◌}
use simplex.Runtime.Directory.{Arch, i386, x86_64, pointer_size}

unfoldable pub num_l1_bits : Arch → ℕ
num_l1_bits i386 = 20
num_l1_bits x86_64 = 28

unfoldable pub num_l2_bits : Arch → ℕ
num_l2_bits i386 = 10
num_l2_bits x86_64 = 17

unfoldable pub num_ign_bits : Arch → ℕ
num_ign_bits i386 = 2
num_ign_bits x86_64 = 3

unfoldable pub mpx_l1_addr_mask : Arch → ℕ
mpx_l1_addr_mask i386 = 0xfffff000
mpx_l1_addr_mask x86_64 = 0xfffffffffffff000

unfoldable pub mpx_l2_addr_mask : Arch → ℕ
mpx_l2_addr_mask i386 = 0xfffffffc
mpx_l2_addr_mask x86_64 = 0xfffffffffffffff8

unfoldable pub mpx_l2_valid_mask : Arch → ℕ
mpx_l2_valid_mask i386 = 0x00000001
mpx_l2_valid_mask x86_64 = 0x0000000000000001

-- `(1UL << NUM_L1_BITS) * sizeof(void *)`.
unfoldable pub mpx_l1_size : Arch → ℕ
unfolding num_l1_bits
mpx_l1_size arch = 2 ^ num_l1_bits arch * pointer_size arch
