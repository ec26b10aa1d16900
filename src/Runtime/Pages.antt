-- ===== src/Runtime/Pages.antt =====
-- What the masks of the bounds directory keep of a word.
use simplex.Base.{ℕ, ◌+◌, ◌*◌, ◌%◌, ◌^◌, ◌<◌, ◌≡◌, refl, arith, bit_and, bit_and-mask, bit_and-high}
use simplex.Runtime.Directory.{
  Arch, i386, x86_64, pointer_size, num_l1_bits, num_l2_bits, num_ign_bits, mpx_l1_addr_mask,
  mpx_l2_addr_mask, mpx_l2_valid_mask, mpx_l1_size,
}

-- The width of a word, and of an address that the directory maps.
abbrev pub word_bits : Arch → ℕ
word_bits arch = 8 * pointer_size arch

abbrev pub address_bits : Arch → ℕ
address_bits i386 = 32
address_bits x86_64 = 48

-- The sizes that the comments of the header give: 4 MB and 2 GB.
abbrev pub documented_size : Arch → ℕ
documented_size i386 = 4 * 2 ^ 20
documented_size x86_64 = 2 * 2 ^ 30

-- How the numbers fit together.
pub record Fits (arch : Arch) (word : ℕ) : Type 0 where
  pub address : num_l1_bits arch + num_l2_bits arch + num_ign_bits arch ≡ address_bits arch
  pub directory_size : mpx_l1_size arch ≡ documented_size arch
  pub base : bit_and word (mpx_l1_addr_mask arch) + word % 2 ^ 12 ≡ word
  pub table : bit_and word (mpx_l2_addr_mask arch) + word % 2 ^ num_ign_bits arch ≡ word
  valid : bit_and word (mpx_l2_valid_mask arch) ≡ word % 2

-- On both architectures the bits of an address are those of the two indices and the ignored ones, and the
-- directory has the size that the comments of mpxrt.h give; of a word of the architecture the first mask
-- clears the offset in its page, the second one the ignored bits, and the third one keeps the lowest bit.
pub directory-Fits : (arch : Arch) (word : ℕ) → word < 2 ^ word_bits arch → Fits arch word
unfolding num_l1_bits num_l2_bits num_ign_bits mpx_l1_addr_mask mpx_l2_addr_mask mpx_l2_valid_mask
    mpx_l1_size
directory-Fits i386 w h = record {
  address = refl;
  directory_size = refl;
  base = omega (arith, bit_and-high 12 20 w);
  table = omega (arith, bit_and-high 2 30 w);
  valid = bit_and-mask 1 w;
}
directory-Fits x86_64 w h = record {
  address = refl;
  directory_size = refl;
  base = omega (arith, bit_and-high 12 52 w);
  table = omega (arith, bit_and-high 3 61 w);
  valid = bit_and-mask 1 w;
}
