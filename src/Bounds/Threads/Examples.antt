-- ===== src/Bounds/Threads/Examples.antt =====
-- Two threads that take turns, one instruction each: both hide a word in BND1 and get it back.
use simplex.Base.{◌≡◌, refl, arith, List, [], ◌∷◌}
use simplex.Machine.{Machine, mpx_on, bndmk, bndmov, mov_load}
use simplex.Machine.Bytes.{store64, load64, byte_of}
use simplex.Machine.Samples.{active}
use simplex.Bounds.Api.{Call, quick_get, quick_set, exec_all}
use simplex.Bounds.Interrupts.Code.{done, then_code, code, code_all, qgetbndl_code}
use simplex.Bounds.Interrupts.Safety.{Same}
use simplex.Bounds.Threads.{Turn, first, second, advance, schedule}
use simplex.Bounds.Threads.Turns.{Finished}
use simplex.Bounds.Threads.Isolation.{ran, schedule-Same}

abbrev one : List Call
one = quick_set 1 0xDEAD ∷ quick_get 1 ∷ []

abbrev two : List Call
two = quick_set 1 0xBEEF ∷ quick_get 1 ∷ []

-- The second thread has a stack of its own.
abbrev elsewhere : Machine
elsewhere = record active { rsp = 0x6FFF_0000 }

abbrev turns : List Turn
turns = first ∷ second ∷ first ∷ second ∷ first ∷ second ∷ []

one_done : (ran one two active elsewhere turns).0.left ≡ done (0 ∷ 0xDEAD ∷ [])
unfolding schedule advance code_all code then_code qgetbndl_code bndmk bndmov mov_load mpx_on
    store64 load64 byte_of
one_done = refl

two_done : (ran one two active elsewhere turns).1.left ≡ done (0 ∷ 0xBEEF ∷ [])
unfolding schedule advance code_all code then_code qgetbndl_code bndmk bndmov mov_load mpx_on
    store64 load64 byte_of
two_done = refl

schedule-Same_example :
    Same (exec_all one active) (0 ∷ 0xDEAD ∷ []) (ran one two active elsewhere turns).0.machine
    × Same (exec_all two elsewhere) (0 ∷ 0xBEEF ∷ []) (ran one two active elsewhere turns).1.machine
    × ((fair : List Turn) × Finished (ran one two active elsewhere fair))
schedule-Same_example =
    schedule-Same one two active elsewhere turns (λ x h. omega arith) (λ x h. omega arith) one_done
      two_done
