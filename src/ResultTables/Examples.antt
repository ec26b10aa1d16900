-- ===== src/ResultTables/Examples.antt =====
-- A table of two benchmarks, whose durations are natural numbers, and a third that has no runs.
use simplex.Base.{ℕ, ◌≡◌, ◌↔◌, refl, arith, ltb, none, some, String, List, [], ◌∷◌, ◌++◌}
use simplex.ResultTables.{Cell, Benchmark, table}
use simplex.ResultTables.Summaries.{IsOrder, AllComplete, AllSummarise, table-Summarise}
use simplex.ResultTables.Endings.{table-AllComplete}

ltb-IsOrder : IsOrder ltb
ltb-IsOrder = record {
  irreflexive = λ a. ground arith;
  asymmetric = λ a b h. ground (arith, h);
  transitive = λ a b c h k. ground (arith, h, k);
}

abbrev plain : Benchmark String ℕ
plain = record {
  get = λ key. some key;
  parameters = none;
  runs = some (some 30 ∷ some 10 ∷ some 20 ∷ []);
}

abbrev sized : Benchmark String ℕ
sized = record {
  get = λ key. none;
  parameters = some (record { declaration = some "std::size_t sz"; value_of = some "4096" } ∷ []);
  runs = some (some 7 ∷ []);
}

abbrev unfinished : Benchmark String ℕ
unfinished = record plain { runs = none }

complete : AllComplete ltb (plain ∷ sized ∷ [])
complete = (
  record { assigned = none; parameters = refl; first = 30; others = 10 ∷ 20 ∷ []; runs = refl },
  (
    record {
      assigned = some (("std::size_t sz", "4096") ∷ []);
      parameters = refl;
      first = 7;
      others = [];
      runs = refl;
    },
    tt,
  ),
)

table-Summarise_example :
    (rows : List (List (Cell String ℕ))) × (table ltb (plain ∷ sized ∷ unfinished ∷ [])
      ≡ (rows ++ (table ltb (unfinished ∷ [])).0, (table ltb (unfinished ∷ [])).1))
    × AllSummarise ltb (plain ∷ sized ∷ []) rows
table-Summarise_example =
    table-Summarise ltb-IsOrder (plain ∷ sized ∷ []) (unfinished ∷ []) complete

table-AllComplete_example :
    ((table ltb (plain ∷ sized ∷ [])).1 ≡ none) ↔ AllComplete ltb (plain ∷ sized ∷ [])
table-AllComplete_example = table-AllComplete ltb (plain ∷ sized ∷ [])
