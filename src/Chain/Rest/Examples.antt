-- ===== src/Chain/Rest/Examples.antt =====
-- A client with three bases, one call after a whole turn.
use indexer_rs.Base.{◌≡◌, ◌%◌, [], ◌∷◌, ◌++◌, length, take, arith}
use indexer_rs.Chain.Rest.{RestClient}
use indexer_rs.Chain.Rest.RoundRobin.{drop, next_bases, next_bases_turn}

abbrev three : RestClient
three = record { bases = "http://a" ∷ "http://b" ∷ "http://c" ∷ []; cursor = 4 }

next_bases_turn_example :
    next_bases (length three.bases) three
    ≡ drop (three.cursor % length three.bases) three.bases
      ++ take (three.cursor % length three.bases) three.bases
next_bases_turn_example = next_bases_turn three (omega arith) (omega arith)
