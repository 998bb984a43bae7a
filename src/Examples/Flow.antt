-- ===== src/Examples/Flow.antt =====
-- The tables of blocks and edges (src/ida_bridge/sql/tables/analysis.py) for a function with a branch.
use ida_bridge.Common.{◌≡◌, refl, some, List, [], ◌∷◌, map, All}
use ida_bridge.Common.Int.{pos}
use ida_bridge.Sql.U64.{int, decode}
use ida_bridge.Tables.Cursor.{ok}
use ida_bridge.Tables.Flow.{Block, FlowApi, block_row, blocks_filter, cfg_edges_filter}
use ida_bridge.Tables.Flow.Edges.{IsChart, Joins, expected_edges, cfg_edges_exact}

abbrev branching : List Block
branching =
    record { start_ea = 16; end_ea = 24; succs = 24 ∷ 32 ∷ [] }
    ∷ record { start_ea = 24; end_ea = 32; succs = 32 ∷ [] }
    ∷ record { start_ea = 32; end_ea = 40; succs = [] }
    ∷ []

abbrev api : FlowApi
api = record {
  get_func = λ ea. some (record { start_ea = 16; end_ea = 40 });
  flow_chart = λ f. branching;
}

api-IsChart : IsChart api
api-IsChart f = ((refl, (refl, tt)), ((refl, tt), (tt, tt)))

cfg_edges_exact_example :
    (cfg_edges_filter api 4 (int (pos 16) ∷ []) ≡ ok (expected_edges 16 branching))
    × (blocks_filter api 4 (int (pos 16) ∷ []) ≡ ok (map (block_row api 16) branching))
    × All (Joins 16 (map (block_row api 16) branching)) (expected_edges 16 branching)
unfolding decode
cfg_edges_exact_example = cfg_edges_exact api api-IsChart (pos 16)
