-- ===== src/Tables/Flow/Edges.antt =====
-- The edges of src/ida_bridge/sql/tables/analysis.py against its blocks, and their types.
use ida_bridge.Common.{
  ℕ, ◌+◌, ◌≡◌, ◌≤◌, refl, ap, ◌∙◌, String, Bool, true, Option, none, some, List, [], ◌∷◌, ◌++◌, map,
  length, any, number_key, ◌==◌, same_self, All, arith,
}
use ida_bridge.Common.Int.{ℤ}
use ida_bridge.Sql.U64.{int}
use ida_bridge.Tables.Cursor.{ok}
use ida_bridge.Tables.Bounds.{address}
use ida_bridge.Tables.Ida.{Function}
use ida_bridge.Tables.Lists.{All-map, All-map_of}
use ida_bridge.Tables.Flow.{
  Block, BlockRow, CfgEdgeRow, FlowApi, edge_type, flowchart, block_row, blocks_in_func, edges_from,
  edges_of_blocks, cfg_edges_in_func, blocks_filter, cfg_edges_filter,
}

-- A block of the function starts there.
abbrev pub starts_at : ℕ → List BlockRow → Bool
starts_at ea rows = any (λ row. row.start_ea == ea) rows

abbrev edge : ℕ → ℕ → String → ℕ → CfgEdgeRow
edge func_ea src kind dst = record {
  func_ea = func_ea;
  src_block = src;
  dst_block = dst;
  edge_type = kind;
}

-- The edges of a block by its number of successors: one flows on, two are the branches taken and
-- not taken, more are those of a switch.
abbrev pub typed_edges : ℕ → ℕ → List ℕ → List CfgEdgeRow
typed_edges func_ea src [] = []
typed_edges func_ea src (a ∷ []) = edge func_ea src "flow" a ∷ []
typed_edges func_ea src (a ∷ b ∷ []) = edge func_ea src "true" a ∷ edge func_ea src "false" b ∷ []
typed_edges func_ea src (a ∷ b ∷ c ∷ rest) = map (edge func_ea src "switch") (a ∷ b ∷ c ∷ rest)

abbrev pub expected_edges : ℕ → List Block → List CfgEdgeRow
expected_edges func_ea [] = []
expected_edges func_ea (block ∷ blocks) =
    typed_edges func_ea block.start_ea block.succs ++ expected_edges func_ea blocks

module _ (api : FlowApi) where
  edges_from-switch :
      (func_ea src n j : ℕ) (succs : List ℕ)
      → 3 ≤ n
      → edges_from api func_ea src n j succs ≡ map (edge func_ea src "switch") succs
  unfolding edges_from edge_type
  edges_from-switch func_ea src n j [] many = refl
  edges_from-switch func_ea src n j (dst ∷ succs) many =
      let kind : edge_type n j ≡ "switch" = ground arith in
      rw (kind, edges_from-switch func_ea src n (j + 1) succs many) refl

  edges_from-typed :
      (func_ea src : ℕ) (succs : List ℕ)
      → edges_from api func_ea src (length succs) 0 succs ≡ typed_edges func_ea src succs
  unfolding edges_from edge_type
  edges_from-typed func_ea src [] = refl
  edges_from-typed func_ea src (a ∷ []) = refl
  edges_from-typed func_ea src (a ∷ b ∷ []) = refl
  edges_from-typed func_ea src (a ∷ b ∷ c ∷ rest) =
      edges_from-switch func_ea src (length (a ∷ b ∷ c ∷ rest)) 0 (a ∷ b ∷ c ∷ rest) (omega arith)

  edges_of_blocks-typed :
      (func_ea : ℕ) (blocks : List Block)
      → edges_of_blocks api func_ea blocks ≡ expected_edges func_ea blocks
  unfolding edges_of_blocks
  edges_of_blocks-typed func_ea [] = refl
  edges_of_blocks-typed func_ea (block ∷ blocks) =
      rw (edges_from-typed func_ea block.start_ea block.succs, edges_of_blocks-typed func_ea blocks)
        refl

-- The flow chart of a function has the successors of its blocks.
abbrev pub IsChart : FlowApi → Type 0
IsChart api =
    (f : Function)
    → All (λ block. All (λ dst. any (λ b. b.start_ea == dst) (api.flow_chart f) ≡ true) block.succs)
        (api.flow_chart f)

-- Both ends of an edge are blocks of the rows, and it names the function as they do.
abbrev pub Joins : ℕ → List BlockRow → CfgEdgeRow → Type 0
Joins func_ea rows e =
    (e.func_ea ≡ func_ea)
    × (starts_at e.src_block rows ≡ true)
    × (starts_at e.dst_block rows ≡ true)

typed_edges-Joins :
    (func_ea src : ℕ) (rows : List BlockRow) (succs : List ℕ)
    → starts_at src rows ≡ true
    → All (λ dst. starts_at dst rows ≡ true) succs
    → All (Joins func_ea rows) (typed_edges func_ea src succs)
typed_edges-Joins func_ea src rows [] here h = tt
typed_edges-Joins func_ea src rows (a ∷ []) here (h, _) = ((refl, here, h), tt)
typed_edges-Joins func_ea src rows (a ∷ b ∷ []) here (h, (k, _)) =
    ((refl, here, h), ((refl, here, k), tt))
typed_edges-Joins func_ea src rows (a ∷ b ∷ c ∷ rest) here h =
    All-map_of (Joins func_ea rows) (edge func_ea src "switch") (a ∷ b ∷ c ∷ rest) (
      All-map (λ dst. starts_at dst rows ≡ true)
        (λ dst. Joins func_ea rows (edge func_ea src "switch" dst)) (a ∷ b ∷ c ∷ rest)
        (λ dst there. (refl, here, there)) h)

All-append {ℓ κ} :
    {A : Type ℓ} (P : A → Type κ) (xs ys : List A) → All P xs → All P ys → All P (xs ++ ys)
All-append P [] ys h k = k
All-append P (x ∷ xs) ys (e, h) k = (e, All-append P xs ys h k)

All-both {ℓ κ ρ} :
    {A : Type ℓ} (P : A → Type κ) (Q : A → Type ρ) (xs : List A)
    → All P xs
    → All Q xs
    → All (λ x. P x × Q x) xs
All-both P Q [] h k = tt
All-both P Q (x ∷ xs) (e, h) (e', k) = ((e, e'), All-both P Q xs h k)

-- A block whose ends are in the rows.
abbrev Placed : List BlockRow → Block → Type 0
Placed rows block =
    (starts_at block.start_ea rows ≡ true) × All (λ dst. starts_at dst rows ≡ true) block.succs

expected_edges-Joins :
    (func_ea : ℕ) (rows : List BlockRow) (blocks : List Block)
    → All (Placed rows) blocks
    → All (Joins func_ea rows) (expected_edges func_ea blocks)
expected_edges-Joins func_ea rows [] h = tt
expected_edges-Joins func_ea rows (block ∷ blocks) ((here, succs), h) =
    All-append (Joins func_ea rows) (typed_edges func_ea block.start_ea block.succs)
      (expected_edges func_ea blocks)
      (typed_edges-Joins func_ea block.start_ea rows block.succs here succs)
      (expected_edges-Joins func_ea rows blocks h)

every_start :
    (blocks : List Block) → All (λ b. any (λ c. c.start_ea == b.start_ea) blocks ≡ true) blocks
every_start [] = tt
every_start (block ∷ blocks) = (
  ground (arith, same_self block.start_ea),
  All-map (λ (b : Block). any (λ c. c.start_ea == b.start_ea) blocks ≡ true)
      (λ (b : Block). any (λ c. c.start_ea == b.start_ea) (block ∷ blocks) ≡ true) blocks
      (λ b h. ground arith) (every_start blocks),
)

module _ (api : FlowApi) where
  starts_at-rows :
      (func_ea ea : ℕ) (blocks : List Block)
      → starts_at ea (map (block_row api func_ea) blocks) ≡ any (λ b. b.start_ea == ea) blocks
  unfolding block_row
  starts_at-rows func_ea ea [] = refl
  starts_at-rows func_ea ea (block ∷ blocks) = rw (starts_at-rows func_ea ea blocks) refl

  -- The blocks of the function of an address.
  abbrev pub chart_of : Option Function → List Block
  chart_of none = []
  chart_of (some f) = api.flow_chart f

  cfg_edges_in_func-expected :
      (ea : ℕ) (o : Option Function)
      → api.get_func ea ≡ o
      → cfg_edges_in_func api ea ≡ expected_edges ea (chart_of o)
  unfolding cfg_edges_in_func flowchart
  cfg_edges_in_func-expected ea none e = rw (cfg_edges_in_func, flowchart, e) refl
  cfg_edges_in_func-expected ea (some f) e =
      rw (cfg_edges_in_func, flowchart, e) (edges_of_blocks-typed api ea (api.flow_chart f))

  blocks_in_func-expected :
      (ea : ℕ) (o : Option Function)
      → api.get_func ea ≡ o
      → blocks_in_func api ea ≡ map (block_row api ea) (chart_of o)
  unfolding blocks_in_func flowchart
  blocks_in_func-expected ea none e = rw (blocks_in_func, flowchart, e) refl
  blocks_in_func-expected ea (some f) e = rw (blocks_in_func, flowchart, e) refl

  chart-Placed :
      (ea : ℕ) (o : Option Function)
      → IsChart api
      → All (Placed (map (block_row api ea) (chart_of o))) (chart_of o)
  chart-Placed ea none chart = tt
  chart-Placed ea (some f) chart =
      let blocks = api.flow_chart f in
      let rows = map (block_row api ea) blocks in
      let here : (dst : ℕ)
          → any (λ b. b.start_ea == dst) blocks ≡ true
          → starts_at dst rows ≡ true =
        λ dst h. starts_at-rows ea dst blocks ∙ h in
      All-both (λ b. starts_at b.start_ea rows ≡ true)
        (λ b. All (λ dst. starts_at dst rows ≡ true) b.succs) blocks
        (All-map (λ b. any (λ c. c.start_ea == b.start_ea) blocks ≡ true)
          (λ b. starts_at b.start_ea rows ≡ true) blocks (λ b h. here b.start_ea h)
          (every_start blocks))
        (All-map (λ b. All (λ dst. any (λ c. c.start_ea == dst) blocks ≡ true) b.succs)
          (λ b. All (λ dst. starts_at dst rows ≡ true) b.succs) blocks
          (λ b h.
            All-map (λ dst. any (λ c. c.start_ea == dst) blocks ≡ true)
              (λ dst. starts_at dst rows ≡ true) b.succs here h)
          (chart f))

  -- The edges of a function are those of its blocks by their number of successors, each one joins two
  -- of the blocks that the table of blocks gives for the same address, and both tables name the
  -- function by that address; where the successors of a flow chart are its blocks.
  pub cfg_edges_exact :
      IsChart api
      → (z : ℤ)
      → (cfg_edges_filter api 4 (int z ∷ [])
          ≡ ok (expected_edges (address z) (chart_of (api.get_func (address z)))))
        × (blocks_filter api 4 (int z ∷ [])
            ≡ ok (map (block_row api (address z)) (chart_of (api.get_func (address z)))))
        × All
            (Joins
              (address z)
              (map (block_row api (address z)) (chart_of (api.get_func (address z)))))
            (expected_edges (address z) (chart_of (api.get_func (address z))))
  unfolding cfg_edges_filter blocks_filter
  cfg_edges_exact chart z =
      let func = api.get_func (address z) in
      (
        ap ok (cfg_edges_in_func-expected (address z) func refl),
        ap ok (blocks_in_func-expected (address z) func refl),
        expected_edges-Joins (address z) (map (block_row api (address z)) (chart_of func))
            (chart_of func) (chart-Placed (address z) func chart),
      )
