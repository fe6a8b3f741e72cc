-- ===== src/Lattice/Paths.antt =====
-- floyd_warshall (moses/src/FloydWarshall.cpp), and the distances that WordLattice
-- (moses/src/WordLattice.cpp) takes from it. A table of ints, none of them negative, is a list of
-- rows.
use moses.Base.{
  ℕ, ◌+◌, ◌-◌, Bool, true, false, List, [], ◌∷◌, not_found, ltb, ◌==◌, if◌then◌else◌, length,
  get_or, set, replicate, for_range, pos,
}
use moses.Coverage.Range.{WordsRange}
use moses.Decoder.Search.{InputType}

-- MAX_DIST, INT_MAX / 2
abbrev pub max_dist : ℕ
max_dist = 1073741823

abbrev pub Table : Type 0
Table = List (List ℕ)

abbrev pub Matrix : Type 0
Matrix = List (List Bool)

unfoldable pub cell : Table → ℕ → ℕ → ℕ
cell d i j = get_or (get_or d i []) j 0

unfoldable pub set_cell : Table → ℕ → ℕ → ℕ → Table
set_cell d i j v = set d i (set (get_or d i []) j v)

unfoldable pub edge : Matrix → ℕ → ℕ → Bool
edge edges i j = get_or (get_or edges i []) j false

-- The body of the loop that sets the lengths of single edges.
unfoldable pub init_cell : Matrix → ℕ → ℕ → Table → Table
unfolding set_cell
init_cell edges i j d =
    let d' = set_cell d i j (if edge edges i j then 1 else max_dist) in
    if i == j then set_cell d' i j max_dist else d'

unfoldable pub init_table : Matrix → Table
unfolding for_range init_cell
init_table edges =
    let n = length edges in
    for_range n 0 (λ i d. for_range n 0 (λ j e. init_cell edges i j e) d)
      (replicate n (replicate n 0))

-- The body of the three loops; the sum of two entries fits into an int.
unfoldable pub relax : ℕ → ℕ → ℕ → Table → Table
unfolding cell set_cell
relax k i j d =
    if ltb (cell d i k + cell d k j) (cell d i j)
    then set_cell d i j (cell d i k + cell d k j)
    else d

unfoldable pub relax_all : ℕ → ℕ → Table → Table
unfolding for_range relax
relax_all n k d = for_range n 0 (λ i e. for_range n 0 (λ j f. relax k i j f) e) d

unfoldable pub floyd_warshall : Matrix → Table
unfolding for_range relax_all init_table
floyd_warshall edges =
    for_range (length edges) 0 (λ k d. relax_all (length edges) k d) (init_table edges)

-- The loop over the arcs of one column: `next_nodes` gives the columns that an arc goes ahead.
unfoldable pub column_edges : ℕ → List ℕ → Matrix → Matrix
column_edges i [] edges = edges
column_edges i (next ∷ nexts) edges =
    column_edges i nexts (set edges i (set (get_or edges i []) (i + next) true))

unfoldable pub edge_rounds : List (List ℕ) → ℕ → Matrix → Matrix
unfolding column_edges
edge_rounds [] i edges = edges
edge_rounds (nexts ∷ columns) i edges = edge_rounds columns (i + 1) (column_edges i nexts edges)

-- WordLattice::GetAsEdgeMatrix; `next_nodes` has the shape of the lattice's columns.
unfoldable pub get_as_edge_matrix : List (List ℕ) → Matrix
unfolding edge_rounds
get_as_edge_matrix next_nodes =
    let n = length next_nodes + 1 in edge_rounds next_nodes 0 (replicate n (replicate n false))

-- WordLattice::ComputeDistortionDistance; the entries of the table are at least 1.
unfoldable pub lattice_distance : Table → WordsRange → WordsRange → ℕ
lattice_distance distances prev current =
    if prev.start_pos == not_found
    then cell distances 0 (current.start_pos + 1) - 1
    else if ltb current.start_pos prev.end_pos
    then cell distances current.start_pos (prev.end_pos + 1)
    else if prev.end_pos + 1 == current.start_pos
    then 0
    else cell distances (prev.end_pos + 1) current.start_pos - 1

-- WordLattice::CanIGetFromAToB
unfoldable pub lattice_can_get : Table → ℕ → ℕ → Bool
lattice_can_get distances start end = ltb (cell distances start end) 100000

-- A word lattice as an input of the search.
unfoldable pub lattice : List (List ℕ) → InputType
unfolding floyd_warshall get_as_edge_matrix
lattice next_nodes =
    let distances = floyd_warshall (get_as_edge_matrix next_nodes) in
    record {
      size = length next_nodes;
      is_word_lattice = true;
      compute_distortion_distance = λ prev current. pos (lattice_distance distances prev current);
      can_i_get_from_a_to_b = lattice_can_get distances;
    }
