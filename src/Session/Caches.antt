-- ===== src/Session/Caches.antt =====
-- What a session caches of the loaded project (src/state.rs, `update_functions` to `invalidate_all`).
-- The plan of the project and its proof targets, which these operations do not touch, are left out.
pub mod Callgraph
use frama_c_mcp.Prelude.{
  ℕ, String, Bool, true, false, ◌&&◌, ◌||◌, not, ◌%◌, ◌^◌, Option, none, some, List, [], ◌∷◌, ◌++◌,
  map, filter_by, ◌=ˢ◌, is_empty_text, lookup, put, if◌then◌else◌,
}
use frama_c_mcp.Json.{Value, at, get, as_str, as_bool, as_u64, as_array, and_then, unwrap_or}
use frama_c_mcp.Session.Conclusions.{Conclusions}
use frama_c_mcp.Session.Receipts.{Seen}

pub record FunctionInfo : Type 0 where
  pub name : String
  pub marker : String
  pub declaration : String
  pub signature : String
  pub file : String
  pub line : ℕ
  pub defined : Bool

pub record GlobalInfo : Type 0 where
  pub name : String
  pub marker : String
  pub declaration : String
  pub typ : String
  pub file : String
  pub line : ℕ

pub record CallEdge : Type 0 where
  pub src : String
  pub dst : String
  pub kind : String

pub record CallVertex : Type 0 where
  pub name : String
  pub declaration : String

pub record SessionState : Type 0 where
  pub project_loaded : Bool
  pub eva_completed : Bool
  pub wp_completed : Bool
  pub functions : List (String × FunctionInfo)
  pub globals : List (String × GlobalInfo)
  pub callgraph_edges : List CallEdge
  pub callgraph_vertices : List CallVertex
  pub conclusions : Conclusions
  pub seen_receipts : Seen

-- `value[key].as_str().unwrap_or_default()`
abbrev str_at : Value → String → String
str_at v key = unwrap_or (as_str (at v key)) ""

-- `as_u64().unwrap_or(0) as u32`
abbrev line_of : Value → ℕ
line_of entry = unwrap_or (as_u64 (at (at entry "sloc") "line")) 0 % 2 ^ 32

abbrev function_info : Value → FunctionInfo
function_info entry = record {
  name = str_at entry "name";
  marker = str_at entry "key";
  declaration = str_at entry "decl";
  signature = str_at entry "signature";
  file = str_at (at entry "sloc") "file";
  line = line_of entry;
  defined = unwrap_or (as_bool (at entry "defined")) false;
}

abbrev global_info : Value → GlobalInfo
global_info entry = record {
  name = str_at entry "name";
  marker = str_at entry "key";
  declaration = str_at entry "decl";
  typ = str_at entry "type";
  file = str_at (at entry "sloc") "file";
  line = line_of entry;
}

-- the loop over the entries: one without a name is skipped, one with a name that came is replaced
insert_functions : List Value → List (String × FunctionInfo) → List (String × FunctionInfo)
insert_functions [] m = m
insert_functions (entry ∷ entries) m = insert_functions entries (
    if is_empty_text (str_at entry "name")
    then m
    else put (str_at entry "name") (function_info entry) m)

unfoldable pub update_functions : List Value → SessionState → SessionState
unfolding insert_functions
update_functions entries s = record s { functions = insert_functions entries [] }

insert_globals : List Value → List (String × GlobalInfo) → List (String × GlobalInfo)
insert_globals [] m = m
insert_globals (entry ∷ entries) m = insert_globals entries (
    if is_empty_text (str_at entry "name")
    then m
    else put (str_at entry "name") (global_info entry) m)

unfoldable pub update_globals : List Value → SessionState → SessionState
unfolding insert_globals
update_globals entries s = record s { globals = insert_globals entries [] }

unfoldable pub read_edges : List Value → List CallEdge
read_edges [] = []
read_edges (edge ∷ edges) =
    let rest = read_edges edges in
    if is_empty_text (str_at edge "src") || is_empty_text (str_at edge "dst")
    then rest
    else record { src = str_at edge "src"; dst = str_at edge "dst"; kind = str_at edge "kind" }
      ∷ rest

unfoldable pub read_vertices : List Value → List CallVertex
read_vertices [] = []
read_vertices (vertex ∷ vertices) =
    let rest = read_vertices vertices in
    if is_empty_text (str_at vertex "name")
    then rest
    else record { name = str_at vertex "name"; declaration = str_at vertex "decl" } ∷ rest

unfoldable pub update_callgraph : Value → SessionState → SessionState
unfolding read_edges read_vertices
update_callgraph graph s = record s {
  callgraph_edges = read_edges (unwrap_or (and_then (get graph "edges") as_array) []);
  callgraph_vertices = read_vertices (unwrap_or (and_then (get graph "vertices") as_array) []);
}

unfoldable pub resolve_function : String → SessionState → Option FunctionInfo
resolve_function name s = lookup name s.functions

unfoldable pub resolve_global : String → SessionState → Option GlobalInfo
resolve_global name s = lookup name s.globals

unfoldable pub get_callers : String → SessionState → List String
get_callers decl_marker s =
    map (λ (e : CallEdge). e.src) (filter_by (λ e. e.dst =ˢ decl_marker) s.callgraph_edges)

unfoldable pub get_callees : String → SessionState → List String
get_callees decl_marker s =
    map (λ (e : CallEdge). e.dst) (filter_by (λ e. e.src =ˢ decl_marker) s.callgraph_edges)

unfoldable pub resolve_in : String → List CallVertex → Option String
resolve_in decl_marker [] = none
resolve_in decl_marker (v ∷ vs) =
    if v.declaration =ˢ decl_marker then some v.name else resolve_in decl_marker vs

unfoldable pub resolve_decl_to_name : String → SessionState → Option String
unfolding resolve_in
resolve_decl_to_name decl_marker s = resolve_in decl_marker s.callgraph_vertices

unfoldable pub edges_by_name : List CallVertex → List CallEdge → List (String × String)
edges_by_name vs [] = []
edges_by_name vs (e ∷ es) =
    let rest = edges_by_name vs es in
    elim (resolve_in e.src vs) [
      | none ↦ rest
      | some src ↦ elim (resolve_in e.dst vs) [ none ↦ rest | some dst ↦ (src, dst) ∷ rest ]
    ]

unfoldable pub callgraph_by_name : SessionState → List String × List (String × String)
unfolding edges_by_name
callgraph_by_name s = (
  map (λ (v : CallVertex). v.name) s.callgraph_vertices,
  edges_by_name s.callgraph_vertices s.callgraph_edges,
)

unfoldable pub invalidate_all : SessionState → SessionState
invalidate_all s = record s {
  project_loaded = false;
  eva_completed = false;
  wp_completed = false;
  functions = [];
  globals = [];
  callgraph_edges = [];
  callgraph_vertices = [];
  seen_receipts = [];
}
