-- ===== src/Paths.antt =====
-- fs/vfs/vfs.c: the tree of nodes and the resolution of paths.
--
-- A node is its place in `node_pool`, and the chain of the children of a node is the list of their
-- places. A string is the list of its bytes before the NUL. The function behind `v_ops->lookup`, by
-- which a file system adds nodes on demand, is an argument; it may change the nodes. Lengths are
-- below 2^31, where the cast of `name_match` to `int` changes nothing. `root` is the node that
-- `vfs_init` made.
pub mod Split
pub mod Resolve
pub mod Create
mod Tests
use cortex_forge_aarch64_bar.Prelude.{
  ℕ, zero, suc, Bool, true, false, ◌&&◌, List, [], ◌∷◌, ◌++◌, length, get_or, set, take, drop,
  Option, none, some, ◌==◌, ltb, if◌then◌else◌,
}
use cortex_forge_aarch64_bar.Files.{VnodeType, vnode_dir, vnode_reg, vnode_chr, vnode_blk}

abbrev pub Text : Type 0
Text = List ℕ

abbrev pub slash : ℕ
slash = 47

abbrev pub dot : ℕ
dot = 46

abbrev pub max_vnodes : ℕ
max_vnodes = 128

-- The fields of `vnode_t` that make the tree, and its functions: `ops` and, when there is a lookup,
-- `v_ops`.
pub record TreeNode : Type 0 where
  pub name : Text
  pub type : VnodeType
  pub ops : Option ℕ
  pub v_ops : Option ℕ
  pub parent : Option ℕ
  pub children : List ℕ

pub record Vfs : Type 0 where
  pub node_pool : List TreeNode
  pub root : ℕ

abbrev pub Lookup : Type 0
Lookup = ℕ → Vfs → ℕ → Text → Option ℕ × Vfs

-- What `alloc_vnode` leaves in the node: the name is cut to 63 bytes.
unfoldable pub new_vnode : Text → VnodeType → TreeNode
new_vnode name type = record {
  name = take 63 name;
  type = type;
  ops = none;
  v_ops = none;
  parent = none;
  children = [];
}

abbrev pub node_at : Vfs → ℕ → TreeNode
node_at v n = get_or v.node_pool n (new_vnode [] vnode_reg)

unfoldable pub alloc_vnode : Text → VnodeType → Vfs → Option ℕ × Vfs
alloc_vnode name type v =
    if ltb (length v.node_pool) max_vnodes
    then (
      some (length v.node_pool),
      record v { node_pool = v.node_pool ++ (new_vnode name type ∷ []) },
    )
    else (none, v)

unfoldable pub vfs_init : Vfs
vfs_init = record { node_pool = new_vnode (slash ∷ []) vnode_dir ∷ []; root = 0 }

abbrev pub put_node : ℕ → TreeNode → Vfs → Vfs
put_node n t v = record v { node_pool = set v.node_pool n t }

-- The node `n` becomes the first child of its parent.
unfoldable pub adopt : Option ℕ → ℕ → Vfs → Vfs
adopt none n v = put_node n (record (node_at v n) { parent = none }) v
adopt (some p) n v =
    let v1 = put_node n (record (node_at v n) { parent = some p }) v in
    put_node p (record (node_at v1 p) { children = n ∷ (node_at v1 p).children }) v1

unfoldable pub adopt_new : Option ℕ → Option ℕ × Vfs → Option ℕ × Vfs
adopt_new parent (none, v) = (none, v)
adopt_new parent (some n, v) = (some n, adopt parent n v)

unfoldable pub vfs_create_node : Option ℕ → Text → VnodeType → Vfs → Option ℕ × Vfs
vfs_create_node parent name type v = adopt_new parent (alloc_vnode name type v)

unfoldable pub name_match : Text → Text → Bool
name_match node_name [] = get_or node_name 0 0 == 0
name_match node_name (c ∷ cs) =
    let rest = name_match (drop 1 node_name) cs in if get_or node_name 0 0 == c then rest else false

-- The loop of `find_child`.
unfoldable pub find_cached : Vfs → List ℕ → Text → Option ℕ
find_cached v [] name = none
find_cached v (c ∷ cs) name =
    let rest = find_cached v cs name in if name_match (node_at v c).name name then some c else rest

unfoldable pub query : Lookup → Vfs → ℕ → Text → Option ℕ → Option ℕ × Vfs
query lookup v dir name none = (none, v)
query lookup v dir name (some ops) = lookup ops v dir name

unfoldable pub cached_or_query : Lookup → Vfs → ℕ → Text → Option ℕ → Option ℕ × Vfs
cached_or_query lookup v dir name (some c) = (some c, v)
cached_or_query lookup v dir name none = query lookup v dir name (node_at v dir).v_ops

unfoldable pub find_child : Lookup → Vfs → ℕ → Text → Option ℕ × Vfs
find_child lookup v dir name =
    cached_or_query lookup v dir name (find_cached v (node_at v dir).children name)

abbrev pub is_dir : VnodeType → Bool
is_dir vnode_dir = true
is_dir vnode_reg = false
is_dir vnode_chr = false
is_dir vnode_blk = false

abbrev pub parent_or : ℕ → Option ℕ → ℕ
parent_or cur none = cur
parent_or cur (some p) = p

abbrev pub is_dot : Text → Bool
is_dot name = length name == 1 && get_or name 0 0 == dot

abbrev pub is_dot_dot : Text → Bool
is_dot_dot name = length name == 2 && (get_or name 0 0 == dot && get_or name 1 0 == dot)

-- The step of `vfs_resolve` from `cur` by one component.
unfoldable pub enter : Lookup → Vfs → ℕ → Text → Option ℕ × Vfs
enter lookup v cur name =
    if is_dir (node_at v cur).type
    then if is_dot name
      then (some cur, v)
      else if is_dot_dot name
      then (some (parent_or cur (node_at v cur).parent), v)
      else find_child lookup v cur name
    else (none, v)

unfoldable pub skip_slashes : Text → Text
skip_slashes [] = []
skip_slashes (c ∷ cs) = let rest = skip_slashes cs in if c == slash then rest else c ∷ cs

-- The bytes up to `end`, and those from there on.
unfoldable pub component : Text → Text
component [] = []
component (c ∷ cs) = let rest = component cs in if c == slash then [] else c ∷ rest

unfoldable pub behind : Text → Text
behind [] = []
behind (c ∷ cs) = let rest = behind cs in if c == slash then c ∷ cs else rest

unfoldable pub continue_with : Option ℕ × Vfs → (Vfs → ℕ → Option ℕ × Vfs) → Option ℕ × Vfs
continue_with (none, v) again = (none, v)
continue_with (some n, v) again = again v n

-- A round of the loop behind the slashes.
unfoldable pub resolve_round : Lookup → Vfs → ℕ → Text → (Vfs → ℕ → Option ℕ × Vfs) → Option ℕ × Vfs
resolve_round lookup v cur [] again = (some cur, v)
resolve_round lookup v cur (c ∷ cs) again =
    continue_with (enter lookup v cur (component (c ∷ cs))) again

-- The loop, with fuel: each round takes at least one byte of the path.
unfoldable pub resolve_rounds : Lookup → ℕ → Vfs → ℕ → Text → Option ℕ × Vfs
resolve_rounds lookup zero v cur path = (some cur, v)
resolve_rounds lookup (suc fuel) v cur path =
    let p = skip_slashes path in
    resolve_round lookup v cur p λ v' n. resolve_rounds lookup fuel v' n (behind p)

unfoldable pub vfs_resolve : Lookup → Text → Vfs → Option ℕ × Vfs
vfs_resolve lookup [] v = (none, v)
vfs_resolve lookup (c ∷ cs) v =
    if c == slash then resolve_rounds lookup (length cs) v v.root cs else (none, v)

abbrev pub dev_path : Text
dev_path = slash ∷ 100 ∷ 101 ∷ 118 ∷ []

unfoldable pub dev_or_new : Option ℕ × Vfs → Option ℕ × Vfs
dev_or_new (some dev, v) = (some dev, v)
dev_or_new (none, v) = vfs_create_node (some v.root) (100 ∷ 101 ∷ 118 ∷ []) vnode_dir v

unfoldable pub set_ops : ℕ → Option ℕ × Vfs → Option ℕ × Vfs
set_ops ops (none, v) = (none, v)
set_ops ops (some n, v) = (some n, put_node n (record (node_at v n) { ops = some ops }) v)

unfoldable pub register : Text → ℕ → VnodeType → Option ℕ × Vfs → Option ℕ × Vfs
register name ops type (dev, v) = set_ops ops (vfs_create_node dev name type v)

unfoldable pub vfs_register_chardev : Lookup → Text → ℕ → Vfs → Option ℕ × Vfs
vfs_register_chardev lookup name ops v =
    register name ops vnode_chr (dev_or_new (vfs_resolve lookup dev_path v))

unfoldable pub vfs_register_blockdev : Lookup → Text → ℕ → Vfs → Option ℕ × Vfs
vfs_register_blockdev lookup name ops v =
    register name ops vnode_blk (dev_or_new (vfs_resolve lookup dev_path v))
