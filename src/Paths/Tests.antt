-- ===== src/Paths/Tests.antt =====
-- Runs and witnesses for the paths of fs/vfs/vfs.c.
use cortex_forge_aarch64_bar.Prelude.{◌≡◌, refl, ap, [], ◌∷◌, ◌++◌, length, none, some, arith, true}
use cortex_forge_aarch64_bar.Files.{vnode_reg, vnode_dir}
use cortex_forge_aarch64_bar.Paths.{
  Text, Vfs, Lookup, slash, new_vnode, alloc_vnode, adopt, adopt_new, vfs_init, vfs_create_node,
  name_match, find_cached, cached_or_query, query, find_child, enter, skip_slashes, component,
  behind, continue_with, resolve_round, resolve_rounds, vfs_resolve, is_dir, node_at,
}
use cortex_forge_aarch64_bar.Paths.Split.{words}
use cortex_forge_aarch64_bar.Paths.Resolve.{walk, vfs_resolve-walk}
use cortex_forge_aarch64_bar.Paths.Create.{FileName, vfs_resolve-vfs_create_node}

-- No file system is mounted.
abbrev no_lookup : Lookup
no_lookup ops v dir name = (none, v)

-- `/ab`, a directory
abbrev ab : Text
ab = 97 ∷ 98 ∷ []

abbrev c_txt : Text
c_txt = 99 ∷ 46 ∷ 116 ∷ []

abbrev with_ab : Vfs
with_ab = (vfs_create_node (some 0) ab vnode_dir vfs_init).1

abbrev with_file : Vfs
with_file = (vfs_create_node (some 1) c_txt vnode_reg with_ab).1

-- `//ab/../ab/./c.t` and `/ab/c.x`
abbrev winding : Text
winding = slash ∷ slash ∷ 97 ∷ 98 ∷ slash ∷ 46 ∷ 46 ∷ slash ∷ 97 ∷ 98 ∷ slash ∷ 46 ∷ slash ∷ c_txt

resolve_runs :
    ((vfs_resolve no_lookup winding with_file).0 ≡ some 2)
    × ((vfs_resolve no_lookup (slash ∷ ab ++ (slash ∷ 99 ∷ 46 ∷ 120 ∷ [])) with_file).0 ≡ none)
    × ((vfs_resolve no_lookup ab with_file).0 ≡ none)
unfolding vfs_resolve resolve_rounds resolve_round skip_slashes component behind continue_with enter
    find_child find_cached cached_or_query query name_match vfs_create_node adopt_new adopt
    alloc_vnode vfs_init new_vnode
resolve_runs = (refl, refl, refl)

vfs_resolve-walk_example :
    vfs_resolve no_lookup winding with_file
    ≡ walk no_lookup with_file with_file.root
        (words (slash ∷ 97 ∷ 98 ∷ slash ∷ 46 ∷ 46 ∷ slash ∷ 97 ∷ 98 ∷ slash ∷ 46 ∷ slash ∷ c_txt))
vfs_resolve-walk_example =
    vfs_resolve-walk no_lookup
      (slash ∷ 97 ∷ 98 ∷ slash ∷ 46 ∷ 46 ∷ slash ∷ 97 ∷ 98 ∷ slash ∷ 46 ∷ slash ∷ c_txt) with_file

c_txt-FileName : FileName c_txt
c_txt-FileName = record {
  short = omega arith;
  bytes = (
    ((λ e. omega arith), λ e. omega arith),
    (((λ e. omega arith), λ e. omega arith), (((λ e. omega arith), λ e. omega arith), tt)),
  );
  not_empty = λ e. let q : 3 ≡ 0 = ap length e in omega arith;
  not_dot = refl;
  not_dot_dot = refl;
}

ab_resolves : vfs_resolve no_lookup (slash ∷ ab) with_file ≡ (some 1, with_file)
unfolding vfs_resolve resolve_rounds resolve_round skip_slashes component behind continue_with enter
    find_child find_cached cached_or_query query name_match vfs_create_node adopt_new adopt
    alloc_vnode vfs_init new_vnode
ab_resolves = refl

room_left : length with_ab.node_pool ≡ 2
unfolding vfs_create_node adopt_new adopt alloc_vnode vfs_init
room_left = refl

ab_dir : is_dir (node_at with_ab 1).type ≡ true
unfolding vfs_create_node adopt_new adopt alloc_vnode vfs_init new_vnode
ab_dir = refl

vfs_resolve-vfs_create_node_example :
    vfs_resolve no_lookup (slash ∷ ab ++ (slash ∷ c_txt)) with_file
    ≡ (some (length with_ab.node_pool), with_file)
vfs_resolve-vfs_create_node_example =
    vfs_resolve-vfs_create_node no_lookup with_ab 1 ab c_txt vnode_reg (omega (arith, room_left))
      (omega (arith, room_left)) ab_dir c_txt-FileName ab_resolves
