-- ===== src/Paths/Create.antt =====
-- A node that `vfs_create_node` of fs/vfs/vfs.c made is found by its path.
use cortex_forge_aarch64_bar.Prelude.{
  ℕ, zero, suc, ◌≡◌, ◌≢◌, ◌≤◌, ◌<◌, refl, sym, ◌∙◌, ap, ap₂, List, [], ◌∷◌, ◌++◌, length, get_or,
  take, get_or-set_self, get_or-set_ne, length-set, length-append, ◌==◌, ltb, some, true, false,
  arith,
}
use cortex_forge_aarch64_bar.Files.{VnodeType}
use cortex_forge_aarch64_bar.Paths.{
  Text, TreeNode, Vfs, Lookup, put_node, slash, max_vnodes, new_vnode, node_at, alloc_vnode, adopt,
  adopt_new, vfs_create_node, component, behind, name_match, find_cached, cached_or_query,
  find_child, is_dir, is_dot, is_dot_dot, enter, continue_with, vfs_resolve,
}
use cortex_forge_aarch64_bar.Paths.Split.{words, words-append, words-component, words-nil}
use cortex_forge_aarch64_bar.Paths.Resolve.{walk, walk-append, vfs_resolve-walk}

-- A byte of a name.
abbrev pub NameByte : ℕ → Type 0
NameByte c = (c ≢ 0) × (c ≢ slash)

abbrev pub AllBytes : Text → Type 0
AllBytes [] = Unit
AllBytes (c ∷ cs) = NameByte c × AllBytes cs

-- A name that fits into a node.
pub record FileName (name : Text) : Type 0 where
  pub short : length name ≤ 63
  pub bytes : AllBytes name
  pub not_empty : name ≢ []
  pub not_dot : is_dot name ≡ false
  pub not_dot_dot : is_dot_dot name ≡ false

take_all : (n : ℕ) (s : Text) → length s ≤ n → take n s ≡ s
take_all zero [] le = refl
take_all zero (c ∷ s) le = absurd (omega arith)
take_all (suc n) [] le = refl
take_all (suc n) (c ∷ s) le = ap (λ l. c ∷ l) (take_all n s (omega arith))

name_match_self : (name : Text) → AllBytes name → name_match name name ≡ true
unfolding name_match
name_match_self [] h = refl
name_match_self (c ∷ cs) (b, h) =
    let e : (c == c) ≡ true = ground arith in rw e (name_match_self cs h)

get_or-append_left :
    {A : Type 0} (xs ys : List A) (i : ℕ) (d : A)
    → i < length xs
    → get_or (xs ++ ys) i d ≡ get_or xs i d
get_or-append_left [] ys i d lt = absurd (omega arith)
get_or-append_left (x ∷ xs) ys zero d lt = refl
get_or-append_left (x ∷ xs) ys (suc i) d lt = get_or-append_left xs ys i d (omega arith)

get_or-append_last :
    {A : Type 0} (xs : List A) (x d : A) → get_or (xs ++ (x ∷ [])) (length xs) d ≡ x
get_or-append_last [] x d = refl
get_or-append_last (y ∷ xs) x d = get_or-append_last xs x d

component_all : (s : Text) → AllBytes s → component s ≡ s
unfolding component
component_all [] h = refl
component_all (c ∷ s) ((nul, ne), h) =
    let e : (c == slash) ≡ false = ground arith in rw e (ap (λ l. c ∷ l) (component_all s h))

behind_all : (s : Text) → AllBytes s → behind s ≡ []
unfolding behind
behind_all [] h = refl
behind_all (c ∷ s) ((nul, ne), h) =
    let e : (c == slash) ≡ false = ground arith in rw e (behind_all s h)

words_name : (s : Text) → AllBytes s → s ≢ [] → words s ≡ s ∷ []
words_name [] h ne = absurd (ne refl)
words_name (c ∷ s) h ne =
    let e : (c == slash) ≡ false = (let q = h.0.1 in ground arith) in
    words-component c s e
    ∙ ap₂ (λ a l. a ∷ l) (component_all (c ∷ s) h) (ap words (behind_all (c ∷ s) h) ∙ words-nil)

module _ (v : Vfs) (p : ℕ) (name : Text) (type : VnodeType) where
  abbrev allocated : Vfs
  allocated = record v { node_pool = v.node_pool ++ (new_vnode name type ∷ []) }

  abbrev created : Vfs
  created = adopt (some p) (length v.node_pool) allocated

  vfs_create_node-some :
      length v.node_pool < max_vnodes
      → vfs_create_node (some p) name type v ≡ (some (length v.node_pool), created)
  unfolding vfs_create_node alloc_vnode adopt_new
  vfs_create_node-some room =
      let e : ltb (length v.node_pool) max_vnodes ≡ true = ground arith in rw e refl

  module _ (inside : p < length v.node_pool) where
    -- The nodes with the new one, which has its parent.
    abbrev raised : Vfs
    raised =
        put_node (length v.node_pool)
          (record (node_at allocated (length v.node_pool)) { parent = some p }) allocated

    length-raised : length raised.node_pool ≡ suc (length v.node_pool)
    length-raised =
        length-set allocated.node_pool (length v.node_pool) _
        ∙ length-append v.node_pool (new_vnode name type ∷ [])
        ∙ omega arith

    raised-parent : node_at raised p ≡ node_at v p
    raised-parent =
        get_or-set_ne allocated.node_pool (length v.node_pool) p _ _ (λ e. omega arith)
        ∙ get_or-append_left v.node_pool (new_vnode name type ∷ []) p _ inside

    created-parent :
        node_at created p
        ≡ record (node_at v p) { children = length v.node_pool ∷ (node_at v p).children }
    unfolding adopt
    created-parent =
        let with_child : TreeNode → TreeNode =
          λ t. record t { children = length v.node_pool ∷ t.children } in
        get_or-set_self raised.node_pool p _ _ (omega (arith, length-raised))
        ∙ ap with_child raised-parent

    created-name : (node_at created (length v.node_pool)).name ≡ take 63 name
    unfolding adopt new_vnode
    created-name =
        ap (λ t. t.name)
          (get_or-set_ne raised.node_pool p (length v.node_pool) _ _ (λ e. omega arith)
            ∙ get_or-set_self allocated.node_pool (length v.node_pool) _ _
                (omega (arith, length-append v.node_pool (new_vnode name type ∷ []))))
        ∙ ap (λ t. t.name) (get_or-append_last v.node_pool (new_vnode name type) _)

    enter-created :
        (lookup : Lookup)
        → FileName name
        → is_dir (node_at v p).type ≡ true
        → enter lookup created p name ≡ (some (length v.node_pool), created)
    unfolding enter find_child find_cached cached_or_query
    enter-created lookup ok dir =
        let same : take 63 name ≡ name = take_all 63 name ok.short in
        let found : name_match (node_at created (length v.node_pool)).name name ≡ true =
          rw (created-name, same) (name_match_self name ok.bytes) in
        let d = ok.not_dot in let dd = ok.not_dot_dot in rw (created-parent, dir, d, dd, found) refl

-- In the state after `vfs_create_node` put a node below a directory `p`, whenever a path resolves to
-- `p` and leaves the nodes as they are, that path with a slash and the name resolves to the new node,
-- whatever nodes of the same name there were: for a name of 1 to 63 bytes without NUL and slash that
-- is neither `.` nor `..`, and a pool with room.
pub vfs_resolve-vfs_create_node :
    (lookup : Lookup) (v : Vfs) (p : ℕ) (path name : Text) (type : VnodeType)
    → length v.node_pool < max_vnodes
    → p < length v.node_pool
    → is_dir (node_at v p).type ≡ true
    → FileName name
    → vfs_resolve lookup (slash ∷ path) (vfs_create_node (some p) name type v).1
      ≡ (some p, (vfs_create_node (some p) name type v).1)
    → vfs_resolve lookup (slash ∷ path ++ (slash ∷ name)) (vfs_create_node (some p) name type v).1
      ≡ (some (length v.node_pool), (vfs_create_node (some p) name type v).1)
unfolding walk continue_with
vfs_resolve-vfs_create_node lookup v p path name type room inside dir ok reached =
    let after = created v p name type in
    let made = ap (λ o. o.1) (vfs_create_node-some v p name type room) in
    let at : walk lookup after after.root (words path) ≡ (some p, after) =
      sym (vfs_resolve-walk lookup path after) ∙ (rw (← made) reached) in
    let step = enter-created v p name type inside lookup ok dir in
    rw made (
      vfs_resolve-walk lookup (path ++ (slash ∷ name)) after
      ∙ ap (walk lookup after after.root) (
          words-append path name
          ∙ ap (λ l. words path ++ l) (words_name name ok.bytes ok.not_empty))
      ∙ walk-append lookup after after.root (words path) (name ∷ [])
      ∙ rw (at, step) refl)
