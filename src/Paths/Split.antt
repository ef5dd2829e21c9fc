-- ===== src/Paths/Split.antt =====
-- Paths as lists of components, apart from the scan of `vfs_resolve` in fs/vfs/vfs.c, and the scan
-- against them.
use cortex_forge_aarch64_bar.Prelude.{
  ℕ, ◌≡◌, ◌≤◌, ◌<◌, inl, inr, refl, sym, ◌∙◌, ap, List, [], ◌∷◌, ◌++◌, length, ◌==◌, if◌then◌else◌,
  Bool-cases, true, false, arith,
}
use cortex_forge_aarch64_bar.Paths.{Text, slash, skip_slashes, component, behind}

-- The pieces between the slashes: the first, and the others.
abbrev pub put_byte : ℕ → Text × List Text → Text × List Text
put_byte c (w, ws) = if c == slash then ([], w ∷ ws) else (c ∷ w, ws)

unfoldable pub split : Text → Text × List Text
split [] = ([], [])
split (c ∷ cs) = put_byte c (split cs)

-- Those that are not empty.
unfoldable pub keep : List Text → List Text
keep [] = []
keep ([] ∷ ws) = keep ws
keep ((c ∷ w) ∷ ws) = (c ∷ w) ∷ keep ws

-- The components of a path.
unfoldable pub words : Text → List Text
words p = keep ((split p).0 ∷ (split p).1)

pub words-nil : words [] ≡ []
unfolding words split keep
words-nil = refl

keep-append : (us vs : List Text) → keep (us ++ vs) ≡ keep us ++ keep vs
unfolding keep
keep-append [] vs = refl
keep-append ([] ∷ us) vs = keep-append us vs
keep-append ((c ∷ w) ∷ us) vs = ap (λ l. (c ∷ w) ∷ l) (keep-append us vs)

split-append :
    (p q : Text)
    → split (p ++ (slash ∷ q)) ≡ ((split p).0, (split p).1 ++ ((split q).0 ∷ (split q).1))
unfolding split
split-append [] q = refl
split-append (c ∷ p) q = elim (Bool-cases (c == slash)) [
  | inl same ↦ rw (same, split-append p q) refl
  | inr other ↦ rw (other, split-append p q) refl
]

pub words-append : (p q : Text) → words (p ++ (slash ∷ q)) ≡ words p ++ words q
unfolding words
words-append p q =
    rw (split-append p q) (keep-append ((split p).0 ∷ (split p).1) ((split q).0 ∷ (split q).1))

skip_slashes-other : (c : ℕ) (cs : Text) → (c == slash) ≡ false → skip_slashes (c ∷ cs) ≡ c ∷ cs
unfolding skip_slashes
skip_slashes-other c cs other = rw other refl

words-slash : (c : ℕ) (cs : Text) → (c == slash) ≡ true → words (c ∷ cs) ≡ words cs
unfolding words split keep
words-slash c cs same = rw same refl

skip_slashes-slash :
    (c : ℕ) (cs : Text) → (c == slash) ≡ true → skip_slashes (c ∷ cs) ≡ skip_slashes cs
unfolding skip_slashes
skip_slashes-slash c cs same = rw same refl

pub words-skip_slashes : (p : Text) → words (skip_slashes p) ≡ words p
unfolding skip_slashes
words-skip_slashes [] = refl
words-skip_slashes (c ∷ cs) = elim (Bool-cases (c == slash)) [
  | inl same ↦
      ap words (skip_slashes-slash c cs same) ∙ words-skip_slashes cs ∙ sym (words-slash c cs same)
  | inr other ↦ ap words (skip_slashes-other c cs other)
]

-- The pieces behind the first, from the byte that ended it.
abbrev others : Text → List Text
others [] = []
others (c ∷ r) = (split r).0 ∷ (split r).1

split-component : (p : Text) → split p ≡ (component p, others (behind p))
unfolding split component behind
split-component [] = refl
split-component (c ∷ cs) = elim (Bool-cases (c == slash)) [
  | inl same ↦ rw same refl
  | inr other ↦ rw (other, split-component cs) refl
]

behind-slash : (c : ℕ) (cs : Text) → (c == slash) ≡ true → behind (c ∷ cs) ≡ c ∷ cs
unfolding behind
behind-slash c cs same = rw same refl

behind-other : (c : ℕ) (cs : Text) → (c == slash) ≡ false → behind (c ∷ cs) ≡ behind cs
unfolding behind
behind-other c cs other = rw other refl

words-others : (c : ℕ) (cs : Text) → (c == slash) ≡ true → words (c ∷ cs) ≡ keep (others (c ∷ cs))
unfolding words split keep
words-others c cs same = rw same refl

-- What `behind` leaves is empty or starts with a slash.
behind-others : (p : Text) → words (behind p) ≡ keep (others (behind p))
unfolding behind words split keep
behind-others [] = refl
behind-others (c ∷ cs) = elim (Bool-cases (c == slash)) [
  | inl same ↦ rw (behind-slash c cs same) (words-others c cs same)
  | inr other ↦ rw (behind-other c cs other) (behind-others cs)
]

component-step : (c : ℕ) (cs : Text) → (c == slash) ≡ false → component (c ∷ cs) ≡ c ∷ component cs
unfolding component
component-step c cs other = rw other refl

-- The first component, when the path does not start with a slash.
pub words-component :
    (c : ℕ) (cs : Text)
    → (c == slash) ≡ false
    → words (c ∷ cs) ≡ component (c ∷ cs) ∷ words (behind (c ∷ cs))
unfolding words keep
words-component c cs other =
    let first : component (c ∷ cs) ≡ c ∷ component cs = component-step c cs other in
    rw (split-component (c ∷ cs), first)
      (ap (λ l. (c ∷ component cs) ∷ l) (sym (behind-others (c ∷ cs))))

pub length-behind : (p : Text) → length (behind p) ≤ length p
unfolding behind
length-behind [] = omega arith
length-behind (c ∷ cs) =
    let ih = length-behind cs in
    elim (Bool-cases (c == slash)) [
      | inl same ↦ rw same (omega arith)
      | inr other ↦ rw other (omega arith)
    ]

-- What `skip_slashes` leaves.
abbrev pub Skipped : Text → Text → Type 0
Skipped p [] = Unit
Skipped p (c ∷ cs) = ((c == slash) ≡ false) × (length (behind (c ∷ cs)) < length p)

Skipped-longer : (c : ℕ) (p q : Text) → Skipped p q → Skipped (c ∷ p) q
Skipped-longer c p [] h = tt
Skipped-longer c p (d ∷ q) (other, lt) = (other, omega arith)

pub skip_slashes-Skipped : (p : Text) → Skipped p (skip_slashes p)
unfolding skip_slashes behind
skip_slashes-Skipped [] = tt
skip_slashes-Skipped (c ∷ cs) =
    let shorter = length-behind cs in
    elim (Bool-cases (c == slash)) [
      | inl same ↦ rw same (Skipped-longer c cs (skip_slashes cs) (skip_slashes-Skipped cs))
      | inr other ↦ rw other (other, rw other (omega arith))
    ]
