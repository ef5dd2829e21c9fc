-- ===== src/Elf/Load.antt =====
-- What `elf_load` of syscall/elf.c accepts and does.
use cortex_forge_aarch64_bar.Prelude.{
  ℕ, ◌+◌, ◌%◌, ◌^◌, ◌≡◌, ◌≢◌, ◌≤◌, ◌<◌, ◌⊎◌, inl, inr, refl, sym, ◌∙◌, ap, Bool, Bool-cases, true,
  false, ◌&&◌, ◌||◌, List, [], ◌∷◌, ◌++◌, map, length, length-append, append-nil, append_assoc,
  ◌==◌, ltb, leb, if◌then◌else◌, arith, some,
}
use mathlib.Core.Bool.{false≢true}
use cortex_forge_aarch64_bar.Mmu.Tree.{Own, Tree}
use cortex_forge_aarch64_bar.Elf.Memory.{MemoryAfter, elf_load-MemoryAfter}
use cortex_forge_aarch64_bar.Elf.{
  Bytes, Phdr, read_phdrs, Loaded, Loader, pf_x, elf_max_regions, pt_load, e_entry, e_phoff,
  e_phnum, header_ok, load_segment, load_next, load_segments, free_regions, entry_ok, check_entry,
  elf_load,
}
use cortex_forge_aarch64_bar.Elf.Flags.{el0_executable}
use cortex_forge_aarch64_bar.Elf.Segment.{
  AllInWords, read_phdrs-AllInWords, Safe, Added, SegmentOutcome, load_segment-SegmentOutcome,
}

abbrev pub AllSafe : ℕ → List Loaded → Type 0
AllSafe size [] = Unit
AllSafe size (l ∷ ls) = Safe size l × AllSafe size ls

AllSafe-append :
    (size : ℕ) (ls : List Loaded) (l : Loaded)
    → AllSafe size ls
    → Safe size l
    → AllSafe size (ls ++ (l ∷ []))
AllSafe-append size [] l h s = (s, tt)
AllSafe-append size (k ∷ ls) l (a, h) s = (a, AllSafe-append size ls l h s)

abbrev pub region_of : Loaded → ℕ × ℕ
region_of l = (l.phys, l.pages)

abbrev pub header_of : Loaded → Phdr
header_of l = l.header

map-append_one :
    {A B : Type 0} (f : A → B) (xs : List A) (x : A)
    → map f (xs ++ (x ∷ [])) ≡ map f xs ++ (f x ∷ [])
map-append_one f [] x = refl
map-append_one f (y ∷ xs) x = ap (λ l. f y ∷ l) (map-append_one f xs x)

-- The headers of the segments to load.
abbrev pub segments : List Phdr → List Phdr
segments [] = []
segments (ph ∷ phs) = if ph.p_type == pt_load then ph ∷ segments phs else segments phs

-- The state of the loader between two segments.
pub record LoadsOk (size : ℕ) (s : Loader) : Type 0 where
  pub safe : AllSafe size s.loads
  pub regions : s.regions ≡ map region_of s.loads
  pub few : length s.regions ≤ elf_max_regions

Added-LoadsOk :
    (size : ℕ) (ph : Phdr) (s s' : Loader) → Added size ph s s' → LoadsOk size s → LoadsOk size s'
Added-LoadsOk size ph s s' a ok = record {
  safe = rw a.loads (AllSafe-append size s.loads a.load ok.safe a.safe);
  regions =
      a.regions
      ∙ ap (λ l. l ++ (region_of a.load ∷ [])) ok.regions
      ∙ sym (map-append_one region_of s.loads a.load)
      ∙ ap (map region_of) (sym a.loads);
  few =
      (let room = a.room in
        let e = ap length a.regions in
        omega (arith, length-append s.regions (region_of a.load ∷ [])));
}

-- All the segments were loaded, behind the earlier ones.
pub record AllLoaded (size : ℕ) (phs : List Phdr) (s s' : Loader) : Type 0 where
  pub ok : LoadsOk size s'
  pub headers : map header_of s'.loads ≡ map header_of s.loads ++ segments phs
  pub entry : s'.entry ≡ s.entry

abbrev SegmentsOutcome : ℕ → List Phdr → Loader → Bool × Loader → Type 0
SegmentsOutcome size phs s (true, s') = AllLoaded size phs s s'
SegmentsOutcome size phs s (false, s') = s'.regions ≡ []

AllLoaded-later :
    (size : ℕ) (ph : Phdr) (phs : List Phdr) (s s1 s' : Loader)
    → Added size ph s s1
    → ph.p_type ≡ pt_load
    → AllLoaded size phs s1 s'
    → AllLoaded size (ph ∷ phs) s s'
AllLoaded-later size ph phs s s1 s' a is_load l =
    let t : (ph.p_type == pt_load) ≡ true = ground arith in
    record {
      ok = l.ok;
      headers =
          l.headers
          ∙ ap (λ x. map header_of x ++ segments phs) a.loads
          ∙ ap (λ x. x ++ segments phs) (map-append_one header_of s.loads a.load)
          ∙ append_assoc (map header_of s.loads) (header_of a.load ∷ []) (segments phs)
          ∙ (rw (t, a.header) refl);
      entry = l.entry ∙ a.entry;
    }

AllLoaded-skip :
    (size : ℕ) (ph : Phdr) (phs : List Phdr) (s s' : Loader)
    → ph.p_type ≢ pt_load
    → AllLoaded size phs s s'
    → AllLoaded size (ph ∷ phs) s s'
AllLoaded-skip size ph phs s s' other l =
    let t : (ph.p_type == pt_load) ≡ false = ground arith in
    record { ok = l.ok; headers = rw t l.headers; entry = l.entry }

SegmentsOutcome-map :
    (size : ℕ) (phs phs' : List Phdr) (s s1 : Loader) (r : Bool × Loader)
    → ((s' : Loader) → AllLoaded size phs s1 s' → AllLoaded size phs' s s')
    → SegmentsOutcome size phs s1 r
    → SegmentsOutcome size phs' s r
SegmentsOutcome-map size phs phs' s s1 (true, s') f h = f s' h
SegmentsOutcome-map size phs phs' s s1 (false, s') f h = h

load_next-SegmentsOutcome :
    (size : ℕ) (ph : Phdr) (phs : List Phdr) (s : Loader) (r : Bool × Loader)
    (again : Loader → Bool × Loader)
    → LoadsOk size s
    → SegmentOutcome size ph s r
    → ((s1 : Loader) → LoadsOk size s1 → SegmentsOutcome size phs s1 (again s1))
    → SegmentsOutcome size (ph ∷ phs) s (load_next r again)
unfolding load_next free_regions
load_next-SegmentsOutcome size ph phs s (false, s1) again ok h more = refl
load_next-SegmentsOutcome size ph phs s (true, s1) again ok (inl (other, same)) more = rw same (
    SegmentsOutcome-map size phs (ph ∷ phs) s s (again s)
      (λ s' l. AllLoaded-skip size ph phs s s' other l) (more s ok))
load_next-SegmentsOutcome size ph phs s (true, s1) again ok (inr a) more =
    let is_load : ph.p_type ≡ pt_load = ap (λ q. q.p_type) (sym a.header) ∙ a.safe.is_load in
    SegmentsOutcome-map size phs (ph ∷ phs) s s1 (again s1)
      (λ s' l. AllLoaded-later size ph phs s s1 s' a is_load l)
      (more s1 (Added-LoadsOk size ph s s1 a ok))

load_segments-SegmentsOutcome :
    (user_l0 : ℕ) (size : ℕ) (phs : List Phdr) (s : Loader)
    → AllInWords phs
    → LoadsOk size s
    → SegmentsOutcome size phs s (load_segments user_l0 size phs s)
unfolding load_segments
load_segments-SegmentsOutcome user_l0 size [] s w ok = record {
  ok = ok;
  headers = sym (append-nil (map header_of s.loads));
  entry = refl;
}
load_segments-SegmentsOutcome user_l0 size (ph ∷ phs) s (w, ws) ok =
    let ih = λ (s1 : Loader). load_segments-SegmentsOutcome user_l0 size phs s1 ws in
    load_next-SegmentsOutcome size ph phs s (load_segment user_l0 size ph s)
      (λ s1. load_segments user_l0 size phs s1) ok (load_segment-SegmentOutcome user_l0 size ph s w)
      ih

-- The entry is an address of a loaded segment, in pages that user mode may execute.
abbrev pub EntryIn : ℕ → List Loaded → Type 0
EntryIn entry [] = ⊥
EntryIn entry (l ∷ ls) =
    ((l.header.p_vaddr ≤ entry)
      × (entry < l.header.p_vaddr + l.header.p_memsz)
      × (el0_executable l.pte_flags ≡ true))
    ⊎ EntryIn entry ls

-- The test of one segment.
abbrev has_entry : ℕ → Phdr → Bool
has_entry entry ph =
    ph.p_type == pt_load
    && (leb ph.p_vaddr entry && (ltb entry ((ph.p_vaddr + ph.p_memsz) % 2 ^ 64) && pf_x ph.p_flags))

or_cases : (x y : Bool) → (x || y) ≡ true → (x ≡ true) ⊎ (y ≡ true)
or_cases true y h = inl refl
or_cases false y h = inr h

or_right : (x y : Bool) → y ≡ true → (x || y) ≡ true
or_right true y h = refl
or_right false y h = h

entry_ok-segments :
    (entry : ℕ) (phs : List Phdr) → entry_ok entry phs ≡ true → entry_ok entry (segments phs) ≡ true
unfolding entry_ok
entry_ok-segments entry [] h = h
entry_ok-segments entry (ph ∷ phs) h =
    let ih = entry_ok-segments entry phs in
    elim (Bool-cases (ph.p_type == pt_load)) [
      | inl wanted ↦ elim (or_cases (has_entry entry ph) (entry_ok entry phs) h) [
        | inl here ↦ rw (wanted, here) refl
        | inr there ↦ rw wanted (or_right (has_entry entry ph) _ (ih there))
      ]
      | inr other ↦ elim (or_cases (has_entry entry ph) (entry_ok entry phs) h) [
        | inl here ↦ absurd (ground arith)
        | inr there ↦ rw other (ih there)
      ]
    ]

entry_ok-EntryIn :
    (size entry : ℕ) (ls : List Loaded)
    → AllSafe size ls
    → entry_ok entry (map header_of ls) ≡ true
    → EntryIn entry ls
unfolding entry_ok
entry_ok-EntryIn size entry [] s h = absurd (false≢true h)
entry_ok-EntryIn size entry (l ∷ ls) (a, s) h =
    elim (or_cases (has_entry entry l.header) (entry_ok entry (map header_of ls)) h) [
      | inl here ↦
          let fit = a.covers in
          let top = a.below_top in
          let x : pf_x l.header.p_flags ≡ true = ground arith in
          inl (ground arith, ground arith, a.executable ∙ x)
      | inr there ↦ inr (entry_ok-EntryIn size entry ls s there)
    ]

-- What `elf_load` leaves of its file: with success the loads and their regions, otherwise no region.
abbrev pub LoadOutcome : Bytes → Loader → Bool × Loader → Type 0
LoadOutcome kbuf s (true, s') =
    LoadsOk (length kbuf) s'
    × (map header_of s'.loads ≡ segments (read_phdrs kbuf (e_phoff kbuf) (e_phnum kbuf)))
    × (0 < length s'.regions)
    × (s'.entry ≡ e_entry kbuf)
    × EntryIn (e_entry kbuf) s'.loads
LoadOutcome kbuf s (false, s') = (s'.regions ≡ []) ⊎ ((header_ok kbuf ≡ false) × (s' ≡ s))

no_regions : (rs : List (ℕ × ℕ)) → length rs ≡ 0 → rs ≡ []
no_regions [] e = refl
no_regions (r ∷ rs) e = absurd (omega arith)

check_entry-LoadOutcome :
    (kbuf : Bytes) (s start : Loader) (phs : List Phdr) (r : Bool × Loader)
    → start.loads ≡ []
    → start.entry ≡ e_entry kbuf
    → phs ≡ read_phdrs kbuf (e_phoff kbuf) (e_phnum kbuf)
    → SegmentsOutcome (length kbuf) phs start r
    → LoadOutcome kbuf s (check_entry (e_entry kbuf) phs r)
unfolding check_entry free_regions
check_entry-LoadOutcome kbuf s start phs (false, s') fresh e all h = inl h
check_entry-LoadOutcome kbuf s start phs (true, s') fresh e all l =
    elim (Bool-cases (length s'.regions == 0)) [
      | inl bare ↦ rw bare (inl (no_regions s'.regions (ground arith)))
      | inr some_regions ↦ elim (Bool-cases (entry_ok (e_entry kbuf) phs)) [
        | inr outside ↦ rw (some_regions, outside) (inl refl)
        | inl inside ↦
            let headers : map header_of s'.loads ≡ segments phs =
              l.headers ∙ ap (λ x. map header_of x ++ segments phs) fresh in
            let found : entry_ok (e_entry kbuf) (map header_of s'.loads) ≡ true =
              rw headers (entry_ok-segments (e_entry kbuf) phs inside) in
            rw (some_regions, inside)
              (
                l.ok,
                headers ∙ ap segments all,
                ground arith,
                l.entry ∙ e,
                entry_ok-EntryIn (length kbuf) (e_entry kbuf) s'.loads l.ok.safe found,
              )
      ]
    ]

elf_load_accepted :
    (user_l0 : ℕ) (kbuf : Bytes) (s : Loader) → LoadOutcome kbuf s (elf_load user_l0 kbuf s)
unfolding elf_load
elf_load_accepted user_l0 kbuf s =
    let phs = read_phdrs kbuf (e_phoff kbuf) (e_phnum kbuf) in
    let start : Loader = record s { entry = e_entry kbuf; regions = []; loads = [] } in
    elim (Bool-cases (header_ok kbuf)) [
      | inr bad ↦ rw bad (inr (bad, refl))
      | inl good ↦ rw good (
          check_entry-LoadOutcome kbuf s start phs (load_segments user_l0 (length kbuf) phs start)
            refl refl refl
            (load_segments-SegmentsOutcome user_l0 (length kbuf) phs start
              (read_phdrs-AllInWords kbuf (e_phnum kbuf) (e_phoff kbuf))
              (record { safe = tt; regions = refl; few = omega arith })))
    ]

-- The tables behind `user_l0` are well-formed before. For every file, when elf_load succeeds there
-- are 1 to 4 loads, one for each segment to load and one for each region it reports. Each has source
-- bytes that lie inside the file, a place in its pages that they fit, and a range of whole pages
-- around its segment below the top of the user's stack, with flags that never make it both writable
-- and executable for user mode and never executable for the kernel; the entry lies in a segment with
-- flags to execute for user mode. In the tables, which are well-formed, the hardware finds for each
-- page the descriptor of before or the one of a load whose range holds the page, with its place in
-- the pages of this load and its flags; and it finds such a one for every page of every range,
-- unless no page was left for a table. When elf_load fails, it reports no region, or the file header
-- was refused and nothing has changed.
pub elf_load-LoadOutcome :
    (user_l0 : ℕ) (kbuf : Bytes) (s : Loader) (own : Own)
    → Tree s.mmu own
    → own user_l0 ≡ some []
    → LoadOutcome kbuf s (elf_load user_l0 kbuf s)
      × MemoryAfter user_l0 s.mmu (elf_load user_l0 kbuf s)
elf_load-LoadOutcome user_l0 kbuf s own tree root =
    (elf_load_accepted user_l0 kbuf s, elf_load-MemoryAfter user_l0 kbuf s own tree root)
