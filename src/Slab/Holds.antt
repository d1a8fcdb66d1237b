-- ===== src/Slab/Holds.antt =====
-- When a cache and its memory stand for three lists of slabs with their free chunks, and what a change
-- of one slab leaves of that.
use sys_prog.Prelude.{
  ℕ, ◌+◌, ◌^◌, ◌<◌, ◌≤◌, ◌≡◌, ◌≢◌, refl, sym, subst, arith, true, false, ◌==◌, if◌then◌else◌, List,
  [], ◌∷◌, ◌++◌, ◌⊎◌, inl, inr, length, eq→==, ne→==,
}
use sys_prog.Slab.{Memory, Cache, get_slab_header}
use sys_prog.Slab.Sizes.{page-slab_size}
use sys_prog.Slab.Links.{next_at, prev_at, Linked, SameLinks, SameLinks-Linked}
use sys_prog.Slab.Chain.{Slabs}
use sys_prog.Slab.FreeChunks.{FreeChunks, Fits, FreeChunks-same}
use sys_prog.Slab.Disjoint.{Each, Each-map2, Disjoint, AllDisjoint, Disjoint-differ}

-- Every slab's free chunks are those that a function gives for it, and no two slabs share a byte.
pub record Words (c : Cache) (m : Memory) (free partly fully : List ℕ) (chunks : ℕ → List ℕ)
    : Type 0 where
  pub fits : Fits c.slab_objects c.object_size c.slab_order
  pub slabs : Slabs c m free partly fully
  pub apart : AllDisjoint c.slab_order (free ++ (partly ++ fully))
  pub free_words :
      Each (λ s. FreeChunks c.slab_objects c.object_size c.slab_order m s (chunks s)) free
  pub partly_words :
      Each (λ s. FreeChunks c.slab_objects c.object_size c.slab_order m s (chunks s)) partly
  pub fully_words :
      Each (λ s. FreeChunks c.slab_objects c.object_size c.slab_order m s (chunks s)) fully

-- And they are all objects in the first list, some but not all in the second, and none in the third.
pub record Holds (c : Cache) (m : Memory) (free partly fully : List ℕ) (chunks : ℕ → List ℕ)
    : Type 0 where
  pub words : Words c m free partly fully chunks
  pub several : 2 ≤ c.slab_objects
  pub countable : c.slab_objects + 1 < 2 ^ 64
  pub free_all : Each (λ s. length (chunks s) ≡ c.slab_objects) free
  pub partly_some :
      Each (λ s. (0 < length (chunks s)) × (length (chunks s) < c.slab_objects)) partly
  pub fully_none : Each (λ s. length (chunks s) ≡ 0) fully

-- The lists of the free, the partly allocated and the fully allocated slabs.
pub record Lists : Type 0 where
  pub free : List ℕ
  pub partly : List ℕ
  pub fully : List ℕ

-- A word outside of the headers of slabs.
abbrev pub NoHeader : (order x : ℕ) → List ℕ → Type 0
NoHeader order x l =
    Each (λ u. (x < get_slab_header u order) ⊎ (get_slab_header u order + 32 ≤ x)) l

-- The second cache is the one of some objects still, and stands for three lists of slabs; words with
-- a property are what they were.
pub record Keeps (c : Cache) (m : Memory) (c' : Cache) (m' : Memory) (l : Lists)
    (chunks : ℕ → List ℕ) (Same : ℕ → Type 0) : Type 0 where
  pub same_size : c'.object_size ≡ c.object_size
  pub same_order : c'.slab_order ≡ c.slab_order
  pub same_objects : c'.slab_objects ≡ c.slab_objects
  pub holds : Holds c' m' l.free l.partly l.fully chunks
  pub frame : (x : ℕ) → Same x → m' x ≡ m x

-- The free chunks of one slab are others.
abbrev pub changed : (ℕ → List ℕ) → (s : ℕ) → List ℕ → ℕ → List ℕ
changed chunks s cs u = if u == s then cs else chunks u

pub changed-same : (chunks : ℕ → List ℕ) (s : ℕ) (cs : List ℕ) → changed chunks s cs s ≡ cs
changed-same chunks s cs = let e : (s == s) ≡ true = eq→== s s refl in rw e refl

pub changed-other :
    (chunks : ℕ → List ℕ) (s : ℕ) (cs : List ℕ) (u : ℕ) → u ≢ s → changed chunks s cs u ≡ chunks u
changed-other chunks s cs u h = let e : (u == s) ≡ false = ne→== u s h in rw e refl

module _ (amount size order : ℕ) (fits : Fits amount size order) (chunks : ℕ → List ℕ)
    (m : Memory) where
  -- A memory in which only words of a slab up to its header's amount are others.
  abbrev pub KeepsOutside : ℕ → Memory → Type 0
  KeepsOutside s m1 = (x : ℕ) → (x < s) ⊎ (get_slab_header s order + 16 ≤ x) → m1 x ≡ m x

  -- A property of the free chunks of the other slabs.
  pub other-Each :
      (P : List ℕ → Type 0) (s : ℕ) (cs : List ℕ) (l : List ℕ)
      → Each (Disjoint order s) l
      → Each (λ u. P (chunks u)) l
      → Each (λ u. P (changed chunks s cs u)) l
  other-Each P s cs l d e =
      Each-map2 {P = Disjoint order s} {Q = λ u. P (chunks u)} {R = λ u. P (changed chunks s cs u)}
        l
        (λ u apart p.
          subst P (sym (changed-other chunks s cs u (λ z. Disjoint-differ order apart (sym z)))) p)
        d e

  other-FreeChunks :
      (s : ℕ) (m1 : Memory) (u : ℕ)
      → KeepsOutside s m1
      → Disjoint order s u
      → FreeChunks amount size order m u (chunks u)
      → FreeChunks amount size order m1 u (chunks u)
  unfolding get_slab_header
  other-FreeChunks s m1 u keeps (inl before) f =
      let page = page-slab_size order in
      FreeChunks-same amount size order fits u m m1 (chunks u)
        (λ x le less. keeps x (inr (omega arith))) f
  other-FreeChunks s m1 u keeps (inr behind) f =
      let page = page-slab_size order in
      FreeChunks-same amount size order fits u m m1 (chunks u)
        (λ x le less. keeps x (inl (omega arith))) f

  -- The other slabs keep their free chunks.
  pub near_words :
      (s : ℕ) (m1 : Memory) (cs : List ℕ) (l : List ℕ)
      → KeepsOutside s m1
      → FreeChunks amount size order m1 s cs
      → Each (λ u. (s ≡ u) ⊎ Disjoint order s u) l
      → Each (λ u. FreeChunks amount size order m u (chunks u)) l
      → Each (λ u. FreeChunks amount size order m1 u (changed chunks s cs u)) l
  near_words s m1 cs l keeps now near w =
      Each-map2 {P = λ u. (s ≡ u) ⊎ Disjoint order s u}
        {Q = λ u. FreeChunks amount size order m u (chunks u)}
        {R = λ u. FreeChunks amount size order m1 u (changed chunks s cs u)} l
        (λ u this f. elim this [
          | inl same ↦
              subst (λ v. FreeChunks amount size order m1 v (changed chunks s cs v)) same
                (subst (λ z. FreeChunks amount size order m1 s z) (sym (changed-same chunks s cs))
                  now)
          | inr apart ↦
              subst (λ z. FreeChunks amount size order m1 u z)
                (sym (changed-other chunks s cs u (λ z. Disjoint-differ order apart (sym z))))
                (other-FreeChunks s m1 u keeps apart f)
        ])
        near w

  same_links :
      (s : ℕ) (m1 : Memory) (l : List ℕ)
      → KeepsOutside s m1
      → Each (λ t. (s ≡ t) ⊎ Disjoint order s t) l
      → SameLinks order m m1 l
  unfolding SameLinks Each get_slab_header
  same_links s m1 [] keeps near = tt
  same_links s m1 (t ∷ l) keeps (this, near) =
      let page = page-slab_size order in
      let rest = same_links s m1 l keeps near in
      elim this [
        | inl same ↦ (
          keeps (next_at order t) (inr (omega arith)),
          keeps (prev_at order t) (inr (omega arith)),
          rest,
        )
        | inr (inl before) ↦ (
          keeps (next_at order t) (inr (omega arith)),
          keeps (prev_at order t) (inr (omega arith)),
          rest,
        )
        | inr (inr behind) ↦ (
          keeps (next_at order t) (inl (omega arith)),
          keeps (prev_at order t) (inl (omega arith)),
          rest,
        )
      ]

  -- And every list of slabs its links.
  pub KeepsOutside-Linked :
      (s : ℕ) (m1 : Memory) (l : List ℕ) (p f : ℕ)
      → KeepsOutside s m1
      → Each (λ t. (s ≡ t) ⊎ Disjoint order s t) l
      → Linked order m p f l
      → Linked order m1 p f l
  KeepsOutside-Linked s m1 l p f keeps near linked =
      SameLinks-Linked order m m1 l p f (same_links s m1 l keeps near) linked

-- One slab's words change up to its header's amount, and its free chunks with them.
pub touched-Words :
    (c : Cache) (m m1 : Memory) (free partly fully : List ℕ) (chunks : ℕ → List ℕ) (s : ℕ)
    (cs : List ℕ)
    → (w : Words c m free partly fully chunks)
    → KeepsOutside c.slab_objects c.object_size c.slab_order w.fits chunks m s m1
    → FreeChunks c.slab_objects c.object_size c.slab_order m1 s cs
    → Each (λ t. (s ≡ t) ⊎ Disjoint c.slab_order s t) free
    → Each (λ t. (s ≡ t) ⊎ Disjoint c.slab_order s t) partly
    → Each (λ t. (s ≡ t) ⊎ Disjoint c.slab_order s t) fully
    → Words c m1 free partly fully (changed chunks s cs)
touched-Words c m m1 free partly fully chunks s cs w keeps now n_free n_partly n_fully =
    let order = c.slab_order in
    let keep = KeepsOutside-Linked c.slab_objects c.object_size order w.fits chunks m s m1 in
    let words = near_words c.slab_objects c.object_size order w.fits chunks m s m1 cs in
    record {
      fits = w.fits;
      slabs = record {
        in_free = keep free 0 c.free_slabs keeps n_free w.slabs.in_free;
        in_partly = keep partly 0 c.partly_allocated_slabs keeps n_partly w.slabs.in_partly;
        in_fully = keep fully 0 c.fully_allocated_slabs keeps n_fully w.slabs.in_fully;
      };
      apart = w.apart;
      free_words = words free keeps now n_free w.free_words;
      partly_words = words partly keeps now n_partly w.partly_words;
      fully_words = words fully keeps now n_fully w.fully_words;
    }
