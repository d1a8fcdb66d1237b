-- ===== src/Slab/FreeChunks.antt =====
-- The free chunks of one slab, and how a request changes their words.
use sys_prog.Prelude.{
  ℕ, suc, ◌+◌, ◌*◌, ◌^◌, ◌<◌, ◌≤◌, ◌≡◌, ◌≢◌, ◌∙◌, sym, ap, arith, List, [], ◌∷◌, length,
}
use native.Mathlib.Nat.{mul-le-mul_right}
use sys_prog.Slab.{
  Memory, slab_size, get_slab_header, free_slab_chunk, free_slab_chunk_amount, write_word,
}
use sys_prog.Slab.Chunks.{Chained, write_word-same, write_word-other}
use sys_prog.Slab.Requests.{decrement, increment, drop_chunk, push_chunk}

-- An object of a slab that has an amount of objects of a size.
abbrev pub IsObject : (amount size s c : ℕ) → Type 0
IsObject amount size s c = (i : ℕ) × (i < amount) × (c ≡ s + i * size)

unfoldable pub AreObjects : (amount size s : ℕ) → List ℕ → Type 0
AreObjects amount size s [] = Unit
AreObjects amount size s (c ∷ cs) = IsObject amount size s c × AreObjects amount size s cs

unfoldable pub NotIn : ℕ → List ℕ → Type 0
NotIn x [] = Unit
NotIn x (c ∷ cs) = (x ≢ c) × NotIn x cs

unfoldable pub Distinct : List ℕ → Type 0
Distinct [] = Unit
Distinct (c ∷ cs) = NotIn c cs × Distinct cs

-- The words at the header of a slab hold the chain and the amount of its free chunks, which are
-- different objects of it.
pub record FreeChunks (amount size order : ℕ) (m : Memory) (s : ℕ) (cs : List ℕ) : Type 0 where
  pub chain : Chained m (free_slab_chunk (get_slab_header s order)) cs
  pub count : m (free_slab_chunk_amount (get_slab_header s order)) ≡ length cs
  pub own : AreObjects amount size s cs
  pub different : Distinct cs

-- The objects of a slab stand below its header.
abbrev pub Fits : (amount size order : ℕ) → Type 0
Fits amount size order = (0 < size) × (amount * size + 32 ≤ slab_size order)

module _ (amount size order : ℕ) (fits : Fits amount size order) (s : ℕ) where
  abbrev header : ℕ
  header = get_slab_header s order

  pub object-below : (c : ℕ) → IsObject amount size s c → (s ≤ c) × (c < header)
  unfolding get_slab_header
  object-below c (i, less, e) =
      let le : suc i * size ≤ amount * size = mul-le-mul_right size (omega arith) in
      let (some_size, room) = fits in (omega arith, omega arith)

  -- Where no word from the slab's start to its header changes but the chunk x, the chain behind does not.
  Chained-same :
      (m m' : Memory) (x current : ℕ) (cs : List ℕ)
      → ((c : ℕ) → s ≤ c → c < header → c ≢ x → m' c ≡ m c)
      → m' current ≡ m current
      → AreObjects amount size s cs
      → NotIn x cs
      → Chained m current cs
      → Chained m' current cs
  unfolding Chained AreObjects NotIn
  Chained-same m m' x current [] same e own other l = tt
  Chained-same m m' x current (c ∷ cs) same e (this, own) (differs, other) (at, l) =
      let (above, below) = object-below c this in
      (
        e ∙ at,
        Chained-same m m' x c cs same (same c above below (λ z. differs (sym z))) own other l,
      )

  own-NotIn : (x : ℕ) (cs : List ℕ) → header ≤ x → AreObjects amount size s cs → NotIn x cs
  unfolding AreObjects NotIn
  own-NotIn x [] le own = tt
  own-NotIn x (c ∷ cs) le (this, own) =
      let (above, below) = object-below c this in ((λ e. omega arith), own-NotIn x cs le own)

  header-above : s ≤ header
  unfolding get_slab_header
  header-above = let (some_size, room) = fits in omega arith

  -- A slab keeps its free chunks where its words are kept.
  pub FreeChunks-same :
      (m m' : Memory) (cs : List ℕ)
      → ((x : ℕ) → s ≤ x → x < header + 16 → m' x ≡ m x)
      → FreeChunks amount size order m s cs
      → FreeChunks amount size order m' s cs
  FreeChunks-same m m' cs same f =
      let above = header-above in
      record {
        chain =
            Chained-same m m' header header cs (λ c le less differs. same c le (omega arith))
              (same header above (omega arith)) f.own (own-NotIn header cs (omega arith) f.own)
              f.chain;
        count = same (header + 8) (omega arith) (omega arith) ∙ f.count;
        own = f.own;
        different = f.different;
      }

  -- The memory after the amount of the free chunks has been counted down.
  abbrev pub counted_down : Memory → Memory
  counted_down m = write_word (header + 8) (decrement (m (header + 8))) m

  counted_down-other : (m : Memory) (x : ℕ) → x ≢ header + 8 → counted_down m x ≡ m x
  counted_down-other m x h = write_word-other (header + 8) (decrement (m (header + 8))) x m h

  pub counted_down-count :
      (m : Memory) (n : ℕ)
      → n + 1 < 2 ^ 64
      → m (header + 8) ≡ suc n
      → counted_down m (header + 8) ≡ n
  counted_down-count m n small e =
      let one_less : decrement (m (header + 8)) ≡ n = omega arith in
      write_word-same (header + 8) (decrement (m (header + 8))) m ∙ one_less

  -- The last free chunk is taken.
  pub counted_down-FreeChunks :
      (m : Memory) (c : ℕ)
      → FreeChunks amount size order m s (c ∷ [])
      → FreeChunks amount size order (counted_down m) s []
  unfolding Chained AreObjects Distinct
  counted_down-FreeChunks m c f = record {
    chain = tt;
    count = counted_down-count m 0 (omega arith) f.count;
    own = tt;
    different = tt;
  }

  dropped :
      (m : Memory) (c : ℕ) (cs : List ℕ) (v : ℕ)
      → v ≡ m c
      → c < header
      → AreObjects amount size s cs
      → Chained m c cs
      → Chained (write_word header v (counted_down m)) header cs
  unfolding Chained AreObjects
  dropped m c [] v e below own l = tt
  dropped m c (d ∷ ds) v e below (this, own) (at, l) =
      let m' : Memory = write_word header v (counted_down m) in
      let same : (x : ℕ) → x < header → m' x ≡ m x = λ x less.
        write_word-other header v x (counted_down m) (λ z. omega arith)
        ∙ counted_down-other m x (λ z. omega arith) in
      let (above, less) = object-below d this in
      (
        write_word-same header v (counted_down m) ∙ e ∙ at,
        Chained-same m m' header d ds (λ x le lt differs. same x lt) (same d less) own
            (own-NotIn header ds (omega arith) own) l,
      )

  -- The first free chunk is taken out of the chain.
  pub drop_chunk-FreeChunks :
      (m : Memory) (c : ℕ) (cs : List ℕ)
      → length cs + 1 < 2 ^ 64
      → FreeChunks amount size order m s (c ∷ cs)
      → FreeChunks amount size order (drop_chunk header (counted_down m)) s cs
  unfolding drop_chunk AreObjects Distinct Chained
  drop_chunk-FreeChunks m c cs small f =
      let m1 : Memory = counted_down m in
      let (at, l) = f.chain in
      let (this, own) = f.own in
      let (above, below) = object-below c this in
      let first : m1 header ≡ c = counted_down-other m header (λ e. omega arith) ∙ at in
      let linked : m1 (m1 header) ≡ m c = ap m1 first ∙ counted_down-other m c (λ e. omega arith) in
      let v : ℕ = m1 (m1 header) in
      record {
        chain = dropped m c cs v linked below own l;
        count =
            write_word-other header v (header + 8) m1 (λ e. omega arith)
            ∙ counted_down-count m (length cs) small f.count;
        own = own;
        different = f.different.1;
      }

  pub push_chunk-count :
      (ptr : ℕ) (m : Memory) (n : ℕ)
      → n + 1 < 2 ^ 64
      → ptr < header
      → m (header + 8) ≡ n
      → push_chunk ptr header m (header + 8) ≡ suc n
  unfolding push_chunk
  push_chunk-count ptr m n small below e =
      let m1 : Memory = write_word ptr (m header) m in
      let m2 : Memory = write_word header ptr m1 in
      let before : m2 (header + 8) ≡ n =
        write_word-other header ptr (header + 8) m1 (λ z. omega arith)
        ∙ write_word-other ptr (m header) (header + 8) m (λ z. omega arith)
        ∙ e in
      let one_more : increment (m2 (header + 8)) ≡ suc n = omega arith in
      write_word-same (header + 8) (increment (m2 (header + 8))) m2 ∙ one_more

  -- Which words push_chunk leaves.
  pub push_chunk-other :
      (ptr x : ℕ) (m : Memory)
      → x ≢ ptr
      → x ≢ header
      → x ≢ header + 8
      → push_chunk ptr header m x ≡ m x
  unfolding push_chunk
  push_chunk-other ptr x m p h a =
      let m1 : Memory = write_word ptr (m header) m in
      let m2 : Memory = write_word header ptr m1 in
      write_word-other (header + 8) (increment (m2 (header + 8))) x m2 a
      ∙ write_word-other header ptr x m1 h
      ∙ write_word-other ptr (m header) x m p

  push_chunk-links :
      (ptr : ℕ) (m : Memory)
      → ptr < header
      → (push_chunk ptr header m header ≡ ptr) × (push_chunk ptr header m ptr ≡ m header)
  unfolding push_chunk
  push_chunk-links ptr m below =
      let m1 : Memory = write_word ptr (m header) m in
      let m2 : Memory = write_word header ptr m1 in
      let v : ℕ = increment (m2 (header + 8)) in
      (
        write_word-other (header + 8) v header m2 (λ z. omega arith)
            ∙ write_word-same header ptr m1,
        write_word-other (header + 8) v ptr m2 (λ z. omega arith)
            ∙ write_word-other header ptr ptr m1 (λ z. omega arith)
            ∙ write_word-same ptr (m header) m,
      )

  chain_behind :
      (ptr : ℕ) (m : Memory) (cs : List ℕ)
      → IsObject amount size s ptr
      → push_chunk ptr header m ptr ≡ m header
      → AreObjects amount size s cs
      → NotIn ptr cs
      → Chained m header cs
      → Chained (push_chunk ptr header m) ptr cs
  unfolding Chained AreObjects NotIn
  chain_behind ptr m [] this behind own other l = tt
  chain_behind ptr m (c ∷ cs) this behind (c_own, own) (differs, other) (at, l) =
      let (above, below) = object-below c c_own in
      let same : (x : ℕ) → s ≤ x → x < header → x ≢ ptr → push_chunk ptr header m x ≡ m x =
        λ x le less apart. push_chunk-other ptr x m apart (λ z. omega arith) (λ z. omega arith) in
      (
        behind ∙ at,
        Chained-same m (push_chunk ptr header m) ptr c cs same
            (same c above below (λ z. differs (sym z))) own other l,
      )

  -- A chunk that is not free comes back to the beginning of the chain.
  pub push_chunk-FreeChunks :
      (ptr : ℕ) (m : Memory) (cs : List ℕ)
      → length cs + 1 < 2 ^ 64
      → IsObject amount size s ptr
      → NotIn ptr cs
      → FreeChunks amount size order m s cs
      → FreeChunks amount size order (push_chunk ptr header m) s (ptr ∷ cs)
  unfolding AreObjects Distinct Chained
  push_chunk-FreeChunks ptr m cs small this other f =
      let (above, below) = object-below ptr this in
      let (to_ptr, behind) = push_chunk-links ptr m below in
      record {
        chain = (to_ptr, chain_behind ptr m cs this behind f.own other f.chain);
        count = push_chunk-count ptr m (length cs) small below f.count;
        own = (this, f.own);
        different = (other, f.different);
      }
