-- ===== src/Slab/Alloc.antt =====
-- cache_alloc on the slabs that a cache stands for.
use sys_prog.Prelude.{
  ℕ, suc, ◌+◌, ◌≤◌, ◌⊎◌, ◌<◌, ◌≡◌, ◌∙◌, sym, ap, subst, arith, List, [], ◌∷◌, inl, inr, length,
}
use sys_prog.Slab.{Memory, Cache, get_slab_header}
use sys_prog.Slab.Requests.{drop_chunk, move_to_full, move_from_free}
use sys_prog.Slab.Links.{Linked}
use sys_prog.Slab.Chunks.{Chained, write_word-other}
use sys_prog.Slab.FreeChunks.{
  FreeChunks, Fits, counted_down, counted_down-FreeChunks, drop_chunk-FreeChunks,
}
use sys_prog.Slab.Disjoint.{Each, AllDisjoint, all_related}
use sys_prog.Slab.Spread.{AllDisjoint-Spread, Across-Near}
use sys_prog.Slab.CacheMoves.{
  move_to_full-Words, move_to_full-Moved, move_from_free-Words, move_from_free-Moved,
}
use sys_prog.Slab.Holds.{
  Holds, touched-Words, changed, changed-same, KeepsOutside, NoHeader, other-Each,
}

pub Linked-pos :
    (order : ℕ) (m : Memory) (p f s : ℕ) (ss : List ℕ)
    → Linked order m p f (s ∷ ss)
    → (f ≡ s) × (0 < s)
unfolding Linked
Linked-pos order m p f s ss l = (l.0, l.1)

module _ (amount size order : ℕ) (fits : Fits amount size order) (chunks : ℕ → List ℕ) (m : Memory)
    (s : ℕ) where
  abbrev pub down : Memory
  down = counted_down amount size order fits s m

  down-KeepsOutside : KeepsOutside amount size order fits chunks m s down
  unfolding get_slab_header
  down-KeepsOutside x (inl before) =
      let (some_size, room) = fits in write_word-other _ _ x m (λ e. omega arith)
  down-KeepsOutside x (inr behind) = write_word-other _ _ x m (λ e. omega arith)

  drop_chunk-KeepsOutside :
      KeepsOutside amount size order fits chunks m s (drop_chunk (get_slab_header s order) down)
  unfolding drop_chunk get_slab_header
  drop_chunk-KeepsOutside x (inl before) =
      let (some_size, room) = fits in
      write_word-other _ _ x down (λ e. omega arith) ∙ down-KeepsOutside x (inl before)
  drop_chunk-KeepsOutside x (inr behind) =
      write_word-other _ _ x down (λ e. omega arith) ∙ down-KeepsOutside x (inr behind)

  -- Only words of the header change.
  pub down-frame :
      (x : ℕ) → (x < get_slab_header s order) ⊎ (get_slab_header s order + 32 ≤ x) → down x ≡ m x
  down-frame x (inl before) = write_word-other _ _ x m (λ e. omega arith)
  down-frame x (inr behind) = write_word-other _ _ x m (λ e. omega arith)

  pub drop_chunk-frame :
      (x : ℕ)
      → (x < get_slab_header s order) ⊎ (get_slab_header s order + 32 ≤ x)
      → drop_chunk (get_slab_header s order) down x ≡ m x
  unfolding drop_chunk
  drop_chunk-frame x (inl before) =
      write_word-other _ _ x down (λ e. omega arith) ∙ down-frame x (inl before)
  drop_chunk-frame x (inr behind) =
      write_word-other _ _ x down (λ e. omega arith) ∙ down-frame x (inr behind)

  -- The word of the header is the first free chunk.
  pub first_chunk :
      (x : ℕ) (cs : List ℕ)
      → FreeChunks amount size order m s (x ∷ cs)
      → m (get_slab_header s order) ≡ x
  unfolding Chained
  first_chunk x cs f = f.chain.0

-- The slab at the beginning of the partly allocated ones, or of the free ones.
module _ (c : Cache) (m : Memory) (chunks : ℕ → List ℕ) (s x : ℕ) where
  -- There is another free chunk behind the first.
  pub partly_more :
      (free ps fully cs : List ℕ)
      → (h : Holds c m free (s ∷ ps) fully chunks) → chunks s ≡ x ∷ cs
      → 0 < length cs
      → Holds c
          (drop_chunk
            (get_slab_header s c.slab_order)
            (down c.slab_objects c.object_size c.slab_order h.words.fits chunks m s))
          free
          (s ∷ ps)
          fully
          (changed chunks s cs)
  unfolding Each AllDisjoint
  partly_more free ps fully cs h e more =
      let n = c.slab_objects in
      let size = c.object_size in
      let order = c.slab_order in
      let w = h.words in
      let m1 : Memory =
        drop_chunk (get_slab_header s order) (down n size order w.fits chunks m s) in
      let spread = AllDisjoint-Spread order free (s ∷ ps) fully w.apart in
      let (some_s, below) = h.partly_some.0 in
      let size_e : length (chunks s) ≡ suc (length cs) = ap length e in
      let room = h.countable in
      let now = subst (λ l. FreeChunks n size order m s l) e w.partly_words.0 in
      let then_s = drop_chunk-FreeChunks n size order w.fits s m x cs (omega arith) now in
      let same = changed-same chunks s cs in
      record {
        words =
            touched-Words c m m1 free (s ∷ ps) fully chunks s cs w
              (drop_chunk-KeepsOutside n size order w.fits chunks m s) then_s
              (Across-Near order (s ∷ ps) free spread.second_first).0
              (all_related order (s ∷ ps) spread.second).0
              (Across-Near order (s ∷ ps) fully spread.second_third).0;
        several = h.several;
        countable = h.countable;
        free_all =
            other-Each n size order w.fits chunks m (λ l. length l ≡ n) s cs free
              spread.second_first.0 h.free_all;
        partly_some = (
          subst (λ l. (0 < length l) × (length l < n)) (sym same) (omega arith, omega arith),
          other-Each n size order w.fits chunks m (λ l. (0 < length l) × (length l < n)) s cs ps
              spread.second.0 h.partly_some.1,
        );
        fully_none =
            other-Each n size order w.fits chunks m (λ l. length l ≡ 0) s cs fully
              spread.second_third.0 h.fully_none;
      }

  -- It is the last one: the slab is fully allocated.
  pub partly_last :
      (free ps fully : List ℕ)
      → 0 < s
      → (h : Holds c m free (s ∷ ps) fully chunks) → chunks s ≡ x ∷ []
      → (let r =
            move_to_full s c
              (down c.slab_objects c.object_size c.slab_order h.words.fits chunks m s) in
          Holds r.0 r.1 free ps (s ∷ fully) (changed chunks s [])
          × ((x : ℕ)
              → NoHeader c.slab_order x (s ∷ ps)
              → NoHeader c.slab_order x fully
              → r.1 x ≡ m x))
  unfolding Each AllDisjoint move_to_full
  partly_last free ps fully some_s h e =
      let n = c.slab_objects in
      let size = c.object_size in
      let order = c.slab_order in
      let w = h.words in
      let m1 : Memory = down n size order w.fits chunks m s in
      let spread = AllDisjoint-Spread order free (s ∷ ps) fully w.apart in
      let now = subst (λ l. FreeChunks n size order m s l) e w.partly_words.0 in
      let then_s = counted_down-FreeChunks n size order w.fits s m x now in
      let touched =
        touched-Words c m m1 free (s ∷ ps) fully chunks s [] w
          (down-KeepsOutside n size order w.fits chunks m s) then_s
          (Across-Near order (s ∷ ps) free spread.second_first).0
          (all_related order (s ∷ ps) spread.second).0
          (Across-Near order (s ∷ ps) fully spread.second_third).0 in
      let moved = move_to_full-Moved c m1 (changed chunks s []) s some_s free [] ps fully touched in
      (
        record {
          words = move_to_full-Words c m1 (changed chunks s []) s some_s free [] ps fully touched;
          several = h.several;
          countable = h.countable;
          free_all =
              other-Each n size order w.fits chunks m (λ l. length l ≡ n) s [] free
                spread.second_first.0 h.free_all;
          partly_some =
              other-Each n size order w.fits chunks m (λ l. (0 < length l) × (length l < n)) s [] ps
                spread.second.0 h.partly_some.1;
          fully_none = (
            ap length (changed-same chunks s []),
            other-Each n size order w.fits chunks m (λ l. length l ≡ 0) s [] fully
                spread.second_third.0 h.fully_none,
          );
        },
        (λ x no_from no_to.
            moved.frame x no_from no_to ∙ down-frame n size order w.fits chunks m s x no_from.0),
      )

  -- A free slab becomes partly allocated.
  pub free_first :
      (fs partly fully cs : List ℕ)
      → 0 < s
      → (h : Holds c m (s ∷ fs) partly fully chunks) → chunks s ≡ x ∷ cs
      → (let m1 =
            drop_chunk
              (get_slab_header s c.slab_order)
              (down c.slab_objects c.object_size c.slab_order h.words.fits chunks m s) in
          let r = move_from_free s c m1 in
          Holds r.0 r.1 fs (s ∷ partly) fully (changed chunks s cs)
          × ((x : ℕ)
              → NoHeader c.slab_order x (s ∷ fs)
              → NoHeader c.slab_order x partly
              → r.1 x ≡ m x))
  unfolding Each AllDisjoint move_from_free
  free_first fs partly fully cs some_s h e =
      let n = c.slab_objects in
      let size = c.object_size in
      let order = c.slab_order in
      let w = h.words in
      let m1 : Memory =
        drop_chunk (get_slab_header s order) (down n size order w.fits chunks m s) in
      let spread = AllDisjoint-Spread order (s ∷ fs) partly fully w.apart in
      let size_e : length (chunks s) ≡ suc (length cs) = ap length e in
      let all = h.free_all.0 in
      let room = h.countable in
      let two = h.several in
      let now = subst (λ l. FreeChunks n size order m s l) e w.free_words.0 in
      let then_s = drop_chunk-FreeChunks n size order w.fits s m x cs (omega arith) now in
      let touched =
        touched-Words c m m1 (s ∷ fs) partly fully chunks s cs w
          (drop_chunk-KeepsOutside n size order w.fits chunks m s) then_s
          (all_related order (s ∷ fs) spread.first).0
          (Across-Near order (s ∷ fs) partly spread.first_second).0
          (Across-Near order (s ∷ fs) fully spread.first_third).0 in
      let moved =
        move_from_free-Moved c m1 (changed chunks s cs) s some_s [] fs partly fully touched in
      (
        record {
          words =
              move_from_free-Words c m1 (changed chunks s cs) s some_s [] fs partly fully touched;
          several = h.several;
          countable = h.countable;
          free_all =
              other-Each n size order w.fits chunks m (λ l. length l ≡ n) s cs fs spread.first.0
                h.free_all.1;
          partly_some = (
            subst (λ l. (0 < length l) × (length l < n)) (sym (changed-same chunks s cs))
                (omega arith, omega arith),
            other-Each n size order w.fits chunks m (λ l. (0 < length l) × (length l < n)) s cs
                partly spread.first_second.0 h.partly_some,
          );
          fully_none =
              other-Each n size order w.fits chunks m (λ l. length l ≡ 0) s cs fully
                spread.first_third.0 h.fully_none;
        },
        (λ x no_from no_to.
            moved.frame x no_from no_to
            ∙ drop_chunk-frame n size order w.fits chunks m s x no_from.0),
      )
