-- ===== src/Slab/Spread.antt =====
-- Three lists of slabs of which no two share a byte.
use sys_prog.Prelude.{ℕ, ◌≡◌, List, [], ◌∷◌, ◌++◌, ◌⊎◌, inr, refl, sym, subst, append_assoc}
use sys_prog.Slab.{Memory}
use sys_prog.Slab.Move.{NoLink}
use sys_prog.Slab.FreeChunks.{FreeChunks, Fits, FreeChunks-same}
use sys_prog.Slab.Disjoint.{
  Each, Each-map, Each-split, Disjoint, AllDisjoint, AllDisjoint-split, AllDisjoint-out,
  AllDisjoint-in, word-NoLink,
}

module _ (order : ℕ) where
  abbrev pub Across : List ℕ → List ℕ → Type 0
  Across xs ys = Each (λ x. Each (Disjoint order x) ys) xs

  -- Each slab of a list is one of another list's or disjoint from it.
  abbrev pub Near : List ℕ → List ℕ → Type 0
  Near xs ys = Each (λ x. Each (λ y. (x ≡ y) ⊎ Disjoint order x y) ys) xs

  pub record Spread (xs ys zs : List ℕ) : Type 0 where
    pub first : AllDisjoint order xs
    pub second : AllDisjoint order ys
    pub third : AllDisjoint order zs
    pub first_second : Across xs ys
    pub first_third : Across xs zs
    pub second_first : Across ys xs
    pub second_third : Across ys zs
    pub third_first : Across zs xs
    pub third_second : Across zs ys

  pub AllDisjoint-Spread :
      (xs ys zs : List ℕ) → AllDisjoint order (xs ++ (ys ++ zs)) → Spread xs ys zs
  AllDisjoint-Spread xs ys zs a =
      let (in_xs, rest, there, back) = AllDisjoint-split order xs (ys ++ zs) a in
      let (in_ys, in_zs, yz, zy) = AllDisjoint-split order ys zs rest in
      let (yx, zx) = Each-split (λ y. Each (Disjoint order y) xs) ys zs back in
      record {
        first = in_xs;
        second = in_ys;
        third = in_zs;
        first_second =
            Each-map {P = λ x. Each (Disjoint order x) (ys ++ zs)}
              {Q = λ x. Each (Disjoint order x) ys} xs
              (λ x e. (Each-split (Disjoint order x) ys zs e).0) there;
        first_third =
            Each-map {P = λ x. Each (Disjoint order x) (ys ++ zs)}
              {Q = λ x. Each (Disjoint order x) zs} xs
              (λ x e. (Each-split (Disjoint order x) ys zs e).1) there;
        second_first = yx;
        second_third = yz;
        third_first = zx;
        third_second = zy;
      }

  pub Across-Near : (xs ys : List ℕ) → Across xs ys → Near xs ys
  Across-Near xs ys a =
      Each-map {P = λ x. Each (Disjoint order x) ys}
        {Q = λ x. Each (λ y. (x ≡ y) ⊎ Disjoint order x y) ys} xs
        (λ x e.
          Each-map {P = Disjoint order x} {Q = λ y. (x ≡ y) ⊎ Disjoint order x y} ys (λ y d. inr d)
            e)
        a

  -- The words of slabs are kept where no word changes but links of two lists of slabs.
  pub moved-words :
      (amount size : ℕ) (fits : Fits amount size order) (m m' : Memory) (from to l : List ℕ)
      (g : ℕ → List ℕ)
      → ((x : ℕ) → NoLink order x from → NoLink order x to → m' x ≡ m x)
      → Near l from
      → Near l to
      → Each (λ u. FreeChunks amount size order m u (g u)) l
      → Each (λ u. FreeChunks amount size order m' u (g u)) l
  unfolding Each
  moved-words amount size fits m m' from to [] g frame nf nt w = tt
  moved-words amount size fits m m' from to (u ∷ l) g frame (near_from, nf) (near_to, nt)
        (this, w) =
      (
        FreeChunks-same amount size order fits u m m' (g u)
            (λ x le less.
              frame x (word-NoLink order u x from le less near_from)
                (word-NoLink order u x to le less near_to))
            this,
        moved-words amount size fits m m' from to l g frame nf nt w,
      )

  -- A slab may stand anywhere else between the others.
  relocate :
      (s : ℕ) (ws bs cs ds : List ℕ) {l l' : List ℕ}
      → l ≡ ws ++ s ∷ bs
      → ws ++ bs ≡ cs ++ ds
      → l' ≡ cs ++ s ∷ ds
      → AllDisjoint order l
      → AllDisjoint order l'
  relocate s ws bs cs ds from same to a =
      let (others, rest) = AllDisjoint-out order s ws bs (subst (AllDisjoint order) from a) in
      subst (AllDisjoint order) (sym to) (
        AllDisjoint-in order s cs ds (subst (Each (Disjoint order s)) same others)
          (subst (AllDisjoint order) same rest))

  -- A slab moves from one of the three lists to the beginning of another.
  pub second_to_third :
      (s : ℕ) (xs pre post zs : List ℕ)
      → AllDisjoint order (xs ++ ((pre ++ s ∷ post) ++ zs))
      → AllDisjoint order (xs ++ ((pre ++ post) ++ s ∷ zs))
  second_to_third s xs pre post zs =
      relocate s (xs ++ pre) (post ++ zs) (xs ++ (pre ++ post)) zs (simp append_assoc refl)
        (simp append_assoc refl) (simp append_assoc refl)

  pub first_to_second :
      (s : ℕ) (pre post ys zs : List ℕ)
      → AllDisjoint order ((pre ++ s ∷ post) ++ (ys ++ zs))
      → AllDisjoint order ((pre ++ post) ++ ((s ∷ ys) ++ zs))
  first_to_second s pre post ys zs =
      relocate s pre (post ++ (ys ++ zs)) (pre ++ post) (ys ++ zs) (simp append_assoc refl)
        (simp append_assoc refl) (simp append_assoc refl)

  pub second_to_first :
      (s : ℕ) (xs pre post zs : List ℕ)
      → AllDisjoint order (xs ++ ((pre ++ s ∷ post) ++ zs))
      → AllDisjoint order ((s ∷ xs) ++ ((pre ++ post) ++ zs))
  second_to_first s xs pre post zs =
      relocate s (xs ++ pre) (post ++ zs) [] (xs ++ ((pre ++ post) ++ zs)) (simp append_assoc refl)
        (simp append_assoc refl) refl

  pub third_to_second :
      (s : ℕ) (xs ys pre post : List ℕ)
      → AllDisjoint order (xs ++ (ys ++ (pre ++ s ∷ post)))
      → AllDisjoint order (xs ++ ((s ∷ ys) ++ (pre ++ post)))
  third_to_second s xs ys pre post =
      relocate s (xs ++ (ys ++ pre)) post xs (ys ++ (pre ++ post)) (simp append_assoc refl)
        (simp append_assoc refl) refl
