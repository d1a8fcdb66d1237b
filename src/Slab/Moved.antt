-- ===== src/Slab/Moved.antt =====
-- A slab that moves between lists of slabs of which no two share a byte: the lists and the words.
use sys_prog.Prelude.{ℕ, ◌<◌, ◌≡◌, arith, List, [], ◌∷◌, ◌++◌, inl, inr}
use sys_prog.Slab.{Memory, delete_slab_from_list, insert_slab_to_list}
use sys_prog.Slab.Links.{Linked}
use sys_prog.Slab.Move.{NoLink, move-Linked}
use sys_prog.Slab.FreeChunks.{FreeChunks, Fits}
use sys_prog.Slab.Disjoint.{Each, AllDisjoint-AllApart, Each-ListsApart, all_related}
use sys_prog.Slab.Holds.{NoHeader}
use sys_prog.Slab.Spread.{Spread, Across-Near, moved-words}

NoHeader-NoLink : (order x : ℕ) (l : List ℕ) → NoHeader order x l → NoLink order x l
unfolding Each NoLink
NoHeader-NoLink order x [] h = tt
NoHeader-NoLink order x (u ∷ l) (this, h) = elim this [
  | inl before ↦ ((λ e. omega arith), (λ e. omega arith), NoHeader-NoLink order x l h)
  | inr behind ↦ ((λ e. omega arith), (λ e. omega arith), NoHeader-NoLink order x l h)
]

module _ (order : ℕ) where
  pub rotate : (xs ys zs : List ℕ) → Spread order xs ys zs → Spread order ys zs xs
  rotate xs ys zs a = record {
    first = a.second;
    second = a.third;
    third = a.first;
    first_second = a.second_third;
    first_third = a.second_first;
    second_first = a.third_second;
    second_third = a.third_first;
    third_first = a.first_second;
    third_second = a.first_third;
  }

  pub swap : (xs ys zs : List ℕ) → Spread order xs ys zs → Spread order ys xs zs
  swap xs ys zs a = record {
    first = a.second;
    second = a.first;
    third = a.third;
    first_second = a.second_first;
    first_third = a.second_third;
    second_first = a.first_second;
    second_third = a.first_third;
    third_first = a.third_second;
    third_second = a.third_first;
  }

  -- The lists after a slab has moved from the first to the second, and the free chunks of a slab of
  -- any of them.
  pub record Moved (amount size : ℕ) (m m' : Memory) (fa fb fu : ℕ)
      (from to left arrived third : List ℕ) : Type 0 where
    pub of_from : Linked order m' 0 fa left
    pub of_to : Linked order m' 0 fb arrived
    pub of_third : Linked order m' 0 fu third
    pub from_words :
        (g : ℕ → List ℕ)
        → Each (λ u. FreeChunks amount size order m u (g u)) from
        → Each (λ u. FreeChunks amount size order m' u (g u)) from
    pub to_words :
        (g : ℕ → List ℕ)
        → Each (λ u. FreeChunks amount size order m u (g u)) to
        → Each (λ u. FreeChunks amount size order m' u (g u)) to
    pub frame : (x : ℕ) → NoHeader order x from → NoHeader order x to → m' x ≡ m x
    pub third_words :
        (g : ℕ → List ℕ)
        → Each (λ u. FreeChunks amount size order m u (g u)) third
        → Each (λ u. FreeChunks amount size order m' u (g u)) third

  pub move-Moved :
      (amount size : ℕ) (fits : Fits amount size order) (s fa fb fu : ℕ) (m : Memory)
      (pre post to third : List ℕ)
      → 0 < s
      → Spread order (pre ++ s ∷ post) to third
      → Linked order m 0 fa (pre ++ s ∷ post)
      → Linked order m 0 fb to
      → Linked order m 0 fu third
      → (let d = delete_slab_from_list fa s order m in
          let i = insert_slab_to_list fb s order d.1 in
          Moved amount size m i.1 d.0 i.0 fu (pre ++ s ∷ post) to (pre ++ post) (s ∷ to) third)
  move-Moved amount size fits s fa fb fu m pre post to third some_s a l_from l_to l_third =
      let from : List ℕ = pre ++ s ∷ post in
      let m' : Memory = (insert_slab_to_list fb s order (delete_slab_from_list fa s order m).1).1 in
      let (left, arrived, kept, frame) =
        move-Linked order s fa fb fu m pre post to third some_s l_from l_to l_third
          (AllDisjoint-AllApart order from a.first) (AllDisjoint-AllApart order to a.second)
          (Each-ListsApart order to from a.second_first)
          (Each-ListsApart order third from a.third_first)
          (Each-ListsApart order to third a.second_third) in
      record {
        of_from = left;
        of_to = arrived;
        of_third = kept;
        from_words = λ g.
            moved-words order amount size fits m m' from to from g frame
              (all_related order from a.first) (Across-Near order from to a.first_second);
        to_words = λ g.
            moved-words order amount size fits m m' from to to g frame
              (Across-Near order to from a.second_first) (all_related order to a.second);
        frame = λ x no_from no_to.
            frame x (NoHeader-NoLink order x from no_from) (NoHeader-NoLink order x to no_to);
        third_words = λ g.
            moved-words order amount size fits m m' from to third g frame
              (Across-Near order third from a.third_first)
              (Across-Near order third to a.third_second);
      }
