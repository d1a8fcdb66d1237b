-- ===== src/Slab/Disjoint.antt =====
-- Slabs that share no byte, and lists of such.
use sys_prog.Prelude.{ℕ, ◌+◌, ◌<◌, ◌≤◌, ◌≡◌, ◌≢◌, refl, arith, List, [], ◌∷◌, ◌++◌, ◌⊎◌, inl, inr}
use sys_prog.Slab.{slab_size, get_slab_header}
use sys_prog.Slab.Sizes.{page-slab_size}
use sys_prog.Slab.Links.{Apart, ApartFrom, AllApart}
use sys_prog.Slab.Move.{ListsApart, NoLink}

unfoldable pub Each : (ℕ → Type 0) → List ℕ → Type 0
Each P [] = Unit
Each P (s ∷ ss) = P s × Each P ss

pub Each-map : {P Q : ℕ → Type 0} (l : List ℕ) → ((s : ℕ) → P s → Q s) → Each P l → Each Q l
unfolding Each
Each-map [] f e = tt
Each-map (s ∷ ss) f (this, e) = (f s this, Each-map ss f e)

pub Each-map2 :
    {P Q R : ℕ → Type 0} (l : List ℕ) → ((s : ℕ) → P s → Q s → R s) → Each P l → Each Q l → Each R l
unfolding Each
Each-map2 [] f e g = tt
Each-map2 (s ∷ ss) f (this, e) (that, g) = (f s this that, Each-map2 ss f e g)

pub Each-split : (P : ℕ → Type 0) (xs ys : List ℕ) → Each P (xs ++ ys) → Each P xs × Each P ys
unfolding Each
Each-split P [] ys e = (tt, e)
Each-split P (x ∷ xs) ys (this, e) = let (l, r) = Each-split P xs ys e in ((this, l), r)

pub Each-append : (P : ℕ → Type 0) (xs ys : List ℕ) → Each P xs → Each P ys → Each P (xs ++ ys)
unfolding Each
Each-append P [] ys e g = g
Each-append P (x ∷ xs) ys (this, e) g = (this, Each-append P xs ys e g)

pub Each-at :
    (P : ℕ → Type 0) (pre : List ℕ) (s : ℕ) (post : List ℕ) → Each P (pre ++ s ∷ post) → P s
unfolding Each
Each-at P [] s post e = e.0
Each-at P (q ∷ pre) s post e = Each-at P pre s post e.1

pub Each-without :
    (P : ℕ → Type 0) (pre : List ℕ) (s : ℕ) (post : List ℕ)
    → Each P (pre ++ s ∷ post)
    → Each P (pre ++ post)
unfolding Each
Each-without P [] s post e = e.1
Each-without P (q ∷ pre) s post e = (e.0, Each-without P pre s post e.1)

pub Each-with :
    (P : ℕ → Type 0) (pre : List ℕ) (s : ℕ) (post : List ℕ)
    → P s
    → Each P (pre ++ post)
    → Each P (pre ++ s ∷ post)
unfolding Each
Each-with P [] s post h e = (h, e)
Each-with P (q ∷ pre) s post h e = (e.0, Each-with P pre s post h e.1)

pub Each-cons : (P : ℕ → Type 0) (s : ℕ) (l : List ℕ) → P s → Each P l → Each P (s ∷ l)
unfolding Each
Each-cons P s l h e = (h, e)

module _ (order : ℕ) where
  abbrev pub Disjoint : ℕ → ℕ → Type 0
  Disjoint s t = (s + slab_size order ≤ t) ⊎ (t + slab_size order ≤ s)

  unfoldable pub AllDisjoint : List ℕ → Type 0
  AllDisjoint [] = Unit
  AllDisjoint (s ∷ ss) = Each (Disjoint s) ss × AllDisjoint ss

  pub Disjoint-sym : {s t : ℕ} → Disjoint s t → Disjoint t s
  Disjoint-sym (inl h) = inr h
  Disjoint-sym (inr h) = inl h

  pub Disjoint-Apart : {s t : ℕ} → Disjoint s t → Apart s t
  Disjoint-Apart (inl h) = let page = page-slab_size order in inl (omega arith)
  Disjoint-Apart (inr h) = let page = page-slab_size order in inr (omega arith)

  pub Disjoint-differ : {s t : ℕ} → Disjoint s t → s ≢ t
  Disjoint-differ (inl h) e = let page = page-slab_size order in omega arith
  Disjoint-differ (inr h) e = let page = page-slab_size order in omega arith

  Each-ApartFrom : (s : ℕ) (ts : List ℕ) → Each (Disjoint s) ts → ApartFrom s ts
  unfolding Each ApartFrom
  Each-ApartFrom s [] e = tt
  Each-ApartFrom s (t ∷ ts) (this, e) = (Disjoint-Apart this, Each-ApartFrom s ts e)

  pub AllDisjoint-AllApart : (ss : List ℕ) → AllDisjoint ss → AllApart ss
  unfolding AllDisjoint AllApart
  AllDisjoint-AllApart [] a = tt
  AllDisjoint-AllApart (s ∷ ss) (this, a) = (Each-ApartFrom s ss this, AllDisjoint-AllApart ss a)

  all_empty : (ys : List ℕ) → Each (λ y. Each (Disjoint y) []) ys
  unfolding Each
  all_empty [] = tt
  all_empty (y ∷ ys) = (tt, all_empty ys)

  -- Two lists of slabs that are disjoint from each other, in both directions.
  pub AllDisjoint-split :
      (xs ys : List ℕ)
      → AllDisjoint (xs ++ ys)
      → AllDisjoint xs
        × AllDisjoint ys
        × Each (λ x. Each (Disjoint x) ys) xs
        × Each (λ y. Each (Disjoint y) xs) ys
  unfolding AllDisjoint Each
  AllDisjoint-split [] ys a = (tt, a, tt, all_empty ys)
  AllDisjoint-split (x ∷ xs) ys (this, a) =
      let (l, r, there, back) = AllDisjoint-split xs ys a in
      let (in_xs, in_ys) = Each-split (Disjoint x) xs ys this in
      (
        (in_xs, l),
        r,
        (in_ys, there),
        Each-map2 {P = Disjoint x} {Q = λ y. Each (Disjoint y) xs}
            {R = λ y. Each (Disjoint y) (x ∷ xs)} ys (λ y d e. (Disjoint-sym d, e)) in_ys back,
      )

  pub Each-ListsApart : (xs ys : List ℕ) → Each (λ x. Each (Disjoint x) ys) xs → ListsApart xs ys
  unfolding Each ListsApart
  Each-ListsApart [] ys e = tt
  Each-ListsApart (x ∷ xs) ys (this, e) = (Each-ApartFrom x ys this, Each-ListsApart xs ys e)

  -- The slab in the middle is disjoint from the others, wherever it stands.
  pub AllDisjoint-out :
      (s : ℕ) (xs ys : List ℕ)
      → AllDisjoint (xs ++ s ∷ ys)
      → Each (Disjoint s) (xs ++ ys) × AllDisjoint (xs ++ ys)
  unfolding AllDisjoint Each
  AllDisjoint-out s [] ys a = a
  AllDisjoint-out s (x ∷ xs) ys (this, a) =
      let (from_s, rest) = AllDisjoint-out s xs ys a in
      let (l, r) = Each-split (Disjoint x) xs (s ∷ ys) this in
      ((Disjoint-sym r.0, from_s), (Each-append (Disjoint x) xs ys l r.1, rest))

  pub AllDisjoint-in :
      (s : ℕ) (xs ys : List ℕ)
      → Each (Disjoint s) (xs ++ ys)
      → AllDisjoint (xs ++ ys)
      → AllDisjoint (xs ++ s ∷ ys)
  unfolding AllDisjoint Each
  AllDisjoint-in s [] ys e a = (e, a)
  AllDisjoint-in s (x ∷ xs) ys (this, e) (from_x, a) =
      let (l, r) = Each-split (Disjoint x) xs ys from_x in
      (Each-append (Disjoint x) xs (s ∷ ys) l (Disjoint-sym this, r), AllDisjoint-in s xs ys e a)

  -- A word of a slab up to its header's amount is no link of it, nor of slabs disjoint from it.
  pub word-NoLink :
      (s x : ℕ) (l : List ℕ)
      → s ≤ x
      → x < get_slab_header s order + 16
      → Each (λ t. (s ≡ t) ⊎ Disjoint s t) l
      → NoLink order x l
  unfolding Each NoLink get_slab_header
  word-NoLink s x [] le less e = tt
  word-NoLink s x (t ∷ l) le less (this, e) =
      let page = page-slab_size order in
      let rest = word-NoLink s x l le less e in
      elim this [
        | inl same ↦ ((λ z. omega arith), (λ z. omega arith), rest)
        | inr (inl before) ↦ ((λ z. omega arith), (λ z. omega arith), rest)
        | inr (inr behind) ↦ ((λ z. omega arith), (λ z. omega arith), rest)
      ]

  pub all_related :
      (l : List ℕ) → AllDisjoint l → Each (λ s. Each (λ t. (s ≡ t) ⊎ Disjoint s t) l) l
  unfolding AllDisjoint Each
  all_related [] a = tt
  all_related (s ∷ l) (this, a) = (
    (inl refl, Each-map l (λ t d. inr d) this),
    Each-map2 {P = Disjoint s} {Q = λ u. Each (λ t. (u ≡ t) ⊎ Disjoint u t) l}
        {R = λ u. Each (λ t. (u ≡ t) ⊎ Disjoint u t) (s ∷ l)} l (λ u d e. (inr (Disjoint-sym d), e))
        this (all_related l a),
  )
