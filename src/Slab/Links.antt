-- ===== src/Slab/Links.antt =====
-- The doubly linked lists of slabs: when a memory holds one, and what a write leaves of it.
use sys_prog.Prelude.{
  ℕ, ◌+◌, ◌<◌, ◌≤◌, ◌≡◌, ◌≢◌, ◌∙◌, sym, subst, arith, List, [], ◌∷◌, ◌⊎◌, inl, inr,
}
use sys_prog.Slab.{Memory, get_slab_header, next_slab, prev_slab}
use sys_prog.Slab.Sizes.{page-slab_size}

-- Two slabs that share no byte of their first pages.
abbrev pub Apart : ℕ → ℕ → Type 0
Apart s t = (s + 4096 ≤ t) ⊎ (t + 4096 ≤ s)

unfoldable pub ApartFrom : ℕ → List ℕ → Type 0
ApartFrom s [] = Unit
ApartFrom s (t ∷ ts) = Apart s t × ApartFrom s ts

unfoldable pub AllApart : List ℕ → Type 0
AllApart [] = Unit
AllApart (s ∷ ss) = ApartFrom s ss × AllApart ss

abbrev pub next_at : (order s : ℕ) → ℕ
next_at order s = next_slab (get_slab_header s order)

abbrev pub prev_at : (order s : ℕ) → ℕ
prev_at order s = prev_slab (get_slab_header s order)

-- The words of the slabs hold a list: from its first slab, behind a previous one or 0.
unfoldable pub Linked : (order : ℕ) → Memory → (prev first : ℕ) → List ℕ → Type 0
Linked order m p f [] = f ≡ 0
Linked order m p f (s ∷ ss) =
    (f ≡ s) × (0 < s) × (m (prev_at order s) ≡ p) × Linked order m s (m (next_at order s)) ss

pub Apart-sym : {s t : ℕ} → Apart s t → Apart t s
Apart-sym (inl h) = inr h
Apart-sym (inr h) = inl h

-- The words for the links of two slabs that are apart.
pub link_words :
    (order s t : ℕ)
    → Apart s t
    → (next_at order s ≢ next_at order t)
      × (next_at order s ≢ prev_at order t)
      × (prev_at order s ≢ next_at order t)
      × (prev_at order s ≢ prev_at order t)
unfolding get_slab_header
link_words order s t a =
    let page = page-slab_size order in
    elim a [
      | inl h ↦ ((λ e. omega arith), (λ e. omega arith), (λ e. omega arith), (λ e. omega arith))
      | inr h ↦ ((λ e. omega arith), (λ e. omega arith), (λ e. omega arith), (λ e. omega arith))
    ]

pub own_words : (order s : ℕ) → next_at order s ≢ prev_at order s
own_words order s e = omega arith

-- The links of the slabs are the same in two memories.
unfoldable pub SameLinks : (order : ℕ) → Memory → Memory → List ℕ → Type 0
SameLinks order m m' [] = Unit
SameLinks order m m' (s ∷ ss) =
    (m' (next_at order s) ≡ m (next_at order s))
    × (m' (prev_at order s) ≡ m (prev_at order s))
    × SameLinks order m m' ss

pub SameLinks-Linked :
    (order : ℕ) (m m' : Memory) (ss : List ℕ) (p f : ℕ)
    → SameLinks order m m' ss
    → Linked order m p f ss
    → Linked order m' p f ss
unfolding SameLinks Linked
SameLinks-Linked order m m' [] p f same l = l
SameLinks-Linked order m m' (s ∷ ss) p f (next, prev, same) (at, some_s, behind, l) = (
  at,
  some_s,
  prev ∙ behind,
  SameLinks-Linked order m m' ss s (m' (next_at order s)) same
      (subst (λ x. Linked order m s x ss) (sym next) l),
)

pub SameLinks-trans :
    (order : ℕ) (m1 m2 m3 : Memory) (ss : List ℕ)
    → SameLinks order m1 m2 ss
    → SameLinks order m2 m3 ss
    → SameLinks order m1 m3 ss
unfolding SameLinks
SameLinks-trans order m1 m2 m3 [] h g = tt
SameLinks-trans order m1 m2 m3 (s ∷ ss) (n, p, h) (n', p', g) =
    (n' ∙ n, p' ∙ p, SameLinks-trans order m1 m2 m3 ss h g)

-- A memory that changes links of a slab at most is the same for slabs apart from it.
abbrev pub ChangesOnly : (order : ℕ) → Memory → Memory → ℕ → Type 0
ChangesOnly order m m' t = (x : ℕ) → x ≢ next_at order t → x ≢ prev_at order t → m' x ≡ m x

pub ChangesOnly-SameLinks :
    (order : ℕ) (m m' : Memory) (t : ℕ) (ss : List ℕ)
    → ChangesOnly order m m' t
    → ApartFrom t ss
    → SameLinks order m m' ss
unfolding SameLinks ApartFrom
ChangesOnly-SameLinks order m m' t [] only a = tt
ChangesOnly-SameLinks order m m' t (s ∷ ss) only (apart, a) =
    let (nn, np, pn, pp) = link_words order s t (Apart-sym apart) in
    (
      only (next_at order s) nn np,
      only (prev_at order s) pn pp,
      ChangesOnly-SameLinks order m m' t ss only a,
    )
