-- ===== src/Proxy/Resource.antt =====
-- Which part of the URL is asked for.
use sys_prog.Prelude.{
  ℕ, suc, ◌+◌, ◌≡◌, refl, sym, ap, ◌∙◌, true, false, ◌&&◌, not, none, some, List, [], ◌∷◌, ◌++◌,
  take, drop, length, arith, same_text, take-drop_append, Bool-cases, Option-cases, ◌⊎◌, inl, inr,
}
use sys_prog.Proxy.Text.{find}
use sys_prog.Proxy.Request.{none_text, is_none, resource_of}

same_text-eq : (s t : List ℕ) → same_text s t ≡ true → s ≡ t
same_text-eq [] [] h = refl
same_text-eq [] (d ∷ ds) h = absurd (ground arith)
same_text-eq (c ∷ cs) [] h = absurd (ground arith)
same_text-eq (c ∷ cs) (d ∷ ds) h =
    let head : c ≡ d = ground arith in
    let rest : same_text cs ds ≡ true = ground arith in rw (head, same_text-eq cs ds rest) refl

find-here :
    (pat text : List ℕ)
    → same_text pat (take (length pat) text) ≡ true
    → pat ++ drop (length pat) text ≡ text
find-here pat text h =
    ap (λ t. t ++ drop (length pat) text) (same_text-eq pat _ h)
    ∙ take-drop_append (length pat) text

find-nil : (pat : List ℕ) (i : ℕ) → find pat [] ≡ some i → (pat ≡ []) × (i ≡ 0)
unfolding find
find-nil pat i h = elim (Bool-cases (same_text pat [])) [
  | inl same ↦
      (same_text-eq pat [] same, let e : some 0 ≡ some i = sym (rw same refl) ∙ h in ground arith)
  | inr other ↦ absurd (let e : none ≡ some i = sym (rw other refl) ∙ h in ground arith)
]

find-cons :
    (pat : List ℕ) (c : ℕ) (cs : List ℕ) (i : ℕ)
    → find pat (c ∷ cs) ≡ some i
    → ((same_text pat (take (length pat) (c ∷ cs)) ≡ true) × (i ≡ 0))
      ⊎ ((j : ℕ) × (find pat cs ≡ some j) × (i ≡ suc j))
unfolding find
find-cons pat c cs i h = elim (Bool-cases (same_text pat (take (length pat) (c ∷ cs)))) [
  | inl here ↦ inl (here, let e : some 0 ≡ some i = sym (rw here refl) ∙ h in ground arith)
  | inr later ↦ elim (Option-cases (find pat cs)) [
    | inl none_left ↦
        absurd (let e : none ≡ some i = sym (rw (later, none_left) refl) ∙ h in ground arith)
    | inr (j, found) ↦
        inr (
          j,
          found,
          let e : some (suc j) ≡ some i = sym (rw (later, found) refl) ∙ h in ground arith,
        )
  ]
]

-- Where a text is found, it stands.
pub find-split :
    (pat text : List ℕ) (i : ℕ)
    → find pat text ≡ some i
    → take i text ++ (pat ++ drop (i + length pat) text) ≡ text
find-split pat [] i h = let (e, z) = find-nil pat i h in rw (e, z) refl
find-split pat (c ∷ cs) i h = elim (find-cons pat c cs i h) [
  | inl (here, e) ↦
      let none_before : 0 + length pat ≡ length pat = omega arith in
      rw (e, none_before) (find-here pat (c ∷ cs) here)
  | inr (j, found, e) ↦
      let next : suc j + length pat ≡ suc (j + length pat) = omega arith in
      rw (e, next) (ap (λ t. c ∷ t) (find-split pat cs j found))
]

find-none : (pat text : List ℕ) → find pat text ≡ none → resource_of text pat ≡ none_text
unfolding resource_of
find-none pat text h = elim (Bool-cases (not (is_none text) && not (is_none pat))) [
  | inl known ↦ rw (known, h) refl
  | inr unknown ↦ rw unknown refl
]

-- What sendRequest asks the server for, where the URL and the host are known and it is not refused:
-- the rest of the URL behind the first place at which the host stands in it.
pub resource_of-url :
    (url host : List ℕ)
    → is_none url ≡ false
    → is_none host ≡ false
    → is_none (resource_of url host) ≡ false
    → (i : ℕ) × (find host url ≡ some i) × (take i url ++ (host ++ resource_of url host) ≡ url)
unfolding resource_of is_none
resource_of-url url host u h known = elim (Option-cases (find host url)) [
  | inl absent ↦ absurd (
      let e : is_none (resource_of url host) ≡ true = rw (find-none host url absent) refl in
      ground arith)
  | inr (i, found) ↦ (i, found, simp (u, h, found) (find-split host url i found))
]
