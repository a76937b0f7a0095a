-- ===== src/Shashtbl/Cut.antt =====
-- A node of a chain of target_spw/shashtbl.c is taken out of it.
use mathlib.Core.Path.{subst}
use crypto_jasmine.Base.{
  ℕ, zero, suc, ◌≤◌, ◌≡◌, ◌≢◌, inl, inr, sym, ap, ◌∙◌, arith, some, List, [], ◌∷◌, length, ◌==◌,
  if◌then◌else◌, upd, upd-same, upd-other, Eq-cases, ==-ne, ==-refl,
}
use crypto_jasmine.Shashtbl.Table.{Hashnode, find_prev}
use crypto_jasmine.Shashtbl.Chain.{Chain, Outside, first_with, Chain-upd}

-- No address is in the list twice.
abbrev pub Apart : List ℕ → Type 0
Apart [] = Unit {0}
Apart (x ∷ xs) = Outside x xs × Apart xs

-- The list without the first node with the key, and the address before that node.
abbrev pub without : (ℕ → Hashnode) → ℕ → List ℕ → List ℕ
without node key [] = []
without node key (x ∷ xs) = if (node x).key == key then xs else x ∷ without node key xs

abbrev pub prev_of : (ℕ → Hashnode) → (key prev : ℕ) → List ℕ → ℕ
prev_of node key prev [] = prev
prev_of node key prev (x ∷ xs) = if (node x).key == key then prev else prev_of node key x xs

pub find_prev-prev_of :
    (n : ℕ) (node : ℕ → Hashnode) (key prev a : ℕ) (xs : List ℕ)
    → Chain node a xs
    → length xs ≤ n
    → find_prev n node key prev a ≡ some (prev_of node key prev xs, first_with node key xs)
unfolding find_prev
find_prev-prev_of zero node key prev a [] c h = rw c
find_prev-prev_of zero node key prev a (x ∷ xs) c h = absurd (omega arith)
find_prev-prev_of (suc n) node key prev a [] c h = rw c
find_prev-prev_of (suc n) node key prev a (x ∷ xs) (e, pos, c) h =
    let rest = find_prev-prev_of n node key x (node x).next xs c (omega arith) in
    elim (Eq-cases (node x).key key) [
      | inl found ↦ rw (e, ==-ne x 0 pos, found, ==-refl key)
      | inr other ↦ rw (e, ==-ne x 0 pos, ==-ne (node x).key key other, rest)
    ]

prev_of-ne :
    (node : ℕ → Hashnode) (key x y : ℕ) (ys : List ℕ)
    → Outside x (y ∷ ys)
    → prev_of node key y ys ≢ x
prev_of-ne node key x y [] (ne, out) e = ne e
prev_of-ne node key x y (z ∷ zs) (ne, out) e = elim (Eq-cases (node z).key key) [
  | inl found ↦ ne (sym (rw (found, ==-refl key)) ∙ e)
  | inr other ↦ prev_of-ne node key x z zs out (sym (rw (==-ne (node z).key key other)) ∙ e)
]

-- `prev->next = node->next`
abbrev pub bypass : (ℕ → Hashnode) → (p a : ℕ) → ℕ → Hashnode
bypass node p a = upd node p (record (node p) { next = (node a).next })

pub bypass-Chain :
    (node : ℕ → Hashnode) (key b x p a : ℕ) (xs : List ℕ)
    → Chain node b (x ∷ xs)
    → Apart (x ∷ xs)
    → prev_of node key x xs ≡ p
    → first_with node key xs ≡ a
    → a ≢ 0
    → Chain (bypass node p a) b (x ∷ without node key xs)
bypass-Chain node key b x p a [] c apart ep ea found = absurd (found (sym ea))
bypass-Chain node key b x p a (y ∷ ys) (e, pos, (at, pos', c)) ((ne, out), apart) ep ea found =
    elim (Eq-cases (node y).key key) [
      | inl here ↦
          let is_x : x ≡ p = sym (rw (here, ==-refl key)) ∙ ep in
          let is_y : y ≡ a = sym (rw (here, ==-refl key)) ∙ ea in
          let tail : ys ≡ without node key (y ∷ ys) = rw (here, ==-refl key) in
          let new : Hashnode = record (node x) { next = (node y).next } in
          let goes : (bypass node x y x).next ≡ (node y).next =
            ap (λ n. n.next) (upd-same node x new) in
          let cut : Chain (bypass node x y) b (x ∷ ys) = (
            e,
            pos,
            subst (λ m. Chain (bypass node x y) m ys) (sym goes)
                (Chain-upd node x new (node y).next ys out c),
          ) in
          subst (λ q. Chain (bypass node q a) b (x ∷ without node key (y ∷ ys))) is_x
            (subst (λ r. Chain (bypass node x r) b (x ∷ without node key (y ∷ ys))) is_y
              (subst (λ zs. Chain (bypass node x y) b (x ∷ zs)) tail cut))
      | inr later ↦
          let ep' : prev_of node key y ys ≡ p = sym (rw (==-ne (node y).key key later)) ∙ ep in
          let ea' : first_with node key ys ≡ a = sym (rw (==-ne (node y).key key later)) ∙ ea in
          let tail : y ∷ without node key ys ≡ without node key (y ∷ ys) =
            rw (==-ne (node y).key key later) in
          let rest =
            bypass-Chain node key (node x).next y p a ys (at, pos', c) apart ep' ea' found in
          let stays : (bypass node p a x).next ≡ (node x).next =
            ap (λ n. n.next)
              (upd-other node (record (node p) { next = (node a).next })
                (λ z. prev_of-ne node key x y ys (ne, out) (ep' ∙ sym z))) in
          subst (λ zs. Chain (bypass node p a) b (x ∷ zs)) tail
            (
              e,
              pos,
              subst (λ m. Chain (bypass node p a) m (y ∷ without node key ys)) (sym stays) rest,
            )
    ]
