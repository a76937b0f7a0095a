-- ===== src/Shashtbl/Chain.antt =====
-- The chains of target_spw/shashtbl.c: a walk over one is a search of a list.
use crypto_jasmine.Base.{
  ℕ, zero, suc, ◌≤◌, ◌≡◌, ◌≢◌, inl, inr, refl, sym, ◌∙◌, arith, some, List, [], ◌∷◌, length, ◌==◌,
  if◌then◌else◌, upd, Eq-cases, ==-ne, ==-refl,
}
use crypto_jasmine.Shashtbl.Table.{Hashnode, invalid, find}

-- The nodes from `a` on are those at the addresses of the list.
abbrev pub Chain : (ℕ → Hashnode) → ℕ → List ℕ → Type 0
Chain node a [] = a ≡ 0
Chain node a (x ∷ xs) = (a ≡ x) × (x ≢ 0) × Chain node (node x).next xs

-- An address that is none of the list's.
abbrev pub Outside : ℕ → List ℕ → Type 0
Outside a [] = Unit {0}
Outside a (x ∷ xs) = (x ≢ a) × Outside a xs

-- The first node of the list with the key, or 0.
abbrev pub first_with : (ℕ → Hashnode) → ℕ → List ℕ → ℕ
first_with node key [] = 0
first_with node key (x ∷ xs) = if (node x).key == key then x else first_with node key xs

pub find-first_with :
    (n : ℕ) (node : ℕ → Hashnode) (key a : ℕ) (xs : List ℕ)
    → Chain node a xs
    → length xs ≤ n
    → find n node key a ≡ some (first_with node key xs)
unfolding find
find-first_with zero node key a [] c h = rw c
find-first_with zero node key a (x ∷ xs) c h = absurd (omega arith)
find-first_with (suc n) node key a [] c h = rw c
find-first_with (suc n) node key a (x ∷ xs) (e, pos, c) h =
    let rest = find-first_with n node key (node x).next xs c (omega arith) in
    elim (Eq-cases (node x).key key) [
      | inl found ↦ rw (e, ==-ne x 0 pos, found, ==-refl key)
      | inr other ↦ rw (e, ==-ne x 0 pos, ==-ne (node x).key key other, rest)
    ]

-- A write to a node outside of a chain leaves the chain and its search as they are.
pub Chain-upd :
    (node : ℕ → Hashnode) (a : ℕ) (new : Hashnode) (b : ℕ) (xs : List ℕ)
    → Outside a xs
    → Chain node b xs
    → Chain (upd node a new) b xs
Chain-upd node a new b [] out c = c
Chain-upd node a new b (x ∷ xs) (ne, out) (e, pos, c) =
    (e, pos, rw (==-ne x a ne) (Chain-upd node a new (node x).next xs out c))

pub first_with-upd :
    (node : ℕ → Hashnode) (a : ℕ) (new : Hashnode) (key : ℕ) (xs : List ℕ)
    → Outside a xs
    → first_with (upd node a new) key xs ≡ first_with node key xs
first_with-upd node a new key [] out = refl
first_with-upd node a new key (x ∷ xs) (ne, out) =
    rw (==-ne x a ne, first_with-upd node a new key xs out)

pub first_with-ne :
    (node : ℕ → Hashnode) (a key : ℕ) (xs : List ℕ)
    → a ≢ 0
    → Outside a xs
    → first_with node key xs ≢ a
first_with-ne node a key [] pos out e = pos (sym e)
first_with-ne node a key (x ∷ xs) pos (ne, out) e = elim (Eq-cases (node x).key key) [
  | inl found ↦ ne (sym (rw (found, ==-refl key)) ∙ e)
  | inr other ↦ first_with-ne node a key xs pos out (sym (rw (==-ne (node x).key key other)) ∙ e)
]

-- What a search returns: the content of the first node with the key, or INVALID.
abbrev pub value : (ℕ → Hashnode) → ℕ → List ℕ → ℕ
value node key xs =
    if first_with node key xs == 0 then invalid else (node (first_with node key xs)).content

pub value-upd :
    (node : ℕ → Hashnode) (a : ℕ) (new : Hashnode) (key : ℕ) (xs : List ℕ)
    → a ≢ 0
    → Outside a xs
    → value (upd node a new) key xs ≡ value node key xs
value-upd node a new key xs pos out = rw (
  first_with-upd node a new key xs out,
  ==-ne (first_with node key xs) a (first_with-ne node a key xs pos out),
)
