-- ===== src/Shashtbl/Remove.antt =====
-- Searches of target_spw/shashtbl.c in a chain without one of its nodes.
use crypto_jasmine.Base.{
  ℕ, ◌≤◌, ◌≡◌, ◌≢◌, inl, inr, refl, sym, arith, List, [], ◌∷◌, length, upd, Eq-cases, ==-ne,
  ==-refl,
}
use crypto_jasmine.Shashtbl.Table.{Hashnode}
use crypto_jasmine.Shashtbl.Chain.{Chain, Outside, first_with, first_with-ne, value}
use crypto_jasmine.Shashtbl.Cut.{Apart, without}

pub length-without :
    (node : ℕ → Hashnode) (key : ℕ) (xs : List ℕ) → length (without node key xs) ≤ length xs
length-without node key [] = omega arith
length-without node key (x ∷ xs) = ground (arith, length-without node key xs)

pub Outside-without :
    (node : ℕ → Hashnode) (key z : ℕ) (xs : List ℕ) → Outside z xs → Outside z (without node key xs)
Outside-without node key z [] out = out
Outside-without node key z (x ∷ xs) (ne, out) = elim (Eq-cases (node x).key key) [
  | inl found ↦ rw (found, ==-refl key) out
  | inr other ↦ rw (==-ne (node x).key key other) (ne, Outside-without node key z xs out)
]

-- The node that is taken out is not in the rest.
pub Outside-first_with :
    (node : ℕ → Hashnode) (key b : ℕ) (xs : List ℕ)
    → Chain node b xs
    → Apart xs
    → Outside (first_with node key xs) (without node key xs)
Outside-first_with node key b [] c apart = apart
Outside-first_with node key b (x ∷ xs) (e, pos, c) (out, apart) = elim (Eq-cases (node x).key key) [
  | inl found ↦ rw (found, ==-refl key) out
  | inr other ↦ rw (==-ne (node x).key key other) (
    (λ z. first_with-ne node x key xs pos out (sym z)),
    Outside-first_with node key (node x).next xs c apart,
  )
]

-- Nodes that agree but for their links are searched alike.
abbrev pub Alike : (f g : ℕ → Hashnode) → Type 0
Alike f g = (y : ℕ) → ((f y).key ≡ (g y).key) × ((f y).content ≡ (g y).content)

first_with-Alike :
    (f g : ℕ → Hashnode) (key : ℕ) (xs : List ℕ)
    → Alike f g
    → first_with f key xs ≡ first_with g key xs
first_with-Alike f g key [] same = refl
first_with-Alike f g key (x ∷ xs) same = rw ((same x).0, first_with-Alike f g key xs same)

pub value-Alike :
    (f g : ℕ → Hashnode) (key : ℕ) (xs : List ℕ) → Alike f g → value f key xs ≡ value g key xs
value-Alike f g key xs same = rw (first_with-Alike f g key xs same, (same (first_with g key xs)).1)

-- Another key is where it was.
first_with-without :
    (node : ℕ → Hashnode) (key k : ℕ) (xs : List ℕ)
    → k ≢ key
    → first_with node k (without node key xs) ≡ first_with node k xs
first_with-without node key k [] ne = refl
first_with-without node key k (x ∷ xs) ne = elim (Eq-cases (node x).key key) [
  | inl found ↦ rw (found, ==-refl key, ==-ne key k (λ e. ne (sym e)))
  | inr other ↦ rw (==-ne (node x).key key other, first_with-without node key k xs ne)
]

pub value-without :
    (node : ℕ → Hashnode) (key k : ℕ) (xs : List ℕ)
    → k ≢ key
    → value node k (without node key xs) ≡ value node k xs
value-without node key k xs ne = rw (first_with-without node key k xs ne)

pub relink-Alike :
    (node : ℕ → Hashnode) (p next : ℕ) → Alike (upd node p (record (node p) { next = next })) node
relink-Alike node p next y = elim (Eq-cases y p) [
  | inl same ↦ rw (same, ==-refl p) (refl, refl)
  | inr other ↦ rw (==-ne y p other) (refl, refl)
]
