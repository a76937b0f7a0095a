-- ===== src/Greedy/Next.antt =====
-- The step to the next block of `assign_new_write_vpn` of ftl_greedy/ftl.c, and the count of the
-- blocks that are left.
use crypto_jasmine.Base.{
  ℕ, zero, suc, ◌+◌, ◌-◌, ◌≤◌, ◌<◌, ◌≡◌, ◌≢◌, inl, inr, refl, ◌∙◌, arith, some, Eq-cases, ==-ne,
}
use crypto_jasmine.Greedy.State.{vc_max}
use crypto_jasmine.Greedy.Write.{next_vblock}
use crypto_jasmine.Greedy.Valid.{in_use}

-- The next block in use behind `v`, of the `n` there.
pub record NextBlock (n : ℕ) (f : ℕ → ℕ) (v w : ℕ) : Type 0 where
  pub found : next_vblock n f v ≡ some w
  pub later : v < w
  pub within : w ≤ v + n
  pub used : f w ≢ vc_max
  pub skipped : (u : ℕ) → v < u → u < w → f u ≡ vc_max
  pub left : in_use n f v ≡ 1 + in_use (v + n - w) f w

NextBlock-behind :
    (n : ℕ) (f : ℕ → ℕ) (v w : ℕ)
    → f (v + 1) ≡ vc_max
    → NextBlock n f (v + 1) w
    → NextBlock (suc n) f v w
unfolding next_vblock in_use
NextBlock-behind n f v w unused r = record {
  found = rw unused (r.found);
  later = omega (arith, r.later);
  within = omega (arith, r.within);
  used = r.used;
  skipped = λ u lo hi. elim (Eq-cases u (v + 1)) [
    | inl here ↦ rw here unused
    | inr beyond ↦ r.skipped u (omega arith) hi
  ];
  left =
      let e : v + 1 + n - w ≡ v + suc n - w = omega arith in
      let same : in_use n f (v + 1) ≡ 1 + in_use (v + suc n - w) f w = r.left ∙ rw e refl in
      rw unused (omega arith);
}

pub next_vblock-NextBlock :
    (n : ℕ) (f : ℕ → ℕ) (v : ℕ) → 0 < in_use n f v → (w : ℕ) × NextBlock n f v w
unfolding next_vblock in_use
next_vblock-NextBlock zero f v h = absurd (omega arith)
next_vblock-NextBlock (suc n) f v h = elim (Eq-cases (f (v + 1)) vc_max) [
  | inl unused ↦
      let h' = rw unused at h in
      let (w, r) = next_vblock-NextBlock n f (v + 1) (omega arith) in
      (w, NextBlock-behind n f v w unused r)
  | inr use_it ↦ (
    v + 1,
    record {
      found = rw (==-ne (f (v + 1)) vc_max use_it) refl;
      later = omega arith;
      within = omega arith;
      used = use_it;
      skipped = λ u lo hi. absurd (omega arith);
      left =
          let e : v + suc n - (v + 1) ≡ n = omega arith in
          rw (==-ne (f (v + 1)) vc_max use_it, e) refl;
    },
  )
]

-- Where none is left, no block behind is in use.
pub in_use-none :
    (n : ℕ) (f : ℕ → ℕ) (v : ℕ) → in_use n f v ≡ 0 → (u : ℕ) → v < u → u ≤ v + n → f u ≡ vc_max
unfolding in_use
in_use-none zero f v e u lo hi = absurd (omega arith)
in_use-none (suc n) f v e u lo hi = elim (Eq-cases (f (v + 1)) vc_max) [
  | inl unused ↦
      let e' = rw unused at e in
      elim (Eq-cases u (v + 1)) [
        | inl here ↦ rw here unused
        | inr beyond ↦ in_use-none n f (v + 1) (omega arith) u (omega arith) (omega arith)
      ]
  | inr use_it ↦ absurd (let e' = rw (==-ne (f (v + 1)) vc_max use_it) at e in omega arith)
]

pub in_use-le : (n : ℕ) (f : ℕ → ℕ) (v : ℕ) → in_use n f v ≤ n
unfolding in_use
in_use-le zero f v = omega arith
in_use-le (suc n) f v = ground (arith, in_use-le n f (v + 1))

-- Counts that change leave a block in use.
pub in_use-same :
    (n : ℕ) (f g : ℕ → ℕ) (v : ℕ)
    → ((u : ℕ) → f u ≡ vc_max → g u ≡ vc_max)
    → ((u : ℕ) → g u ≡ vc_max → f u ≡ vc_max)
    → in_use n f v ≡ in_use n g v
unfolding in_use
in_use-same zero f g v to from = refl
in_use-same (suc n) f g v to from =
    ground (arith, in_use-same n f g (v + 1) to from, to (v + 1), from (v + 1))

-- The count depends on the blocks behind only.
pub in_use-agree :
    (n : ℕ) (f g : ℕ → ℕ) (v : ℕ)
    → ((u : ℕ) → v < u → u ≤ v + n → f u ≡ g u)
    → in_use n f v ≡ in_use n g v
unfolding in_use
in_use-agree zero f g v same = refl
in_use-agree (suc n) f g v same =
    rw
      (
        same (v + 1) (omega arith) (omega arith),
        in_use-agree n f g (v + 1) (λ u lo hi. same u (omega arith) (omega arith)),
      )
      refl

-- All are in use.
pub in_use-all :
    (n : ℕ) (f : ℕ → ℕ) (v : ℕ) → ((u : ℕ) → v < u → u ≤ v + n → f u ≢ vc_max) → in_use n f v ≡ n
unfolding in_use
in_use-all zero f v h = refl
in_use-all (suc n) f v h =
    rw
      (
        ==-ne (f (v + 1)) vc_max (h (v + 1) (omega arith) (omega arith)),
        in_use-all n f (v + 1) (λ u lo hi. h u (omega arith) (omega arith)),
      )
      (omega arith)

-- Those farther behind are some of those behind.
pub in_use-tail : (m n : ℕ) (f : ℕ → ℕ) (v : ℕ) → in_use n f (v + m) ≤ in_use (m + n) f v
unfolding in_use
in_use-tail zero n f v =
    let at : v + 0 ≡ v = omega arith in
    let all : 0 + n ≡ n = omega arith in rw (at, all) (omega arith)
in_use-tail (suc m) n f v =
    let rest = in_use-tail m n f (v + 1) in
    let at : v + suc m ≡ v + 1 + m = omega arith in
    let longer : suc m + n ≡ suc (m + n) = omega arith in rw (at, longer) (ground (arith, rest))
