-- ===== src/Greedy/DefectExamples.antt =====
-- `build_bad_blk_list` and `ftl_open` of ftl_greedy/ftl.c at lists with an entry and at lists that are
-- refused.
use crypto_jasmine.Base.{
  ℕ, zero, suc, ◌+◌, ◌-◌, ◌/◌, ◌≤◌, ◌<◌, ◌≡◌, ◌≢◌, inl, inr, ◌↔◌, refl, ap, sym, ◌∙◌, arith, true,
  false, ◌==◌, if◌then◌else◌, Bool-cases, Eq-cases, ==-ne, ==-refl, some,
}
use crypto_jasmine.Base.Geometry.{num_banks, vblks_per_bank, mapblks_per_bank}
use crypto_jasmine.Greedy.State.{vc_max}
use crypto_jasmine.Greedy.Format.{Ssd}
use crypto_jasmine.Greedy.Scan.{ScanList, Search, build_bad_blk_list}
use crypto_jasmine.Greedy.Valid.{in_use}
use crypto_jasmine.Greedy.Next.{in_use-all, in_use-tail}
use crypto_jasmine.Greedy.Erased.{mark}
use crypto_jasmine.Greedy.Flushed.{Saves}
use crypto_jasmine.Greedy.Listed.{Searches, Trusted, entry}
use crypto_jasmine.Greedy.Defects.{
  build_bad_blk_list-Trusted, build_bad_blk_list-Refused, count-all,
}
use crypto_jasmine.Greedy.Open.{ftl_open}
use crypto_jasmine.Greedy.Refine.{Idle}
use crypto_jasmine.Greedy.Reserved.{Reserved}
use crypto_jasmine.Greedy.Start.{empty, ftl_open-Idle}
use crypto_jasmine.Greedy.Examples.{ssd}

-- A memory utility that looks at one word after the other
unfoldable first_equ : (n i val : ℕ) → (ℕ → ℕ) → ℕ
first_equ zero i val words = i
first_equ (suc n) i val words =
    let rest : ℕ = first_equ n (i + 1) val words in if words i == val then i else rest

first_equ-found :
    (n i val : ℕ) (words : ℕ → ℕ)
    → first_equ n i val words < i + n
    → (j : ℕ) × (i ≤ j) × (j < i + n) × (words j ≡ val)
unfolding first_equ
first_equ-found zero i val words lt = absurd (omega arith)
first_equ-found (suc n) i val words lt = elim (Eq-cases (words i) val) [
  | inl here ↦ (i, omega arith, omega arith, here)
  | inr other ↦
      let below : first_equ n (i + 1) val words < i + 1 + n =
        omega (arith, rw (==-ne (words i) val other) at lt) in
      let (j, lo, hi, e) = first_equ-found n (i + 1) val words below in
      (j, omega arith, omega arith, e)
]

first_equ-finds :
    (n i val j : ℕ) (words : ℕ → ℕ)
    → i ≤ j
    → j < i + n
    → words j ≡ val
    → first_equ n i val words < i + n
unfolding first_equ
first_equ-finds zero i val j words lo hi e = absurd (omega arith)
first_equ-finds (suc n) i val j words lo hi e = elim (Eq-cases (words i) val) [
  | inl here ↦ rw (here, ==-refl val) (omega arith)
  | inr other ↦ elim (Eq-cases i j) [
    | inl at ↦ absurd (other (ap words at ∙ e))
    | inr behind ↦
        let rest = first_equ-finds n (i + 1) val j words (ground arith) (omega arith) e in
        rw (==-ne (words i) val other) (omega (arith, rest))
  ]
]

abbrev search : Search
search n val words = first_equ n 0 val words

search-Searches : Searches search
search-Searches = record {
  found = λ n val words lt.
      let (j, lo, hi, e) = first_equ-found n 0 val words (omega arith) in (j, omega arith, e);
  finds = λ n val j words lt e.
      let f = first_equ-finds n 0 val j words (omega arith) (omega arith) e in omega (arith, f);
}

-- One bad block: entry 10, with its top bit set
abbrev one_bad : ℕ → ScanList
one_bad b = record { num_entries = 1; list = λ i. 0x800A }

one_bad-Trusted : (b : ℕ) → Trusted false (one_bad b)
one_bad-Trusted b = record {
  clean = refl;
  short = omega arith;
  blocks = λ i lt. (omega arith, omega arith);
}

build_bad_blk_list-Trusted_example :
    let d = build_bad_blk_list search (λ b. false) one_bad ssd in
    ((d.bad 3 5 ≡ true) ↔ ((i : ℕ) × (i < 1) × (entry (one_bad 3) i / 2 ≡ 5)))
    × (d.bad_cnt 3 + in_use (vblks_per_bank - 1) (mark d 3) 0 ≡ vblks_per_bank - 1)
build_bad_blk_list-Trusted_example =
    build_bad_blk_list-Trusted search (λ b. false) one_bad ssd search-Searches 3 5 (omega arith)
      (omega arith) (omega arith) (one_bad-Trusted 3)

-- A page that cannot be read
abbrev garbage : ℕ → ScanList
garbage b = record { num_entries = 9; list = λ i. 0 }

build_bad_blk_list-Refused_example :
    ((build_bad_blk_list search (λ b. true) garbage ssd).bad 3 4 ≡ true) ↔ (9 / 2 ≡ 4)
build_bad_blk_list-Refused_example =
    build_bad_blk_list-Refused search (λ b. true) garbage ssd search-Searches 3 4 (omega arith)
      (omega arith) (omega arith) (inl refl)

abbrev with_bad : Ssd ℕ
with_bad = build_bad_blk_list search (λ b. false) one_bad ssd

others-good :
    (b u : ℕ) → b < num_banks → 0 < u → u < vblks_per_bank → u ≢ 5 → with_bad.bad b u ≡ false
others-good b u hb lo hi ne = elim (Bool-cases (with_bad.bad b u)) [
  | inl is_bad ↦
      let (iff, all) =
        build_bad_blk_list-Trusted search (λ b. false) one_bad ssd search-Searches b u hb lo hi
          (one_bad-Trusted b) in
      let (i, lt, e) = iff.0 is_bad in absurd (ne (sym e))
  | inr is_good ↦ is_good
]

few-bad : (b : ℕ) → b < num_banks → with_bad.bad_cnt b + mapblks_per_bank + 4 ≤ vblks_per_bank
few-bad b hb =
    let behind : in_use 2000 (mark with_bad b) 75 ≡ 2000 =
      in_use-all 2000 (mark with_bad b) 75 (λ u lo hi e.
        let g = others-good b u hb (omega arith) (omega arith) (λ five. absurd (omega arith)) in
        let z : mark with_bad b u ≡ 0 = ap (λ x. if x then vc_max else 0) g in
        absurd (omega arith)) in
    let some_good = in_use-tail 75 2000 (mark with_bad b) 0 in
    let all = count-all search (λ b. false) one_bad ssd b hb in
    omega (arith, behind, some_good, all)

ftl_open-Idle_example :
    (d : Ssd ℕ) × (ftl_open search (λ b. false) one_bad 255 ssd ≡ some d)
    × Idle 255 d.ftl empty
    × ((l : ℕ) → d.ftl.page_map l ≡ 0)
    × Saves d d
    × Reserved d
ftl_open-Idle_example =
    ftl_open-Idle search (λ b. false) one_bad ssd 255
      (λ b h. others-good b 1 h (omega arith) (omega arith) (omega arith)) few-bad (λ b h. refl)
