-- ===== src/Greedy/Listed.antt =====
-- The scan lists of ftl_greedy/ftl.c: which blocks the search finds in them.
use crypto_jasmine.Base.{
  ℕ, zero, suc, ◌+◌, ◌*◌, ◌/◌, ◌%◌, ◌≤◌, ◌<◌, ◌≡◌, ◌≢◌, ◌⊎◌, inl, inr, ◌↔◌, refl, ap, sym, ◌∙◌,
  arith, Bool, true, false, ◌||◌, ltb, leb, ◌==◌, upd, Eq-cases, Bool-cases, ==-refl, ==-ne,
}
use mathlib.Core.Path.{subst}
use crypto_jasmine.Greedy.Scan.{
  ScanList, check_entries, read_scan_list, Search, words_of, is_listed, pblks_per_bank,
  scan_list_items,
}

-- The block of the bank that an entry names: its top bit does not count.
abbrev pub entry : ScanList → ℕ → ℕ
entry l i = l.list i % 0x8000

-- A list that the code trusts
pub record Trusted (corrupt : Bool) (l : ScanList) : Type 0 where
  pub clean : corrupt ≡ false
  pub short : l.num_entries ≤ scan_list_items
  pub blocks : (i : ℕ) → i < l.num_entries → (0 < entry l i) × (entry l i < pblks_per_bank)

-- A list that it does not trust: its page is corrupt, it is too long, or an entry is no block of
-- the bank.
abbrev pub Refused : Bool → ScanList → Type 0
Refused corrupt l =
    (corrupt ≡ true)
    ⊎ (scan_list_items < l.num_entries)
    ⊎ ((i : ℕ) × (i < l.num_entries) × ((entry l i ≡ 0) ⊎ (pblks_per_bank ≤ entry l i)))

-- What the memory utility promises: a search stops within the words if the value is one of them.
pub record Searches (search : Search) : Type 0 where
  pub found :
      (n val : ℕ) (words : ℕ → ℕ) → search n val words < n → (j : ℕ) × (j < n) × (words j ≡ val)
  pub finds : (n val j : ℕ) (words : ℕ → ℕ) → j < n → words j ≡ val → search n val words < n

check_entries-num :
    (n i : ℕ) (ok : Bool) (l : ScanList) → (check_entries n i ok l).1.num_entries ≡ l.num_entries
unfolding check_entries
check_entries-num zero i ok l = refl
check_entries-num (suc n) i ok l =
    elim (Bool-cases ((entry l i == 0) || leb pblks_per_bank (entry l i))) [
      | inl wrong ↦ rw wrong (check_entries-num n (i + 1) false l)
      | inr good ↦
          rw good (check_entries-num n (i + 1) ok (record l { list = upd (l.list) i (entry l i) }))
    ]

-- A list with a wrong entry stays wrong.
check_entries-false : (n i : ℕ) (l : ScanList) → (check_entries n i false l).0 ≡ false
unfolding check_entries
check_entries-false zero i l = refl
check_entries-false (suc n) i l =
    elim (Bool-cases ((entry l i == 0) || leb pblks_per_bank (entry l i))) [
      | inl wrong ↦ rw wrong (check_entries-false n (i + 1) l)
      | inr good ↦
          rw good (check_entries-false n (i + 1) (record l { list = upd (l.list) i (entry l i) }))
    ]

check_entries-wrong :
    (n i j : ℕ) (ok : Bool) (l : ScanList)
    → i ≤ j
    → j < i + n
    → (entry l j ≡ 0) ⊎ (pblks_per_bank ≤ entry l j)
    → (check_entries n i ok l).0 ≡ false
unfolding check_entries
check_entries-wrong zero i j ok l lo hi w = absurd (omega arith)
check_entries-wrong (suc n) i j ok l lo hi w =
    elim (Bool-cases ((entry l i == 0) || leb pblks_per_bank (entry l i))) [
      | inl wrong ↦ rw wrong (check_entries-false n (i + 1) l)
      | inr good ↦ elim (Eq-cases j i) [
        | inl here ↦ absurd (ground (arith, good, w, ap (entry l) here))
        | inr other ↦
            let l' : ScanList = record l { list = upd (l.list) i (entry l i) } in
            let same : entry l' j ≡ entry l j = rw (==-ne j i other) refl in
            rw good (
              check_entries-wrong n (i + 1) j ok l' (ground arith) (omega arith)
                (subst (λ x. (x ≡ 0) ⊎ (pblks_per_bank ≤ x)) (sym same) w))
      ]
    ]

-- The entries of a good list lose their top bit.
check_entries-Trusted :
    (n i : ℕ) (l : ScanList)
    → ((j : ℕ) → i ≤ j → j < i + n → (0 < entry l j) × (entry l j < pblks_per_bank))
    → ((check_entries n i true l).0 ≡ true)
      × ((j : ℕ) → i ≤ j → j < i + n → (check_entries n i true l).1.list j ≡ entry l j)
      × ((j : ℕ) → j < i → (check_entries n i true l).1.list j ≡ l.list j)
unfolding check_entries
check_entries-Trusted zero i l h = (refl, λ j lo hi. absurd (omega arith), λ j lt. refl)
check_entries-Trusted (suc n) i l h =
    let (pos, lt) = h i (omega arith) (omega arith) in
    let good : ((entry l i == 0) || leb pblks_per_bank (entry l i)) ≡ false =
      ground (arith, pos, lt) in
    let l' : ScanList = record l { list = upd (l.list) i (entry l i) } in
    let same : (j : ℕ) → j ≢ i → l'.list j ≡ l.list j = λ j ne. rw (==-ne j i ne) refl in
    let here : l'.list i ≡ entry l i = rw (==-refl i) refl in
    let (ok, cut, old) = check_entries-Trusted n (i + 1) l' (λ j lo hi.
      subst (λ x. (0 < x % 0x8000) × (x % 0x8000 < pblks_per_bank))
        (sym (same j (λ e. absurd (omega arith)))) (h j (omega arith) (omega arith))) in
    rw good (
      ok,
      λ j lo hi. elim (Eq-cases j i) [
        | inl at ↦ rw at (old i (omega arith) ∙ here)
        | inr behind ↦ cut j (ground arith) (omega arith) ∙ ap (λ x. x % 0x8000) (same j behind)
      ],
      λ j lt. old j (omega arith) ∙ same j (λ e. absurd (omega arith)),
    )

-- What is searched if the list is trusted: its entries behind a 0.
pub read-Trusted :
    (corrupt : Bool) (l : ScanList)
    → Trusted corrupt l
    → ((read_scan_list corrupt l).0 ≡ l.num_entries)
      × ((read_scan_list corrupt l).1.num_entries ≡ 0)
      × ((j : ℕ) → j < l.num_entries → (read_scan_list corrupt l).1.list j ≡ entry l j)
unfolding read_scan_list
read-Trusted corrupt l t =
    let (ok, cut, old) =
      check_entries-Trusted (l.num_entries) 0 l (λ j lo hi. t.blocks j (omega arith)) in
    let short : ltb scan_list_items (l.num_entries) ≡ false =
      let s = t.short in ground (arith, s) in
    rw (t.clean, short, ok) (refl, refl, λ j lt. cut j (omega arith) (omega arith))

-- And if it is not: no entry, but the word before the entries.
pub read-Refused :
    (corrupt : Bool) (l : ScanList)
    → Refused corrupt l
    → ((read_scan_list corrupt l).0 ≡ 0)
      × ((read_scan_list corrupt l).1.num_entries ≡ l.num_entries)
unfolding read_scan_list
read-Refused corrupt l r = elim (Bool-cases (corrupt || ltb scan_list_items (l.num_entries))) [
  | inl out ↦ rw out (refl, refl)
  | inr within ↦
      let wrong : (check_entries (l.num_entries) 0 true l).0 ≡ false = elim r [
        | inl c ↦ absurd (ground (arith, within, c))
        | inr (inl long) ↦ absurd (ground (arith, within, long))
        | inr (inr (i, lt, w)) ↦
            check_entries-wrong (l.num_entries) 0 i true l (omega arith) (omega arith) w
      ] in
      rw (within, wrong) (refl, check_entries-num (l.num_entries) 0 true l)
]

module _ (search : Search) (s : Searches search) where
  searched :
      (n val : ℕ) (words : ℕ → ℕ)
      → ltb (search n val words) n ≡ true
      → (j : ℕ) × (j < n) × (words j ≡ val)
  searched n val words h = s.found n val words (ground (arith, h))

  searches :
      (n val j : ℕ) (words : ℕ → ℕ) → j < n → words j ≡ val → ltb (search n val words) n ≡ true
  searches n val j words lt e = let f = s.finds n val j words lt e in ground (arith, f)

  -- A word that is found is the count or an entry.
  word_cases :
      (l : ScanList) (n j val : ℕ)
      → j < n + 1
      → words_of l j ≡ val
      → (l.num_entries ≡ val) ⊎ ((i : ℕ) × (i < n) × (l.list i ≡ val))
  word_cases l n zero val lt e = inl e
  word_cases l n (suc i) val lt e = inr (i, omega arith, e)

  -- The count or an entry is one of the two planes of the block.
  is_listed-found :
      (n u : ℕ) (l : ScanList)
      → is_listed search n u l ≡ true
      → (l.num_entries / 2 ≡ u) ⊎ ((i : ℕ) × (i < n) × (l.list i / 2 ≡ u))
  unfolding is_listed
  is_listed-found n u l h = elim (Bool-cases (ltb (search (n + 1) (u * 2) (words_of l)) (n + 1))) [
    | inl first ↦
        let (j, lt, e) = searched (n + 1) (u * 2) (words_of l) first in
        elim (word_cases l n j (u * 2) lt e) [
          | inl c ↦ inl (omega arith)
          | inr (i, hi, e') ↦ inr (i, hi, omega arith)
        ]
    | inr none_first ↦
        let second : ltb (search (n + 1) (u * 2 + 1) (words_of l)) (n + 1) ≡ true =
          rw none_first at h in
        let (j, lt, e) = searched (n + 1) (u * 2 + 1) (words_of l) second in
        elim (word_cases l n j (u * 2 + 1) lt e) [
          | inl c ↦ inl (omega arith)
          | inr (i, hi, e') ↦ inr (i, hi, omega arith)
        ]
  ]

  is_listed-finds :
      (n u j : ℕ) (l : ScanList) → j < n + 1 → words_of l j / 2 ≡ u → is_listed search n u l ≡ true
  unfolding is_listed
  is_listed-finds n u j l lt e = elim (Eq-cases (words_of l j) (u * 2)) [
    | inl first ↦ rw (searches (n + 1) (u * 2) j (words_of l) lt first) refl
    | inr second ↦
        let at : words_of l j ≡ u * 2 + 1 = ground (arith, e, second) in
        rw (searches (n + 1) (u * 2 + 1) j (words_of l) lt at) (ground arith)
  ]

  -- Of a trusted list, the blocks of its entries
  pub is_listed-Trusted :
      (corrupt : Bool) (l : ScanList) (u : ℕ)
      → Trusted corrupt l
      → 0 < u
      → let (n, l') = read_scan_list corrupt l in
        (is_listed search n u l' ≡ true) ↔ ((i : ℕ) × (i < l.num_entries) × (entry l i / 2 ≡ u))
  is_listed-Trusted corrupt l u t pos =
      let (num, zeroed, same) = read-Trusted corrupt l t in
      let r : ℕ × ScanList = read_scan_list corrupt l in
      (
        λ h. elim (is_listed-found (r.0) u (r.1) h) [
          | inl c ↦ absurd (omega arith)
          | inr (i, lt, e) ↦
              let hi : i < l.num_entries = omega arith in
              (i, hi, ap (λ x. x / 2) (sym (same i hi)) ∙ e)
        ],
        λ (i, lt, e).
            is_listed-finds (r.0) u (suc i) (r.1) (omega arith) (ap (λ x. x / 2) (same i lt) ∙ e),
      )

  -- Of one that is not, the block of its count
  pub is_listed-Refused :
      (corrupt : Bool) (l : ScanList) (u : ℕ)
      → Refused corrupt l
      → let (n, l') = read_scan_list corrupt l in
        (is_listed search n u l' ≡ true) ↔ (l.num_entries / 2 ≡ u)
  is_listed-Refused corrupt l u t =
      let (num, same) = read-Refused corrupt l t in
      let r : ℕ × ScanList = read_scan_list corrupt l in
      (
        λ h. elim (is_listed-found (r.0) u (r.1) h) [
          | inl c ↦ ap (λ x. x / 2) (sym same) ∙ c
          | inr (i, lt, e) ↦ absurd (omega arith)
        ],
        λ e. is_listed-finds (r.0) u 0 (r.1) (omega arith) (ap (λ x. x / 2) same ∙ e),
      )
