-- ===== src/Greedy/Device.antt =====
-- ftl_greedy/ftl.c on a device whose metadata are in step: `write_page` keeps them so.
use crypto_jasmine.Base.{
  false, leb, ℕ, ◌+◌, ◌≤◌, ◌<◌, ◌≡◌, ◌≢◌, inl, inr, sym, arith, some, Eq-cases, some-unique, ◌∙◌,
  refl, ==-ne,
}
use mathlib.Core.Path.{subst}
use crypto_jasmine.Base.Geometry.{num_banks, sectors_per_page, num_lpages, get_num_bank}
use crypto_jasmine.Greedy.State.{Greedy}
use crypto_jasmine.Greedy.Copying.{page_num}
use crypto_jasmine.Greedy.Write.{write_at, write_page}
use crypto_jasmine.Greedy.Written.{Written, write_at-Written}
use crypto_jasmine.Greedy.Rooms.{Assigned, assign-Assigned}
use crypto_jasmine.Greedy.Pages.{after-Assigned}
use crypto_jasmine.Greedy.Valid.{Open, Valid}
use crypto_jasmine.Greedy.Assign.{Ripe, Opened, assign-Opened}
use crypto_jasmine.Greedy.Marks.{Marks, write_at-Marks}
use crypto_jasmine.Greedy.Programmed.{programmed-Valid}
use crypto_jasmine.Greedy.Erasure.{Once, Chosen}
use crypto_jasmine.Greedy.Clean.{AllClean, assign-Chosen, written-AllClean, written-Once}
use crypto_jasmine.Greedy.Turns.{Used, write_at-Used, Used-after}
use crypto_jasmine.Greedy.Others.{Kept, Kept-Open, Kept-trans, Marks-Kept}

module _ {Data : Type 0} where
  -- Every bank is in step.
  abbrev pub AllValid : Greedy Data → Type 0
  AllValid s = (b : ℕ) → b < num_banks → Valid b s

module _ {Data : Type 0} where
  -- Only pages of the map are mapped.
  abbrev pub InMap : Greedy Data → Type 0
  InMap s = (l : ℕ) → 0 < s.page_map l → l < num_lpages

  write_at-InMap :
      (lpn v : ℕ) (s s₁ s' : Greedy Data)
      → lpn < num_lpages
      → InMap s
      → Assigned (get_num_bank lpn) s v s₁
      → Marks lpn v s₁ s'
      → InMap s'
  write_at-InMap lpn v s s₁ s' low known a m l pos = elim (Eq-cases l lpn) [
    | inl here ↦ omega arith
    | inr other ↦
        let same : s'.page_map l ≡ s₁.page_map l = m.map l ∙ rw (==-ne l lpn other) refl in
        known l (elim (Eq-cases (s.page_map l) 0) [
          | inl none_yet ↦ let gone = (a.mapped l).1 none_yet in absurd (omega (arith, same, gone))
          | inr mapped ↦ omega arith
        ])
  ]

module _ {Data : Type 0} (blank : Data) where
  -- What the choice of a page leads to: the data as the theorems on them tell it, and the metadata.
  Chosen-Valid :
      (lpn first count v : ℕ) (s s₁ : Greedy Data)
      → AllValid s
      → Opened (get_num_bank lpn) v s₁
      → ((b : ℕ) → b ≢ get_num_bank lpn → Kept b s s₁)
      → AllValid (write_at lpn v first count s₁)
  Chosen-Valid lpn first count v s s₁ all o kept b h =
      let t : Greedy Data = write_at lpn v first count s₁ in
      let m : Marks lpn v s₁ t = write_at-Marks lpn v first count s₁ in
      elim (Eq-cases b (get_num_bank lpn)) [
        | inl here ↦ subst (λ k. Valid k t) (sym here) (programmed-Valid lpn v s₁ t o m)
        | inr other ↦
            let k = Kept-trans b s s₁ t (kept b other) (Marks-Kept lpn v b other s₁ t m) in
            subst (λ c. Open b (page_num c.cur_write_vpn + 1) t) (sym (k.misc))
              (Kept-Open b _ s t k (all b h))
      ]

  -- On a device whose banks are in step and have erased the pages that come next, where only pages
  -- of the map are mapped, and where the bank of the page is ripe if it must collect a block, a
  -- write of sectors of a page of the map succeeds: the sectors come from the host's buffer, the
  -- others of the page are as before, every other logical page reads as before, what was asked of
  -- the device holds again, the host's buffer is the only one used up, and every page of the flash
  -- whose sectors changed was erased before or is erased now.
  pub write_page-Valid :
      (lpn first count : ℕ) (s : Greedy Data)
      → lpn < num_lpages
      → first + count ≤ sectors_per_page
      → AllValid s
      → AllClean blank s
      → InMap s
      → Ripe (get_num_bank lpn) s
      → (s' : Greedy Data) × (write_page blank lpn first count s ≡ some s')
        × Written lpn first count s s'
        × AllValid s'
        × Used s s'
        × AllClean blank s'
        × InMap s'
        × Once blank s s'
  unfolding write_page
  write_page-Valid lpn first count s low fits all clean known ripe =
      let in_map : leb num_lpages lpn ≡ false = ground arith in
      let bank : ℕ = get_num_bank lpn in
      let (room, v, s₁, e, o, kept, buffers) =
        assign-Opened blank bank s (all bank (omega arith)) ripe in
      let (v', s₁', e', a') = assign-Assigned blank bank s room in
      let a : Assigned bank s v s₁ =
        some-unique (λ (r : ℕ × Greedy Data). Assigned bank s r.0 r.1) e' e a' in
      let s' : Greedy Data = write_at lpn v first count s₁ in
      let m : Marks lpn v s₁ s' = write_at-Marks lpn v first count s₁ in
      let chosen : Chosen blank bank v s s₁ =
        assign-Chosen blank bank s (all bank (omega arith)) ripe (clean bank (omega arith)) v s₁ e
          o in
      (
        s',
        rw (in_map, e),
        after-Assigned blank lpn first count v s s₁ s' a
            (write_at-Written lpn v first count s₁ (a.pos) fits (a.fresh)),
        Chosen-Valid lpn first count v s s₁ all o kept,
        Used-after s s₁ s' buffers (write_at-Used lpn v first count s₁),
        written-AllClean blank lpn v first count s s₁ clean chosen o m
            (λ b other. Kept-trans b s s₁ s' (kept b other) (Marks-Kept lpn v b other s₁ s' m)),
        write_at-InMap lpn v s s₁ s' low known a m,
        written-Once blank lpn v first count s s₁ chosen,
      )
