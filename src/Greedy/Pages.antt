-- ===== src/Greedy/Pages.antt =====
-- `write_page` of ftl_greedy/ftl.c, from the choice of a page to the data in it.
use crypto_jasmine.Base.{ℕ, ◌<◌, inl, inr, ◌∙◌, arith, Eq-cases}
use crypto_jasmine.Base.Geometry.{get_num_bank}
use crypto_jasmine.Greedy.State.{Greedy}
use crypto_jasmine.Greedy.Written.{Written}
use crypto_jasmine.Greedy.Rooms.{Assigned}

module _ {Data : Type 0} (blank : Data) where
  Assigned-stays :
      (lpn v : ℕ) (s s₁ : Greedy Data)
      → Assigned (get_num_bank lpn) s v s₁
      → (l : ℕ) → 0 < s.page_map l
      → 0 < s₁.page_map l
  Assigned-stays lpn v s s₁ a l h = elim (Eq-cases (s₁.page_map l) 0) [
    | inl none_yet ↦ let gone = (a.mapped l).0 none_yet in absurd (omega arith)
    | inr mapped ↦ omega arith
  ]

  -- What comes after the choice of a page, told from before it.
  pub after-Assigned :
      (lpn first count v : ℕ) (s s₁ s' : Greedy Data)
      → Assigned (get_num_bank lpn) s v s₁
      → Written lpn first count s₁ s'
      → Written lpn first count s s'
  after-Assigned lpn first count v s s₁ s' a w = record {
    new = λ i h t. w.new i h t ∙ a.buffer i;
    old = λ i h t m. w.old i h t (Assigned-stays lpn v s s₁ a lpn m) ∙ a.same lpn i;
    others = λ l ne i. w.others l ne i ∙ a.same l i;
    mapped = w.mapped;
    stays = λ l h. w.stays l (Assigned-stays lpn v s s₁ a l h);
  }
