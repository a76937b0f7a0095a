-- ===== src/Users/Permissions.antt =====
-- target_spw/passwordList.c: what its searches and its removal come to without a comparison of names.
use crypto_jasmine.Base.{
  ◌≤◌, List, [], ◌∷◌, length, ℕ, zero, suc, ◌≡◌, ◌≢◌, inl, inr, arith, false, none, some,
  >>=-eq-some, Eq-cases, ==-ne, Option-cases,
}
use crypto_jasmine.Users.List.{
  Node, add_write_permissions, remove_read_permissions, remove_write_permissions, PasswordList,
  Heap, walk, check_if_user_exists, no_permission, get_user_password_pointer,
  check_read_permissions, check_write_permissions, add_read_permissions, remove_user, unlink_node,
  unlink_before,
}

-- A walk that ends is at NULL.
walk-null : (n : ℕ) (h : Heap) (a : ℕ) {r : ℕ} → walk n h a ≡ some r → r ≡ 0
unfolding walk
walk-null zero h a e = ground arith
walk-null (suc n) h a {r} e = elim (Eq-cases a 0) [
  | inl nul ↦ let same : some 0 ≡ some r = rw nul at e in ground arith
  | inr other ↦
      let (node, at, rest) = >>=-eq-some (h a) _ (rw (==-ne a 0 other) at e) in
      walk-null n h (node.next) rest
]

-- The list from the address `a` on is the one of these addresses, and it ends.
abbrev pub Nodes : Heap → ℕ → List ℕ → Type 0
Nodes h a [] = a ≡ 0
Nodes h a (x ∷ xs) = (a ≡ x) × (x ≢ 0) × ((n : Node) × (h x ≡ some n) × Nodes h n.next xs)

walk-Nodes :
    (n : ℕ) (h : Heap) (a : ℕ) (xs : List ℕ) → Nodes h a xs → length xs ≤ n → walk n h a ≡ some 0
unfolding walk
walk-Nodes zero h a [] e le = rw e
walk-Nodes zero h a (x ∷ xs) c le = absurd (omega arith)
walk-Nodes (suc n) h a [] e le = rw e
walk-Nodes (suc n) h a (x ∷ xs) (e, pos, (node, at, c)) le =
    rw (e, ==-ne x 0 pos, at) (walk-Nodes n h (node.next) xs c (omega arith))

check-none :
    (steps user : ℕ) (l : PasswordList) (h : Heap)
    → walk steps h (l.head) ≡ some 0
    → check_if_user_exists steps user (l, h) ≡ some false
unfolding check_if_user_exists
check-none steps user l h e = elim (Eq-cases (l.size) 0) [
  | inl empty ↦ rw empty
  | inr more ↦ rw (==-ne (l.size) 0 more, e)
]

no_permission-none :
    (steps user : ℕ) (l : PasswordList) (h : Heap)
    → walk steps h (l.head) ≡ some 0
    → no_permission steps user (l, h) ≡ some false
unfolding no_permission
no_permission-none steps user l h e = rw (check-none steps user l h e)

pointer-none :
    (steps user : ℕ) (l : PasswordList) (h : Heap)
    → walk steps h (l.head) ≡ some 0
    → get_user_password_pointer steps user (l, h) ≡ some 0
unfolding get_user_password_pointer
pointer-none steps user l h e = elim (Eq-cases (l.size) 0) [
  | inl empty ↦ rw empty
  | inr more ↦ rw (==-ne (l.size) 0 more, e)
]

-- Every search of a list that ends comes to its end and finds nobody, whoever is in the list: no
-- user exists, no permission is given, taken away or found, and the pointer to a password is NULL.
pub users-not_found :
    (steps user bank : ℕ) (l : PasswordList) (h : Heap) (xs : List ℕ)
    → Nodes h l.head xs
    → length xs ≤ steps
    → (check_if_user_exists steps user (l, h) ≡ some false)
      × (add_read_permissions steps user bank (l, h) ≡ some false)
      × (add_write_permissions steps user bank (l, h) ≡ some false)
      × (remove_read_permissions steps user bank (l, h) ≡ some false)
      × (remove_write_permissions steps user bank (l, h) ≡ some false)
      × (check_read_permissions steps user bank (l, h) ≡ some false)
      × (check_write_permissions steps user bank (l, h) ≡ some false)
      × (get_user_password_pointer steps user (l, h) ≡ some 0)
users-not_found steps user bank l h xs c le =
    let e = walk-Nodes steps h (l.head) xs c le in
    let no = no_permission-none steps user l h e in
    (check-none steps user l h e, no, no, no, no, no, no, pointer-none steps user l h e)

unlink-null : (l : PasswordList) (h : Heap) → h 0 ≡ none → unlink_node 0 (l, h) ≡ none
unfolding unlink_node unlink_before
unlink-null l h nul = rw nul

-- With no node at address 0, the removal of a user from a list that is not empty never gives a
-- result, whoever the user is: it walks to the end and follows the null pointer there.
pub remove_user-faults :
    (steps user : ℕ) (l : PasswordList) (h : Heap)
    → h 0 ≡ none
    → l.size ≢ 0
    → remove_user steps user (l, h) ≡ none
unfolding remove_user
remove_user-faults steps user l h nul more = elim (Option-cases (walk steps h (l.head))) [
  | inl endless ↦ rw (==-ne (l.size) 0 more, endless)
  | inr (iter, ends) ↦
      let last = walk-null steps h (l.head) ends in
      rw (==-ne (l.size) 0 more, ends, last, unlink-null l h nul)
]
