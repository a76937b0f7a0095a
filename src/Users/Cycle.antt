-- ===== src/Users/Cycle.antt =====
-- target_spw/passwordList.c: the second user that is added closes a cycle.
use crypto_jasmine.Base.{
  ℕ, zero, suc, ◌≡◌, ◌≢◌, refl, sym, ◌∙◌, arith, Bool, true, false, Option, none, some, upd,
  upd-same, upd-other, ◌>>=◌, ==-ne,
}
use crypto_jasmine.Users.List.{
  State, PasswordList, Heap, Node, Malloc, walk, check_if_user_exists, create_password_list,
  create_node, new_node, link_node, add_new_user,
}

-- Two nodes that are each other's next.
abbrev pub Loop : Heap → (a b : ℕ) → Type 0
Loop h a b =
    (a ≢ 0)
    × (b ≢ 0)
    × ((m : Node) × (h a ≡ some m) × (m.next ≡ b))
    × ((n : Node) × (h b ≡ some n) × (n.next ≡ a))

walk-Loop : (n : ℕ) (h : Heap) (a b : ℕ) → Loop h a b → walk n h a ≡ none
unfolding walk
walk-Loop zero h a b (pa, pb, at_a, at_b) = rw (==-ne a 0 pa)
walk-Loop (suc n) h a b (pa, pb, (m, ha, em), at_b) =
    rw (==-ne a 0 pa, ha, em) (walk-Loop n h b a (pb, pa, at_b, (m, ha, em)))

-- A list of one node.
abbrev pub one_user : ℕ → PasswordList
one_user a = record { head = a; tail = a; size = 1 }

-- A list with a cycle through its head.
abbrev pub Cyclic : State → Type 0
Cyclic (l, h) = (l.size ≢ 0) × ((b : ℕ) × Loop h (l.head) b)

-- `malloc` gives an address that is in no use, and not NULL.
abbrev pub Gives : Malloc → Heap → Type 0
Gives malloc h = (malloc h ≢ 0) × (h (malloc h) ≡ none)

create_node-gives :
    (malloc : Malloc) (user password next previous : ℕ) (h : Heap)
    → malloc h ≢ 0
    → create_node malloc user password next previous h
      ≡ (malloc h, upd h (malloc h) (some (new_node user password next previous)))
unfolding create_node
create_node-gives malloc user password next previous h p = rw (==-ne (malloc h) 0 p)

add_new_user-links :
    (malloc : Malloc) (steps user password : ℕ) (l : PasswordList) (h : Heap)
    → check_if_user_exists steps user (l, h) ≡ some false
    → malloc h ≢ 0
    → add_new_user malloc steps user password (l, h)
      ≡ link_node (malloc h) (l, upd h (malloc h) (some (new_node user password (l.head) 0)))
unfolding add_new_user
add_new_user-links malloc steps user password l h e p =
    rw (e, create_node-gives malloc user password (l.head) 0 h p, ==-ne (malloc h) 0 p)

walk-at_null : (n : ℕ) (h : Heap) → walk n h 0 ≡ some 0
unfolding walk
walk-at_null zero h = refl
walk-at_null (suc n) h = refl

-- The walk over a list of one node.
check-one_user :
    (n user a : ℕ) (h : Heap) (m : Node)
    → a ≢ 0
    → h a ≡ some m
    → m.next ≡ 0
    → check_if_user_exists (suc n) user (one_user a, h) ≡ some false
unfolding check_if_user_exists walk
check-one_user n user a h m p here end = rw (==-ne a 0 p, here, end, walk-at_null n h)

-- The first user: a list of one node.
first :
    (malloc : Malloc) (steps user password : ℕ) (h : Heap)
    → malloc h ≢ 0
    → add_new_user malloc steps user password (create_password_list, h)
      ≡ some (true, (one_user (malloc h), upd h (malloc h) (some (new_node user password 0 0))))
unfolding create_password_list check_if_user_exists link_node
first malloc steps user password h p =
    add_new_user-links malloc steps user password create_password_list h refl p

-- The second user: its node is behind the first one, and has the first one behind it.
second :
    (malloc : Malloc) (n user password a : ℕ) (h : Heap) (m : Node)
    → a ≢ 0
    → h a ≡ some m
    → m.next ≡ 0
    → Gives malloc h
    → (s : State) × (add_new_user malloc (suc n) user password (one_user a, h) ≡ some (true, s))
      × Cyclic s
unfolding link_node
second malloc n user password a h m p here end (q, free) =
    let b : ℕ = malloc h in
    let node : Node = new_node user password a 0 in
    let made : Heap = upd h b (some node) in
    let tied : Heap = upd made a (some (record m { next = b })) in
    let apart : a ≢ b = λ e. let clash : some m ≡ none = sym here ∙ rw e free in cc in
    let at_a : made a ≡ some m = upd-other h (some node) apart ∙ here in
    let at_b : tied b ≡ some node =
      upd-other made (some (record m { next = b })) (λ e. apart (sym e))
      ∙ upd-same h b (some node) in
    (
      (record { head = a; tail = b; size = 2 }, tied),
      add_new_user-links malloc (suc n) user password (one_user a) h
            (check-one_user n user a h m p here end) q
          ∙ rw at_a,
      (
        omega arith,
        (
          b,
          (
            p,
            q,
            (record m { next = b }, upd-same made a (some (record m { next = b })), refl),
            (node, at_b, refl),
          ),
        ),
      ),
    )

check-Cyclic : (steps user : ℕ) (s : State) → Cyclic s → check_if_user_exists steps user s ≡ none
unfolding check_if_user_exists
check-Cyclic steps user (l, h) (more, (b, tied)) =
    rw (==-ne (l.size) 0 more, walk-Loop steps h (l.head) b tied)

add_new_user-stuck :
    (malloc : Malloc) (steps user password : ℕ) (s : State)
    → check_if_user_exists steps user s ≡ none
    → add_new_user malloc steps user password s ≡ none
unfolding add_new_user
add_new_user-stuck malloc steps user password (l, h) e = rw e

-- The state after two users have been added to an empty list.
abbrev pub two_users : Malloc → (steps : ℕ) → (u p v q : ℕ) → Heap → Option (Bool × State)
two_users malloc steps u p v q h = add_new_user malloc steps u p (create_password_list, h) >>= λ r.
    add_new_user malloc steps v q r.1

-- If `malloc` gives memory twice, two users can be added to an empty list; from then on no search of the
-- list ends, and no third user can be added.
pub add_new_user-endless :
    (malloc : Malloc) (n u p v q : ℕ) (h : Heap)
    → Gives malloc h
    → Gives malloc (upd h (malloc h) (some (new_node u p 0 0)))
    → (s : State) × (two_users malloc (suc n) u p v q h ≡ some (true, s))
      × ((steps w : ℕ) → check_if_user_exists steps w s ≡ none)
      × ((steps w r : ℕ) → add_new_user malloc steps w r s ≡ none)
add_new_user-endless malloc n u p v q h (some_memory, free) again =
    let a : ℕ = malloc h in
    let made : Heap = upd h a (some (new_node u p 0 0)) in
    let (s, linked, cyclic) =
      second malloc n v q a made (new_node u p 0 0) some_memory (upd-same h a _) refl again in
    (
      s,
      rw (first malloc (suc n) u p h some_memory) linked,
      (λ steps w. check-Cyclic steps w s cyclic),
      λ steps w r. add_new_user-stuck malloc steps w r s (check-Cyclic steps w s cyclic),
    )
